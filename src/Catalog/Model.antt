-- ===== src/Catalog/Model.antt =====
-- descarteslabs/catalog/attributes.py and catalog_base.py: the objects of the catalog.
pub mod Attribute
pub mod Object
pub mod Calls
pub mod Invariant
pub mod Loading
pub mod History
pub mod Transaction
pub mod Saved
