-- ===== src/Catalog.antt =====
-- descarteslabs/catalog: the client of the catalog service.
pub mod Search
pub mod Model
