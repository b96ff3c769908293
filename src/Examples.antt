-- ===== src/Examples.antt =====
-- The theorems at concrete inputs.
pub mod Graft
pub mod Merging
pub mod Dotdict
pub mod Filtering
pub mod Catalog
pub mod Retry
pub mod Collection
pub mod Model
pub mod Scaling
pub mod Tasks
pub mod Threading
