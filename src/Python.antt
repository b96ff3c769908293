-- ===== src/Python.antt =====
-- The parts of Python itself that several components use.
pub mod Number
pub mod Result
pub mod Dict
