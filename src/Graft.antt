-- ===== src/Graft.antt =====
-- descarteslabs/common/graft: the syntax of grafts, the client that builds them, and the
-- interpreter that runs them.
pub mod Value
pub mod Fields
pub mod Syntax
pub mod Client
pub mod Interpreter
