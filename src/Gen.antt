-- ===== src/Gen.antt =====
-- Handles as the callers of the library hold them: odpi/src/dpiGen.c.
pub mod Types
pub mod Handle
pub mod Counts
mod Tests
