-- ===== src/Var.antt =====
-- Variables: odpi/src/dpiVar.c.
pub mod Types
pub mod Conversions
pub mod State
pub mod Allocate
pub mod Made
pub mod Arrays
pub mod Bounds
pub mod Held
pub mod Store
pub mod Memory
pub mod Stored
pub mod Kept
pub mod Sizes
pub mod References
pub mod Owned
pub mod Counted
pub mod Prefetch
pub mod Returning
pub mod Returned
pub mod Served
pub mod Chunks
pub mod Matches
pub mod Receive
pub mod Dynamic
mod Tests
