-- ===== src/Handles.antt =====
-- The tables of OCI handles: odpi/src/dpiHandlePool.c and odpi/src/dpiHandleList.c.
pub mod Cursor
pub mod Pool
pub mod Queue
pub mod Table
pub mod Slots
mod Tests
