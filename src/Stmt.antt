-- ===== src/Stmt.antt =====
-- Binding variables to a statement, fetching from it, scrolling in its result set, and closing it: odpi/src/dpiStmt.c.
pub mod State
pub mod Fetch
pub mod Scroll
pub mod Close
pub mod Closed
pub mod Bind
pub mod Rebind
pub mod Bindings
pub mod Refill
pub mod Rows
pub mod All
pub mod Positions
pub mod Relative
mod Tests
mod BindTests
