-- ===== src/OracleTypes.antt =====
-- The Oracle types and the description of a column: odpi/src/dpiOracleType.c.
pub mod Numbers
pub mod Table
pub mod Convert
pub mod Order
pub mod Describe
pub mod Total
mod Tests
