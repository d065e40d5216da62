-- ===== src/Number.antt =====
-- Oracle numbers: odpi/src/dpiUtils.c and odpi/src/dpiData.c.
pub mod Parse
pub mod Oracle
pub mod Text
pub mod TextSize
pub mod Literal
pub mod Digits
pub mod Grammar
pub mod Canonical
pub mod Mantissa
pub mod Exponent
pub mod Bytes
pub mod Proper
pub mod RoundTrip
pub mod Size
mod Tests
