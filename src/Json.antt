-- ===== src/Json.antt =====
-- Values of type JSON: odpi/src/dpiJson.c, which moves trees between the documents of the Oracle client
-- library and the nodes of ODPI-C.
mod Tree
mod Dom
mod Buffers
mod Scalars
mod Read
mod Native
mod Batches
mod Reads
mod Texts
mod Returns
mod Write
mod Balance
mod Plain
mod Represented
mod RoundTrip
mod Faults
mod Documents
mod Tests
