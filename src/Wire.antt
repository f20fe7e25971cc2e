-- ===== src/Wire.antt =====
-- What travels between the two programs: the FlatBuffers tables of flats/ as the code reads them.
pub mod Flat
pub mod FileSpec
pub mod SessionInit
pub mod LogMessage
pub mod LogList
mod Tests
