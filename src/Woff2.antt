-- ===== src/Woff2.antt =====
-- src/woff2.rs and src/woff2/lut.rs: the variable-length numbers, the bit array, the tables and the
-- decoding of points of the WOFF2 format.
pub mod Base128
pub mod Packed
pub mod Bits
pub mod Lut
pub mod KnownTags
pub mod Coordinates
pub mod Header
pub mod Directory
pub mod EndPoints
