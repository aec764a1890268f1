-- ===== src/Tdf.antt =====
-- The TDF codec (Fire2Encoder.go, Fire2Decoder.go, Fire2Types.go).
pub mod Varint
pub mod Tag
pub mod Value
pub mod Sort
pub mod Encode
pub mod HeatType
pub mod Decode
mod Tests
