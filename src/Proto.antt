-- ===== src/Proto.antt =====
-- The package proto: numbers and records to and from bytes.
pub mod Buffer
pub mod Basic
pub mod Opcodes
pub mod Geometry
pub mod Tag
pub mod Tags
pub mod BitField
pub mod Packets
pub mod Parts
pub mod Search
pub mod Resume
pub mod Combiner
pub mod Server
pub mod Options
