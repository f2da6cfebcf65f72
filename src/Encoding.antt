-- ===== src/Encoding.antt =====
-- encoding.cc and encoding_impl.cc: the wire format.
pub mod Tag
pub mod Stack
pub mod Marshal
pub mod Skip
pub mod Chunked
pub mod Schema
pub mod Unmarshal
