-- ===== src/Tests.antt =====
-- Runs of the theorems at concrete inputs, with varints as LEB128 has them.
mod Codec
mod Calls
mod Serving
mod Remote
mod Waiting
mod Tools
mod Generating
