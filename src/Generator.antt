-- ===== src/Generator.antt =====
-- cmd/serialrpcgen: the code generator, a plugin of protoc.
--
-- google::protobuf reads the .proto files; a descriptor is what the generator asks of it.
pub mod Names
pub mod Uuid
pub mod Model
