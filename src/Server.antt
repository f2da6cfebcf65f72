-- ===== src/Server.antt =====
-- server.cc and server_impl.cc: the server of a connection.
--
-- One thread serves a connection; `write_mtx` keeps the events of other threads out of the middle
-- of its messages and has no part in the model.
pub mod Dispatch
pub mod Messages
pub mod Generated
pub mod Accept
pub mod Discovery
