-- ===== src/Cli.antt =====
-- cmd/serialrpc: the call of a method from the command line (call.cc), with messages that are known
-- at run time only, and the listing of the services (main.cc).
--
-- google::protobuf holds the messages and their descriptors. A message is what its reflection lists.
pub mod Dynamic
pub mod Method
pub mod Schema
pub mod Receive
pub mod Call
pub mod Listing
