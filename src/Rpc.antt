-- ===== src/Rpc.antt =====
-- rpc.h and service_info.h: the message types of the protocol and the description of a service.
-- serialrpc_protocol.proto: the fields of the hello message.
use serialrpc.Base.{ℕ, ℤ}
use serialrpc.Io.{Bytes}

abbrev pub protocol_version : ℕ
protocol_version = 1

-- `enum ServerMessageType : byte`.
pub data ServerMessageType : Type 0 where
  reply error_reply event log unknown too_big bad_message fatal_error server_hello server_goodbye :
      ServerMessageType

abbrev pub server_byte : ServerMessageType → ℕ
server_byte reply = 0xF0
server_byte error_reply = 0xF1
server_byte event = 0xF2
server_byte log = 0xF3
server_byte unknown = 0xF4
server_byte too_big = 0xF5
server_byte bad_message = 0xF6
server_byte fatal_error = 0xF7
server_byte server_hello = 0xF9
server_byte server_goodbye = 0xFA

-- `enum ClientMessageType : byte`.
pub data ClientMessageType : Type 0 where
  request client_hello client_goodbye : ClientMessageType

abbrev pub client_byte : ClientMessageType → ℕ
client_byte request = 0xF0
client_byte client_hello = 0xF1
client_byte client_goodbye = 0xF2

pub record ServiceInfo : Type 0 where
  pub name : Bytes
  -- empty if the service is in no package
  pub package_name : Bytes
  pub uuid : Bytes
  pub major_version : ℤ
  pub minor_version : ℤ
  pub num_endpoints : ℕ
