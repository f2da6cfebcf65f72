-- ===== src/Server/Messages.antt =====
-- What a server sends: replies, events, errors, the hello and the goodbye.
pub mod Laws
use serialrpc.Base.{
  ℕ, ◌+◌, ◌*◌, ◌-◌, ◌%◌, ◌^◌, ltb, if◌then◌else◌, Bool, List, [], ◌∷◌, ℤ, pos, negsuc,
}
use serialrpc.Io.{Io, Bytes, Sink, Result, ok, err, ◌>>=◌}
use serialrpc.Rpc.{
  ServiceInfo, protocol_version, ServerMessageType, reply, error_reply, event, server_hello,
  server_goodbye, server_byte,
}
use serialrpc.Encoding.Tag.{var_int, end_tag, code, write_tag}
use serialrpc.Encoding.Marshal.{
  Value, int32, text, message, Fields, nil, field, marshal, marshal_value,
}
use serialrpc.Encoding.Chunked.{write_chunked}
use serialrpc.Server.Dispatch.{Conn, Service, send_code}

-- serialrpc_protocol.proto: the numbers of the fields of `ServerHello` and `ServiceDef`.
abbrev pub protocol_version_field_number : ℕ
protocol_version_field_number = 1

abbrev pub services_field_number : ℕ
services_field_number = 2

-- `ServiceDef`.
pub record ServiceDef : Type 0 where
  pub uuid : Bytes
  pub major_version : ℤ
  pub minor_version : ℤ
  pub num_endpoints : ℤ

-- The int32 with the bits of a uint32.
unfoldable pub to_int32 : ℕ → ℤ
to_int32 n = if ltb n (2 ^ 31) then pos n else negsuc (2 ^ 32 - 1 - n)

unfoldable pub to_service_def : ServiceInfo → ServiceDef
unfolding to_int32
to_service_def info = record {
  uuid = info.uuid;
  major_version = info.major_version;
  minor_version = info.minor_version;
  num_endpoints = to_int32 info.num_endpoints;
}

-- The fields of a `ServiceDef` as its generated `marshal` takes them.
abbrev pub service_def_fields : ServiceDef → Fields
service_def_fields def = field 1 (text def.uuid) (
    field 2 (int32 def.major_version)
      (field 3 (int32 def.minor_version) (field 4 (int32 def.num_endpoints) nil)))

module _ (io : Io) where
  unfoldable pub finish_msg : Sink → Result Sink
  finish_msg w = io.flush w

  unfoldable pub start_reply : Sink → Result Sink
  start_reply w = io.write_byte (server_byte reply) w

  unfoldable pub start_event : ℕ → Sink → Result Sink
  start_event event_id w = do
    w ← io.write_byte (server_byte event) w
    io.write_uint32 ((event_id + 1) % 2 ^ 32) w

  unfoldable pub send_reply_void : Sink → Result Sink
  unfolding start_reply finish_msg
  send_reply_void w = do w ← start_reply w; finish_msg w

  unfoldable pub send_reply_msg : Bool → Fields → Sink → Result Sink
  unfolding start_reply finish_msg
  send_reply_msg big msg w = do w ← start_reply w; w ← marshal io big msg w; finish_msg w

  unfoldable pub send_event_void : ℕ → Sink → Result Sink
  unfolding start_event finish_msg
  send_event_void event_id w = do w ← start_event event_id w; finish_msg w

  unfoldable pub send_event : Bool → ℕ → Fields → Sink → Result Sink
  unfolding start_event finish_msg
  send_event big event_id msg w = do
    w ← start_event event_id w
    w ← marshal io big msg w
    finish_msg w

  -- `ServerErrorHandler::handle`; the pieces are what `fmt::sprint` of the error writes.
  unfoldable pub handle_error : List Bytes → Sink → Result Sink
  handle_error rpc_error w = do
    w ← io.write_byte (server_byte error_reply) w
    w ← write_chunked io rpc_error w
    io.flush w

  unfoldable pub send_service_description : Bool → ServiceDef → Sink → Result Sink
  send_service_description big service w = do
    (stack, w) ←
        marshal_value io big services_field_number (message (service_def_fields service)) [] w
    ok w

  unfoldable pub send_services_descriptions : Bool → List ServiceInfo → Sink → Result Sink
  unfolding send_service_description to_service_def
  send_services_descriptions big [] w = ok w
  send_services_descriptions big (info ∷ infos) w = do
    w ← send_service_description big (to_service_def info) w
    send_services_descriptions big infos w

  unfoldable pub write_server_hello : Bool → List ServiceInfo → Sink → Result Sink
  unfolding send_services_descriptions
  write_server_hello big infos w = do
    w ← io.write_byte (server_byte server_hello) w
    w ← write_tag io protocol_version_field_number var_int w
    w ← io.write_uint32 protocol_version w
    w ← send_services_descriptions big infos w
    w ← io.write_byte (code end_tag) w
    io.flush w

  -- `handle_goodbye` up to the lock's end. An error of the write is seen after the flush only.
  unfoldable pub write_goodbye : Sink → Result Sink
  write_goodbye w = do w ← io.write_byte (server_byte server_goodbye) w; io.flush w
