-- ===== src/Server/Messages/Laws.antt =====
-- The bytes of a server's messages.
use serialrpc.Base.{
  ℕ, ◌+◌, ◌%◌, ◌^◌, ◌<◌, ◌≤◌, ◌≡◌, refl, sym, ap, Bool, List, [], ◌∷◌, ◌++◌, append-nil,
  append_assoc, length, Fits, All, arith,
}
use serialrpc.Io.{Io, Bytes, Sink, ok}
use serialrpc.Io.Laws.{Laws}
use serialrpc.Rpc.{
  ServiceInfo, protocol_version, reply, error_reply, event, server_hello, server_goodbye,
  server_byte,
}
use serialrpc.Encoding.Tag.{var_int, end_tag, code}
use serialrpc.Encoding.Tag.RoundTrip.{tag_bytes, write_tag_lem}
use serialrpc.Encoding.Marshal.{message, Fields}
use serialrpc.Encoding.Marshal.Encode.{
  encode, encode_fields, encode_value, FieldsInRange, depth_fields, wrap, InRange, depth,
}
use serialrpc.Encoding.Marshal.Refines.{marshal-encode, marshal_value-encode}
use serialrpc.Encoding.Chunked.Laws.{IsChunk, chunk_bytes, write_chunked_lem}
use serialrpc.Server.Messages.{
  protocol_version_field_number, services_field_number, ServiceDef, to_int32, to_service_def,
  service_def_fields, send_reply_msg, send_event, send_service_description,
  send_services_descriptions, handle_error, write_server_hello, write_goodbye,
}

pub to_int32-Fits : (n : ℕ) → n < 2 ^ 32 → Fits 31 (to_int32 n)
unfolding to_int32
to_int32-Fits n h = ground arith

-- The bounds of the types of a `ServiceInfo`.
pub record InfoInRange (info : ServiceInfo) : Type 0 where
  pub uuid_length : length info.uuid ≡ 16
  pub major_fits : Fits 31 info.major_version
  pub minor_fits : Fits 31 info.minor_version
  pub endpoints_fit : info.num_endpoints < 2 ^ 31

pub def-InRange :
    (info : ServiceInfo)
    → InfoInRange info
    → InRange (message (service_def_fields (to_service_def info)))
unfolding InRange to_service_def
def-InRange info h = (
  omega (arith, h.uuid_length),
  (h.major_fits, (h.minor_fits, (to_int32-Fits info.num_endpoints (omega arith), tt))),
)

def_depth : (def : ServiceDef) → depth (message (service_def_fields def)) ≤ 128
unfolding depth
def_depth def = omega arith

module _ (io : Io) (big : Bool) (laws : Laws io) where
  -- A reply is its type byte and the encoded message, for fields in the range of their types that nest
  -- at most 128 deep.
  pub send_reply_msg_lem :
      (msg : Fields) (w : Sink)
      → FieldsInRange msg
      → depth_fields msg ≤ 128
      → send_reply_msg io big msg w ≡ ok (w ++ server_byte reply ∷ encode io laws msg)
  unfolding send_reply_msg
  send_reply_msg_lem msg w h d =
      rw
        (
          laws.write_byte_eq (server_byte reply) w,
          marshal-encode io big laws msg (w ++ server_byte reply ∷ []) h d,
          laws.flush_eq ((w ++ server_byte reply ∷ []) ++ encode io laws msg),
        )
        (ap ok (append_assoc w (server_byte reply ∷ []) (encode io laws msg)))

  -- An event is its type byte, the one-based number of its endpoint, below 2^32, and the encoded
  -- message, for fields in the range of their types that nest at most 128 deep.
  pub send_event_lem :
      (event_id : ℕ) (msg : Fields) (w : Sink)
      → event_id + 1 < 2 ^ 32
      → FieldsInRange msg
      → depth_fields msg ≤ 128
      → send_event io big event_id msg w
        ≡ ok (w ++ server_byte event ∷ (laws.uvarint (event_id + 1) ++ encode io laws msg))
  unfolding send_event
  send_event_lem event_id msg w lt h d =
      rw
        (
          small,
          laws.write_byte_eq (server_byte event) w,
          laws.write_uint32_eq (event_id + 1) (w ++ server_byte event ∷ []) lt,
          marshal-encode io big laws msg
              ((w ++ server_byte event ∷ []) ++ laws.uvarint (event_id + 1)) h d,
          laws.flush_eq (
              ((w ++ server_byte event ∷ []) ++ laws.uvarint (event_id + 1)) ++ encode io laws msg),
        )
        (simp append_assoc)
    where
      small : (event_id + 1) % 2 ^ 32 ≡ event_id + 1
      small = omega arith

  abbrev pub description_bytes : List ServiceInfo → Bytes
  description_bytes [] = []
  description_bytes (info ∷ infos) =
      wrap io laws services_field_number
        (encode_fields io laws (service_def_fields (to_service_def info)))
      ++ description_bytes infos

  description_lem :
      (info : ServiceInfo) (w : Sink)
      → InfoInRange info
      → send_service_description io big (to_service_def info) w
        ≡ ok (
            w
            ++ wrap io laws services_field_number
                (encode_fields io laws (service_def_fields (to_service_def info))))
  unfolding send_service_description encode_value
  description_lem info w h =
      rw
        (marshal_value-encode io big laws services_field_number
          (message (service_def_fields (to_service_def info))) w (def-InRange info h)
          (def_depth (to_service_def info)))
        refl

  pub descriptions_lem :
      (infos : List ServiceInfo) (w : Sink)
      → All InfoInRange infos
      → send_services_descriptions io big infos w ≡ ok (w ++ description_bytes infos)
  unfolding send_services_descriptions
  descriptions_lem [] w h = ap ok (sym (append-nil w))
  descriptions_lem (info ∷ infos) w (h, hs) =
      rw (description_lem info w h, descriptions_lem infos _ hs)
        (ap ok (append_assoc w _ (description_bytes infos)))

  -- The hello: its type byte, the protocol version, the services in their order, and an End tag.
  abbrev pub hello_fields : List ServiceInfo → Bytes
  hello_fields infos =
      tag_bytes io laws protocol_version_field_number var_int
      ++ (laws.uvarint protocol_version ++ (description_bytes infos ++ code end_tag ∷ []))

  -- The hello of a server whose services have numbers in range is its type byte, the protocol version,
  -- the descriptions of the services in their order, and an End tag.
  pub server_hello_lem :
      (infos : List ServiceInfo) (w : Sink)
      → All InfoInRange infos
      → write_server_hello io big infos w ≡ ok (w ++ server_byte server_hello ∷ hello_fields infos)
  unfolding write_server_hello
  server_hello_lem infos w h =
      rw
        (
          laws.write_byte_eq (server_byte server_hello) w,
          write_tag_lem io laws protocol_version_field_number var_int
              (w ++ server_byte server_hello ∷ []) tt,
          laws.write_uint32_eq protocol_version
              ((w ++ server_byte server_hello ∷ [])
                ++ tag_bytes io laws protocol_version_field_number var_int)
              (omega arith),
          descriptions_lem infos _ h,
          laws.write_byte_eq (code end_tag) _,
          laws.flush_eq _,
        )
        (simp append_assoc)

module _ (io : Io) (laws : Laws io) where
  -- An error: its type byte, its pieces as chunks, and an empty chunk.
  abbrev pub error_bytes : List Bytes → Bytes
  error_bytes pieces = server_byte error_reply ∷ (chunk_bytes io laws pieces ++ 0 ∷ [])

  pub handle_error_lem :
      (pieces : List Bytes) (w : Sink)
      → All IsChunk pieces
      → handle_error io pieces w ≡ ok (w ++ error_bytes pieces)
  unfolding handle_error
  handle_error_lem pieces w h =
      rw
        (
          laws.write_byte_eq (server_byte error_reply) w,
          write_chunked_lem io laws pieces (w ++ server_byte error_reply ∷ []) h,
          laws.flush_eq
              ((w ++ server_byte error_reply ∷ []) ++ (chunk_bytes io laws pieces ++ 0 ∷ [])),
        )
        (ap ok
          (append_assoc w (server_byte error_reply ∷ []) (chunk_bytes io laws pieces ++ 0 ∷ [])))

  pub goodbye_lem : (w : Sink) → write_goodbye io w ≡ ok (w ++ server_byte server_goodbye ∷ [])
  unfolding write_goodbye
  goodbye_lem w =
      rw
        (
          laws.write_byte_eq (server_byte server_goodbye) w,
          laws.flush_eq (w ++ server_byte server_goodbye ∷ []),
        )
        refl
