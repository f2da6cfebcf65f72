-- ===== src/Tests/Serving.antt =====
-- A server with two services of one method each, and a client with one stub.
use serialrpc.Base.{
  ℕ, ◌+◌, ◌≤◌, ◌≡◌, refl, true, false, some, List, [], ◌∷◌, ◌++◌, pos, arith, All, replicate,
  get_elem?, map, length, leb, if◌then◌else◌,
}
use serialrpc.Io.{Bytes, ok, err, data_too_big}
use serialrpc.Io.Leb128.{leb128, leb128_laws}
use serialrpc.Rpc.{
  ServiceInfo, client_hello, client_byte, event, server_hello, server_goodbye, server_byte,
}
use serialrpc.Encoding.Marshal.{uint32, Fields, nil, field}
use serialrpc.Encoding.Marshal.Encode.{FieldsInRange, depth_fields, encode}
use serialrpc.Server.Dispatch.{Conn, DispatchFunc, Service, handle_request, unsubscribe_all}
use serialrpc.Server.Dispatch.Table.{endpoints, handle_request_dispatches}
use serialrpc.Server.Messages.{send_event, write_server_hello}
use serialrpc.Server.Messages.Laws.{InfoInRange, hello_fields, send_event_lem, server_hello_lem}
use serialrpc.Server.Accept.{serve_requests, accept}
use serialrpc.Server.Accept.Session.{
  Request, Session, idle, next, Answers, request_bytes, accept-Session, serve_requests_fails,
}
use serialrpc.Server.Discovery.{TypeInfo, ServiceDescription, message_kind, type_id}
use serialrpc.Server.Discovery.Answer.{type_id_lem}
use serialrpc.Client.Hello.{Stub, same_bytes, read_services_def}
use serialrpc.Client.Hello.Learned.{
  is_for, result, first_mismatch, learned, read_services_def-hello,
}
use serialrpc.Client.Hello.Offsets.{read_services_def-connects}

-- A service named by one byte, with one endpoint; its uuid is the byte 16 times.
abbrev info : ℕ → ServiceInfo
info b = record {
  name = b ∷ [];
  package_name = [];
  uuid = replicate 16 b;
  major_version = pos 1;
  minor_version = pos 2;
  num_endpoints = 1;
}

info-InfoInRange : (b : ℕ) → InfoInRange (info b)
info-InfoInRange b = record {
  uuid_length = refl;
  major_fits = omega arith;
  minor_fits = omega arith;
  endpoints_fit = omega arith;
}

-- Counts its calls, and answers one byte.
abbrev count : DispatchFunc ℕ
count rpc_id s c = (s + 1, ok (record { source = c.source; sink = c.sink ++ 0xF0 ∷ [] }))

abbrev fails : DispatchFunc ℕ
fails rpc_id s c = (s + 1, err data_too_big)

abbrev service : ℕ → DispatchFunc ℕ → Service ℕ
service b handler = record { info = info b; dispatch_table = handler ∷ []; unsubscribe = λ s. s }

abbrev services : List (Service ℕ)
services = service 1 count ∷ service 2 fails ∷ []

abbrev conn : Conn
conn = record { source = 9 ∷ []; sink = [] }

abbrev nothing : ℕ
nothing = 0

handle_request_dispatches_example : handle_request leb128 services 1 0 conn ≡ fails 1 0 conn
handle_request_dispatches_example =
    handle_request_dispatches leb128 (service 1 count ∷ []) [] (service 2 fails) 0 fails 0 conn
      (omega arith) refl

abbrev answer : Fields
answer = field 1 (uint32 4) nil

answer-FieldsInRange : FieldsInRange answer
unfolding FieldsInRange
answer-FieldsInRange = (omega arith, tt)

answer_depth : depth_fields answer ≤ 128
unfolding depth_fields
answer_depth = omega arith

send_event_lem_example :
    send_event leb128 false 6 answer []
    ≡ ok ([] ++ server_byte event ∷ (leb128_laws.uvarint 7 ++ encode leb128 leb128_laws answer))
send_event_lem_example =
    send_event_lem leb128 false leb128_laws 6 answer [] (omega arith) answer-FieldsInRange
      answer_depth

abbrev infos : List ServiceInfo
infos = info 1 ∷ info 2 ∷ []

infos-InfoInRange : All InfoInRange infos
infos-InfoInRange = (info-InfoInRange 1, (info-InfoInRange 2, tt))

server_hello_lem_example :
    write_server_hello leb128 false infos []
    ≡ ok ([] ++ server_byte server_hello ∷ hello_fields leb128 false leb128_laws infos)
server_hello_lem_example = server_hello_lem leb128 false leb128_laws infos [] infos-InfoInRange

-- One request, for the first endpoint.
abbrev requests : List Request
requests = record { endpoint = 0; body = [] } ∷ []

count-Answers :
    Answers leb128 leb128_laws services 0 (record { endpoint = 0; body = [] }) 1 (0xF0 ∷ [])
count-Answers rest w =
    handle_request_dispatches leb128 [] (service 2 fails ∷ []) (service 1 count) 0 count 0
      (record { source = rest; sink = w }) (omega arith) refl

one_request : Session leb128 leb128_laws services 0 requests 1 (0xF0 ∷ [])
one_request = next (omega arith) count-Answers idle

accept-Session_example :
    accept leb128 false [] 2 services 0 (record {
      source =
          client_byte client_hello
          ∷ (request_bytes leb128 leb128_laws services requests
              ++ (leb128_laws.uvarint 0 ++ 9 ∷ []));
      sink = [];
    })
    ≡ (
      unsubscribe_all services 1,
      ok (record {
        source = 9 ∷ [];
        sink =
            []
            ++ (server_byte server_hello
                ∷ (hello_fields leb128 false leb128_laws infos
                    ++ (0xF0 ∷ [] ++ server_byte server_goodbye ∷ [])));
      }),
    )
accept-Session_example =
    accept-Session leb128 leb128_laws services one_request false [] 2 (9 ∷ []) [] infos-InfoInRange
      (omega arith)

-- The first endpoint answers, and the second fails.
serve_requests_fails_example :
    serve_requests leb128 2 services 0 (record {
      source =
          request_bytes leb128 leb128_laws services requests
          ++ (leb128_laws.uvarint (endpoints (service 1 count ∷ []) + 0 + 1) ++ 9 ∷ []);
      sink = [];
    })
    ≡ (
      unsubscribe_all [] ((service 2 fails).unsubscribe (unsubscribe_all (service 1 count ∷ []) 2)),
      err data_too_big,
    )
serve_requests_fails_example =
    serve_requests_fails leb128 leb128_laws (service 1 count ∷ []) [] (service 2 fails) one_request
      2 0 fails 2 (9 ∷ []) [] data_too_big (omega arith) (omega arith) refl refl

abbrev stub : Stub
stub = record { rpc_offset = pos 0; connected = false; info = info 2 }

-- The stub is for the second service.
for_second : is_for (info 2) stub ≡ true
unfolding same_bytes
for_second = refl

not_for_first : is_for (info 1) stub ≡ false
unfolding same_bytes
not_for_first = refl

read_services_def-hello_example :
    read_services_def leb128 14 (stub ∷ []) (hello_fields leb128 false leb128_laws infos ++ 9 ∷ [])
    ≡ result (first_mismatch infos (stub ∷ [])) (map (learned 1 infos) (stub ∷ []), 9 ∷ [])
read_services_def-hello_example =
    read_services_def-hello leb128 leb128_laws false infos 14 (stub ∷ []) (9 ∷ []) infos-InfoInRange
      (omega arith) (omega arith) (tt, tt)

read_services_def-connects_example :
    read_services_def leb128 14 (stub ∷ []) (hello_fields leb128 false leb128_laws infos ++ 9 ∷ [])
    ≡ ok (record stub { connected = true; rpc_offset = pos 2 } ∷ [], 9 ∷ [])
read_services_def-connects_example =
    read_services_def-connects leb128 leb128_laws false (info 1 ∷ []) [] (info 2) 14 stub (9 ∷ [])
      infos-InfoInRange (omega arith) (omega arith) (not_for_first, tt) tt for_second refl refl

abbrev some_type : TypeInfo
some_type = record { kind = message_kind; name = 3 ∷ []; fields = []; enum_values = [] }

abbrev description : ServiceDescription
description = record { info = info 1; methods = []; types = (70, some_type) ∷ (71, some_type) ∷ [] }

-- Keeps what it holds, if the rest does not fit.
abbrev add_within : ℕ → Bytes → Bytes → Bytes
add_within capacity a b = if leb (length a + length b) capacity then a ++ b else a

type_id_lem_example :
    (j : ℕ) × (t' : TypeInfo) × (type_id description 71 ≡ j + 1)
    × (get_elem? description.types j ≡ some (71, t'))
type_id_lem_example = type_id_lem description 1 71 some_type refl (omega arith)
