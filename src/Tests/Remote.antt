-- ===== src/Tests/Remote.antt =====
-- A service of a method and a stream, behind another service, on a server and on a client.
use serialrpc.Base.{
  ℕ, suc, ◌+◌, ◌^◌, ◌<◌, ◌≡◌, refl, true, false, some, none, List, [], ◌∷◌, ◌++◌, pos, arith,
  replicate,
}
use serialrpc.Io.{Bytes, Error, ok}
use serialrpc.Io.Leb128.{leb128, leb128_laws}
use serialrpc.Rpc.{ServiceInfo}
use serialrpc.Encoding.Marshal.{uint32, Fields, nil, field}
use serialrpc.Encoding.Marshal.Encode.{FieldsInRange, depth_fields, encode}
use serialrpc.Encoding.Schema.{uint32_type, Schema, end, entry, lookup}
use serialrpc.Encoding.Unmarshal.Conforms.{
  entry_conforms, end_conforms, uint32_has, received_fields,
}
use serialrpc.Encoding.Unmarshal.Structs.{Placed, IsSound, cost_fields}
use serialrpc.Server.Dispatch.{Service, no_handler}
use serialrpc.Server.Dispatch.Table.{endpoints}
use serialrpc.Server.Accept.Session.{Request, Answers, request_bytes}
use serialrpc.Server.Generated.{
  returned, Unary, Streaming, Method, unary, streaming, Base, Place, send_method, service_base,
}
use serialrpc.Server.Generated.Answering.{
  Travels, answer_bytes, subscription_bytes, ran, subscribed,
}
use serialrpc.Client.Queue.{CallData}
use serialrpc.Client.Queue.Order.{Holds}
use serialrpc.Client.State.{running, Client, check_running, check_state}
use serialrpc.Client.Calls.{result_of}
use serialrpc.Client.Input.{goes_on, input_step}
use serialrpc.Client.Stubs.{Signature, ServiceStub, handle_method, call_method, subscribe_method}
use serialrpc.EndToEnd.Call.{outcome, call_method-answered}
use serialrpc.EndToEnd.Event.{event_bytes, subscribe_method-delivers}

-- Messages with one number.
abbrev schema : Schema
schema = entry 1 uint32_type end

abbrev number : ℕ → Fields
number n = field 1 (uint32 n) nil

four-Travels : Travels schema 8 (number 4)
unfolding FieldsInRange depth_fields Placed lookup IsSound cost_fields
four-Travels = record {
  conforms = entry_conforms uint32_has end_conforms;
  in_range = (omega arith, tt);
  shallow = omega arith;
  placed = (refl, refl, omega arith, tt);
  sound = (tt, tt);
  enough_fuel = omega arith;
}

-- The implementation counts its calls.
abbrev method : Unary ℕ
method = record {
  parameter = some schema;
  has_result = true;
  run = λ msg i. (suc i, returned (number 4));
}

abbrev stream : Streaming ℕ
stream = record {
  parameter = some schema;
  has_result = true;
  subscribe = λ msg i. (suc i, none);
  unsubscribe = λ i. (i, none);
}

abbrev methods : List (Method ℕ)
methods = unary method ∷ streaming stream ∷ []

abbrev at : Place (Base ℕ) ℕ
at = record { base = λ s. s; put_base = λ b s. b }

abbrev info : ServiceInfo
info = record {
  name = 0x73 ∷ [];
  package_name = [];
  uuid = replicate 16 1;
  major_version = pos 1;
  minor_version = pos 0;
  num_endpoints = 2;
}

-- In front stands a service of one endpoint.
abbrev before : List (Service (Base ℕ))
before = record { info = info; dispatch_table = no_handler ∷ []; unsubscribe = λ s. s } ∷ []

abbrev services : List (Service (Base ℕ))
services = before ++ service_base leb128 false 8 at info methods ∷ []

few : endpoints services + 1 < 2 ^ 32
unfolding service_base
few = omega arith

abbrev state : Base ℕ
state = record { implementation = 0; event_conn = false; ids = λ k. 0 }

abbrev client : Client Fields
client = record {
  name = [];
  has_conn = true;
  conn_open = true;
  source = [];
  sink = [];
  state = running;
  error = none;
  calls = record { cell = cell; head = none; tail = none };
  event_callbacks = [];
}
  where
    cell : ℕ → CallData Fields
    cell p = record {
      next = none;
      resp = none;
      error_text = [];
      has_error = false;
      service_name = [];
      procedure_name = [];
      unmarshal = none;
      unmarshal_raw = none;
      response_received = false;
    }

client_runs : check_running client ≡ ok tt
unfolding check_running check_state
client_runs = refl

nobody_waits : Holds client.calls []
nobody_waits = record { chain = refl; last = refl; distinct = tt }

abbrev stub : ServiceStub
stub = record {
  stub = record { rpc_offset = pos 2; connected = true; info = info };
  has_callback = λ k. false;
}

abbrev signature : Signature
signature = record { name = 0x6d ∷ []; has_parameter = true; result = some schema }

abbrev stringify : Error → Bytes
stringify e = 0x21 ∷ []

call_method-answered_example :
    let request : Request = record { endpoint = 1; body = encode leb128 leb128_laws (number 4) } in
    let sent = call_method leb128 stringify false 8 7 0 signature (number 4) stub client in
    let done = input_step leb128 stringify 8 (record sent.0 {
      source = answer_bytes leb128 leb128_laws (returned (number 4)) ++ 9 ∷ [];
    }) in
    (sent.1 ≡ ok tt)
    × (sent.0.sink ≡ [] ++ request_bytes leb128 leb128_laws services (request ∷ []))
    × Answers leb128 leb128_laws services state request
        (ran leb128 leb128_laws false 8 at 1 state)
        (answer_bytes leb128 leb128_laws (returned (number 4)))
    × (done.1 ≡ goes_on)
    × (done.0.source ≡ 9 ∷ [])
    × (result_of (done.0.calls.cell 7) ≡ some (outcome (returned (number 4))))
    × Holds done.0.calls []
call_method-answered_example =
    call_method-answered leb128 leb128_laws stringify false 8 at before [] info methods 0 8 method
      signature schema schema 7 (number 4) stub client state (9 ∷ []) few refl refl refl refl refl
      refl client_runs nobody_waits four-Travels four-Travels

subscribe_method-delivers_example :
    let request : Request = record {
      endpoint = 2;
      body = 1 ∷ encode leb128 leb128_laws (number 4);
    } in
    let s' = subscribed leb128 leb128_laws false 8 at 1 1 2 state in
    let (stub', (client, outcome)) =
      subscribe_method leb128 stringify false 8 7 1 signature (number 4) stub client in
    let bytes = event_bytes leb128 leb128_laws 3 (number 4) in
    (outcome ≡ ok tt)
    × (client.sink ≡ [] ++ request_bytes leb128 leb128_laws services (request ∷ []))
    × Answers leb128 leb128_laws services state request s'
        (subscription_bytes leb128 leb128_laws none)
    × (send_method leb128 false stream 1 (at.base s') (number 4) [] ≡ ok ([] ++ bytes))
    × (input_step leb128 stringify 8 (record client { source = bytes ++ 9 ∷ [] })
        ≡ (record client { source = 9 ∷ [] }, goes_on))
    × (handle_method leb128 8 1 signature stub' (encode leb128 leb128_laws (number 4) ++ 9 ∷ [])
        ≡ ok (some (received_fields (number 4)), 9 ∷ []))
subscribe_method-delivers_example =
    subscribe_method-delivers leb128 leb128_laws stringify false 8 at before [] info methods 1 8
      stream signature schema schema 7 (number 4) (number 4) stub client state [] (9 ∷ []) few refl
      refl refl refl refl refl (λ b s. refl) client_runs four-Travels tt four-Travels
