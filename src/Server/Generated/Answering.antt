-- ===== src/Server/Generated/Answering.antt =====
-- What the dispatch functions of a generated base answer.
use serialrpc.Base.{
  ℕ, zero, suc, ◌+◌, ◌%◌, ◌^◌, ◌<◌, ◌≤◌, ◌≡◌, refl, arith, Bool, true, List, [], ◌∷◌, ◌++◌, Option,
  some, none, get_elem?, All,
}
use serialrpc.Io.{Io, Bytes, Source, ok}
use serialrpc.Io.Laws.{Laws}
use serialrpc.Rpc.{ServiceInfo, reply, server_byte}
use serialrpc.Encoding.Marshal.{Fields}
use serialrpc.Encoding.Marshal.Encode.{FieldsInRange, depth_fields, encode}
use serialrpc.Encoding.Schema.{Schema}
use serialrpc.Encoding.Unmarshal.{unmarshal}
use serialrpc.Encoding.Unmarshal.Conforms.{Conforms, received_fields}
use serialrpc.Encoding.Unmarshal.Structs.{Placed, IsSound, cost_fields}
use serialrpc.Encoding.Unmarshal.RoundTrip.{unmarshal-encode}
use serialrpc.Encoding.Chunked.Laws.{IsChunk}
use serialrpc.Server.Dispatch.{Conn, Service, handle_request, send_code}
use serialrpc.Server.Dispatch.Table.{endpoints, endpoint_inside, handle_request_dispatches}
use serialrpc.Server.Messages.Laws.{send_reply_msg_lem, error_bytes, handle_error_lem}
use serialrpc.Server.Accept.Session.{Answers}
use serialrpc.Server.Generated.{
  Answer, returned, failed, Unary, Streaming, Method, unary, streaming, Place, set_id,
  read_parameter, with_sink, answer_call, answer_subscribe, dispatch_unary, subscribe_method,
  dispatch_streaming, dispatch_method, entries, service_base,
}

-- A message of a schema that `marshal` takes and that `unmarshal` reads back on this fuel: its fields
-- are those of the schema and in the range of their types, it nests at most 128 deep, the schema has
-- every number once, and those that tags can hold.
pub record Travels (schema : Schema) (fuel : ℕ) (m : Fields) : Type 0 where
  pub conforms : Conforms schema m
  pub in_range : FieldsInRange m
  pub shallow : depth_fields m ≤ 128
  pub placed : Placed schema [] schema
  pub sound : IsSound schema
  pub enough_fuel : cost_fields m + 1 ≤ fuel

module _ (io : Io) (laws : Laws io) where
  pub unmarshal-Travels :
      {schema : Schema} {m : Fields} {fuel : ℕ}
      → Travels schema fuel m
      → (rest : Source)
      → unmarshal io fuel schema (encode io laws m ++ rest) ≡ ok (received_fields m, rest)
  unmarshal-Travels {fuel = fuel} t rest =
      unmarshal-encode io laws t.conforms rest fuel t.in_range t.shallow t.placed t.sound
        t.enough_fuel

  -- The bytes that answer a call of a method with a result.
  abbrev pub answer_bytes : Answer → Bytes
  answer_bytes (returned resp) = server_byte reply ∷ encode io laws resp
  answer_bytes (failed pieces) = error_bytes io laws pieces

  -- What the implementation may answer: a message in the range of its types that nests at most 128
  -- deep, or an error in pieces that are no empty chunks.
  abbrev pub CanAnswer : Answer → Type 0
  CanAnswer (returned resp) = FieldsInRange resp × (depth_fields resp ≤ 128)
  CanAnswer (failed pieces) = All IsChunk pieces

  answer_call_lem :
      (big : Bool) (answer : Answer) (c : Conn)
      → CanAnswer answer
      → answer_call io big true answer c ≡ ok (record c { sink = c.sink ++ answer_bytes answer })
  unfolding answer_call with_sink
  answer_call_lem big (returned resp) c (fits, deep) =
      rw (send_reply_msg_lem io big laws resp c.sink fits deep) refl
  answer_call_lem big (failed pieces) c h = rw (handle_error_lem io laws pieces c.sink h) refl

  -- What answers a subscription, or the end of one.
  abbrev pub subscription_bytes : Option (List Bytes) → Bytes
  subscription_bytes none = server_byte reply ∷ []
  subscription_bytes (some pieces) = error_bytes io laws pieces

  abbrev pub CanFail : Option (List Bytes) → Type 0
  CanFail none = Unit {0}
  CanFail (some pieces) = All IsChunk pieces

  answer_subscribe_lem :
      (big : Bool) (error : Option (List Bytes)) (c : Conn)
      → CanFail error
      → answer_subscribe io big error c
        ≡ ok (record c { sink = c.sink ++ subscription_bytes error })
  unfolding answer_subscribe with_sink send_code
  answer_subscribe_lem big none c h =
      rw
        (
          laws.write_byte_eq (server_byte reply) c.sink,
          laws.flush_eq (c.sink ++ server_byte reply ∷ []),
        )
        refl
  answer_subscribe_lem big (some pieces) c h = rw (handle_error_lem io laws pieces c.sink h) refl

module _ {S I : Type 0} (io : Io) (laws : Laws io) (big : Bool) (fuel : ℕ) (at : Place S I) where
  get_elem?-entries :
      (k j : ℕ) (methods : List (Method I)) (method : Method I)
      → get_elem? methods j ≡ some method
      → get_elem? (entries io big fuel at k methods) j
        ≡ some (dispatch_method io big fuel at (k + j) method)
  unfolding entries
  get_elem?-entries k j [] method e = absurd cc
  get_elem?-entries k zero (m ∷ methods) method e =
      let same : m ≡ method = cc in let here : k + 0 ≡ k = omega arith in rw (same, here) refl
  get_elem?-entries k (suc j) (m ∷ methods) method e =
      let moved : k + suc j ≡ suc k + j = omega arith in
      rw (moved) (get_elem?-entries (suc k) j methods method e)

  pub method_inside :
      (before after : List (Service S)) (info : ServiceInfo) (methods : List (Method I)) (k : ℕ)
      (method : Method I)
      → get_elem? methods k ≡ some method
      → endpoints before + k
        < endpoints (before ++ service_base io big fuel at info methods ∷ after)
  unfolding service_base
  method_inside before after info methods k method e =
      let counted : 0 + k ≡ k = omega arith in
      endpoint_inside before after (service_base io big fuel at info methods) k
        (dispatch_method io big fuel at k method)
        (rw (counted) at (get_elem?-entries 0 k methods method e))

  -- Endpoint `endpoints before + k` of a server is method `k` of this base.
  reaches :
      (before after : List (Service S)) (info : ServiceInfo) (methods : List (Method I)) (k : ℕ)
      (method : Method I) (s : S) (c : Conn)
      → let services = before ++ service_base io big fuel at info methods ∷ after in
        endpoints services < 2 ^ 32
        → get_elem? methods k ≡ some method
        → handle_request io services (endpoints before + k) s c
          ≡ dispatch_method io big fuel at k method (endpoints before + k) s c
  unfolding service_base
  reaches before after info methods k method s c small e =
      let counted : 0 + k ≡ k = omega arith in
      handle_request_dispatches io before after (service_base io big fuel at info methods) k
        (dispatch_method io big fuel at k method) s c small
        (rw (counted) at (get_elem?-entries 0 k methods method e))

  -- The state of the server when a method has run.
  abbrev pub ran : I → S → S
  ran i s = at.put_base (record (at.base s) { implementation = i }) s

  abbrev pub subscribed : I → ℕ → ℕ → S → S
  subscribed i k rpc_id s =
      at.put_base
        (record (at.base s) {
          implementation = i;
          event_conn = true;
          ids = set_id k (rpc_id % 2 ^ 32) (at.base s).ids;
        })
        s

  -- A server of fewer than 2^32 endpoints takes the request of a method with a parameter and a result,
  -- method `k` of a generated base, when the parameter travels and the method can answer: the
  -- implementation is run on what has been received, and its result or its error is the answer.
  pub Answers-unary :
      (before after : List (Service S)) (info : ServiceInfo) (methods : List (Method I)) (k : ℕ)
      (method : Unary I) (schema : Schema) (req : Fields) (s : S)
      → let services = before ++ service_base io big fuel at info methods ∷ after in
        let (i, answer) = method.run (received_fields req) (at.base s).implementation in
        endpoints services < 2 ^ 32
        → get_elem? methods k ≡ some (unary method)
        → method.parameter ≡ some schema
        → method.has_result ≡ true
        → Travels schema fuel req
        → CanAnswer io laws answer
        → Answers io laws services s
            (record { endpoint = endpoints before + k; body = encode io laws req })
            (ran i s)
            (answer_bytes io laws answer)
  unfolding dispatch_method dispatch_unary read_parameter
  Answers-unary before after info methods k method schema req s small e has result travels can rest
        w =
      let c : Conn = record { source = encode io laws req ++ rest; sink = w } in
      rw
        (
          reaches before after info methods k (unary method) s c small e,
          has,
          unmarshal-Travels io laws travels rest,
          dispatch_unary,
          result,
          answer_call_lem io laws big
              (method.run (received_fields req) (at.base s).implementation).1
              (record { source = rest; sink = w }) can,
        )
        refl

  -- Such a server takes a subscription to method `k`, with a parameter that travels: the connection
  -- and the number of the endpoint are noted, the implementation is told, and the answer is a reply or
  -- its error.
  pub Answers-subscription :
      (before after : List (Service S)) (info : ServiceInfo) (methods : List (Method I)) (k : ℕ)
      (method : Streaming I) (schema : Schema) (req : Fields) (s : S)
      → let services = before ++ service_base io big fuel at info methods ∷ after in
        let (i, error) = method.subscribe (received_fields req) (at.base s).implementation in
        endpoints services < 2 ^ 32
        → get_elem? methods k ≡ some (streaming method)
        → method.parameter ≡ some schema
        → Travels schema fuel req
        → CanFail io laws error
        → Answers io laws services s
            (record { endpoint = endpoints before + k; body = 1 ∷ encode io laws req })
            (subscribed i k (endpoints before + k) s)
            (subscription_bytes io laws error)
  unfolding dispatch_method dispatch_streaming subscribe_method read_parameter
  Answers-subscription before after info methods k method schema req s small e has travels can rest
        w =
      let c : Conn = record { source = 1 ∷ (encode io laws req ++ rest); sink = w } in
      rw
        (
          reaches before after info methods k (streaming method) s c small e,
          laws.read_byte_eq 1 (encode io laws req ++ rest),
          has,
          unmarshal-Travels io laws travels rest,
          dispatch_streaming,
          subscribe_method,
          answer_subscribe_lem io laws big
              (method.subscribe (received_fields req) (at.base s).implementation).1
              (record { source = rest; sink = w }) can,
        )
        refl
