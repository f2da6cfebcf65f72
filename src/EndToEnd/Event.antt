-- ===== src/EndToEnd/Event.antt =====
-- A subscription to a method, and the events that the server sends for it.
use serialrpc.Base.{
  ℕ, ◌+◌, ◌%◌, ◌^◌, ◌<◌, ◌≤◌, ◌≡◌, refl, sym, ap, ◌∙◌, ==_refl, arith, Bool, true, List, [], ◌∷◌,
  ◌++◌, append_assoc, append-nil, some, get_elem?, pos,
}
use serialrpc.Io.{Io, Bytes, Source, Sink, Result, Error, ok}
use serialrpc.Io.Laws.{Laws}
use serialrpc.Rpc.{ServiceInfo, event, server_byte}
use serialrpc.Encoding.Marshal.{Fields}
use serialrpc.Encoding.Marshal.Encode.{FieldsInRange, depth_fields, encode}
use serialrpc.Encoding.Marshal.Refines.{marshal-encode}
use serialrpc.Encoding.Schema.{Schema}
use serialrpc.Encoding.Unmarshal.Conforms.{received_fields}
use serialrpc.Server.Dispatch.{Service}
use serialrpc.Server.Dispatch.Table.{endpoints}
use serialrpc.Server.Messages.Laws.{send_event_lem}
use serialrpc.Server.Accept.Session.{Request, Answers, request_bytes}
use serialrpc.Server.Generated.{
  Streaming, Method, streaming, Base, Place, set_id, send_method, service_base,
}
use serialrpc.Server.Generated.Answering.{
  Travels, unmarshal-Travels, subscription_bytes, CanFail, subscribed, method_inside,
  Answers-subscription,
}
use serialrpc.Client.State.{Callback, Client, Unit', check_running}
use serialrpc.Client.Calls.{subscribe, subscribe_body, plain}
use serialrpc.Client.Calls.Sending.{sent_by, sent_lem}
use serialrpc.Client.Input.{
  goes_on, message_type, find_callback, settle, register_event_callback, handle_event, read_event,
  handle_message, handle_byte, input_from, input_step,
}
use serialrpc.Client.Stubs.{
  Signature, ServiceStub, endpoint_number, set_callback, read_message, handle_method, event_handler,
  subscribe_request, subscribe_method,
}
use serialrpc.EndToEnd.Call.{endpoint_number_lem}

module _ (io : Io) (laws : Laws io) where
  subscribe_body_lem :
      (big : Bool) (req : Fields) (w : Sink)
      → FieldsInRange req
      → depth_fields req ≤ 128
      → subscribe_body io big req w ≡ ok (w ++ 1 ∷ encode io laws req)
  unfolding subscribe_body
  subscribe_body_lem big req w fits deep =
      rw (laws.write_byte_eq 1 w, marshal-encode io big laws req (w ++ 1 ∷ []) fits deep)
        (ap ok (append_assoc w (1 ∷ []) (encode io laws req)))

  -- The bytes of an event of the endpoint, counted from 1.
  abbrev pub event_bytes : ℕ → Fields → Bytes
  event_bytes number msg = server_byte event ∷ (laws.uvarint number ++ encode io laws msg)

  -- The handler that a stub registers calls the stub's callback with what is received.
  handle_method_lem :
      (fuel id : ℕ) (method : Signature) (schema : Schema) (s : ServiceStub) (msg : Fields)
      (rest : Source)
      → method.result ≡ some schema
      → Travels schema fuel msg
      → handle_method io fuel id method (set_callback id true s) (encode io laws msg ++ rest)
        ≡ ok (some (received_fields msg), rest)
  unfolding handle_method read_message set_callback
  handle_method_lem fuel id method schema s msg rest has travels =
      rw (has, read_message, unmarshal-Travels io laws travels rest, ==_refl id) refl

module _ (io : Io) (laws : Laws io) (stringify : Error → Bytes) (big : Bool) (fuel : ℕ) where
  input_step-event :
      (c : Client Fields) (number : ℕ) (cb : Callback) (msg : Fields) (rest : Source)
      → number < 2 ^ 32
      → find_callback number c.event_callbacks ≡ some cb
      → cb (encode io laws msg ++ rest) ≡ ok rest
      → input_step io stringify fuel (record c { source = event_bytes io laws number msg ++ rest })
        ≡ (record c { source = rest }, goes_on)
  unfolding input_step input_from handle_byte handle_message message_type read_event handle_event
      settle
  input_step-event c number cb msg rest lt found called =
      rw
        (
          append_assoc (laws.uvarint number) (encode io laws msg) rest,
          laws.read_byte_eq (server_byte event)
              (laws.uvarint number ++ (encode io laws msg ++ rest)),
        )
        (rw
          (
            laws.read_uint32_eq number (encode io laws msg ++ rest) lt,
            read_event,
            found,
            handle_event,
            called,
          )
          refl)

  sent_request :
      (method : Signature) (p k number : ℕ) (req : Fields) (s : ServiceStub) (c : Client Fields)
      → method.has_parameter ≡ true
      → check_running c ≡ ok tt
      → number < 2 ^ 32
      → FieldsInRange req
      → depth_fields req ≤ 128
      → subscribe_request io stringify big fuel p k method number req s c ≡ (
        sent_by io stringify
            (laws.uvarint number ++ 1 ∷ encode io laws req)
            p
            (plain io stringify big fuel number p s.stub.info.name method.name)
            c,
        ok tt,
      )
  unfolding subscribe_request subscribe
  sent_request method p k number req s c has run lt fits deep = rw (has) (
      sent_lem io stringify laws (subscribe_body io big req) (1 ∷ encode io laws req) fuel number p
        (plain io stringify big fuel number p s.stub.info.name method.name) c
        (λ w. subscribe_body_lem io laws big req w fits deep) run lt)

  sent_subscription :
      (method : Signature) (p k before : ℕ) (req : Fields) (s : ServiceStub) (c : Client Fields)
      → method.has_parameter ≡ true
      → s.stub.rpc_offset ≡ pos (1 + before)
      → check_running c ≡ ok tt
      → before + k + 1 < 2 ^ 32
      → FieldsInRange req
      → depth_fields req ≤ 128
      → let s' = set_callback k true s in
        subscribe_method io stringify big fuel p k method req s c ≡ (
          s',
          (
            sent_by io stringify
                (laws.uvarint (before + k + 1) ++ 1 ∷ encode io laws req)
                p
                (plain io stringify big fuel (before + k + 1) p s.stub.info.name method.name)
                (register_event_callback (before + k + 1) (event_handler io fuel k method s') c),
            ok tt,
          ),
        )
  unfolding subscribe_method register_event_callback check_running
  sent_subscription method p k before req s c has offset run lt fits deep =
      let s' = set_callback k true s in
      let registered = λ (n : ℕ). register_event_callback n (event_handler io fuel k method s') c in
      let number : endpoint_number k s.stub.rpc_offset ≡ before + k + 1 =
        ap (endpoint_number k) offset ∙ endpoint_number_lem k before lt in
      ap
        (λ (n : ℕ).
          (s', subscribe_request io stringify big fuel p k method n req s' (registered n)))
        number
      ∙ ap (λ (r : Client Fields × Result Unit'). (s', r))
          (sent_request method p k (before + k + 1) req s' (registered (before + k + 1)) has run lt
            fits deep)

  module _ {S I : Type 0} (at : Place S I) (before after : List (Service S)) (info : ServiceInfo)
      (methods : List (Method I)) (k server_fuel : ℕ) where
    -- The server that has the service.
    abbrev services : List (Service S)
    services = before ++ service_base io big server_fuel at info methods ∷ after

    -- The base's event goes out under the number of the endpoint it was subscribed at.
    send_method_lem :
        (method : Streaming I) (msg : Fields) (i : I) (n : ℕ) (s : S) (w : Sink)
        → ((b : Base I) (s : S) → at.base (at.put_base b s) ≡ b)
        → method.has_result ≡ true
        → n + 1 < 2 ^ 32
        → FieldsInRange msg
        → depth_fields msg ≤ 128
        → send_method io big method k
            (at.base (subscribed io laws big server_fuel at i k n s))
            msg
            w
          ≡ ok (w ++ event_bytes io laws (n + 1) msg)
    unfolding send_method set_id
    send_method_lem method msg i n s w stands has lt fits deep =
        let small : n % 2 ^ 32 ≡ n = omega arith in
        rw (stands, has, ==_refl k, small) (send_event_lem io big laws n msg w lt fits deep)

    -- A stub that has learned the endpoints in front of its service subscribes to method `k`, which has
    -- a parameter and a result, on a running client; the server has fewer than 2^32 - 1 endpoints and
    -- holds the base that was put last. If the parameter travels and the implementation's error, if
    -- any, is in pieces that are no empty chunks, then the request on the wire is one that the server
    -- takes, and it has noted the subscription. For a message that travels, the event that the base
    -- sends from then on has the bytes at which the client's input calls the stub's callback with what
    -- has been received of that message, reading no further and changing nothing else.
    pub subscribe_method-delivers :
        (method : Streaming I) (signature : Signature) (request_schema schema : Schema) (p : ℕ)
        (req msg : Fields) (stub : ServiceStub) (c : Client Fields) (s : S) (w : Sink)
        (rest : Source)
        → let (i, error) = method.subscribe (received_fields req) (at.base s).implementation in
          let n = endpoints before + k in
          let request : Request = record { endpoint = n; body = 1 ∷ encode io laws req } in
          let s' = subscribed io laws big server_fuel at i k n s in
          let (stub', (client, outcome)) =
            subscribe_method io stringify big fuel p k signature req stub c in
          let bytes = event_bytes io laws (n + 1) msg in
          endpoints services + 1 < 2 ^ 32
          → get_elem? methods k ≡ some (streaming method)
          → method.parameter ≡ some request_schema
          → method.has_result ≡ true
          → signature.has_parameter ≡ true
          → signature.result ≡ some schema
          → stub.stub.rpc_offset ≡ pos (1 + endpoints before)
          → ((b : Base I) (s : S) → at.base (at.put_base b s) ≡ b)
          → check_running c ≡ ok tt
          → Travels request_schema server_fuel req
          → CanFail io laws error
          → Travels schema fuel msg
          → (outcome ≡ ok tt)
            × (client.sink ≡ c.sink ++ request_bytes io laws services (request ∷ []))
            × Answers io laws services s request s' (subscription_bytes io laws error)
            × (send_method io big method k (at.base s') msg w ≡ ok (w ++ bytes))
            × (input_step io stringify fuel (record client { source = bytes ++ rest })
                ≡ (record client { source = rest }, goes_on))
            × (handle_method io fuel k signature stub' (encode io laws msg ++ rest)
                ≡ ok (some (received_fields msg), rest))
    unfolding event_handler register_event_callback find_callback
    subscribe_method-delivers method signature request_schema schema p req msg stub c s w rest small
          e has result has' result' offset stands run travels can message =
        let inside =
          method_inside io laws big server_fuel at before after info methods k (streaming method)
            e in
        let number : endpoints before + k + 1 < 2 ^ 32 = omega arith in
        let delivered =
          handle_method_lem io laws fuel k signature schema stub msg rest result' message in
        let handler = event_handler io fuel k signature (set_callback k true stub) in
        let client =
          sent_by io stringify (laws.uvarint (endpoints before + k + 1) ++ 1 ∷ encode io laws req) p
            (plain io stringify big fuel (endpoints before + k + 1) p stub.stub.info.name
              signature.name)
            (register_event_callback (endpoints before + k + 1) handler c) in
        rw
          (sent_subscription signature p k (endpoints before) req stub c has' offset run number
            travels.in_range travels.shallow)
          (
            refl,
            ap (λ (b : Bytes). c.sink ++ (laws.uvarint (endpoints before + k + 1) ++ b))
                (sym (append-nil (1 ∷ encode io laws req))),
            Answers-subscription io laws big server_fuel at before after info methods k method
                request_schema req s (omega arith) e has travels can,
            send_method_lem method msg _ (endpoints before + k) s w stands result number
                message.in_range message.shallow,
            input_step-event client (endpoints before + k + 1) handler msg rest number
                (rw (==_refl (endpoints before + k + 1)) refl) (rw (delivered) refl),
            delivered,
          )
