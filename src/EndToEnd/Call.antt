-- ===== src/EndToEnd/Call.antt =====
-- A call of a method: the request, the answer, and what the caller is told.
use serialrpc.Base.{
  ℕ, ◌+◌, ◌^◌, ◌<◌, ◌≤◌, ◌≡◌, refl, sym, ap, ==_refl, arith, Bool, true, false, List, [], ◌∷◌, ◌++◌,
  append-nil, length, Option, some, none, get_elem?, All, pos,
}
use serialrpc.Io.{Io, Bytes, Source, Result, Error, ok, err}
use serialrpc.Io.Laws.{Laws}
use serialrpc.Rpc.{ServiceInfo}
use serialrpc.Encoding.Marshal.{Fields}
use serialrpc.Encoding.Marshal.Encode.{FieldsInRange, depth_fields, encode}
use serialrpc.Encoding.Marshal.Refines.{marshal-encode}
use serialrpc.Encoding.Schema.{Schema, default_fields}
use serialrpc.Encoding.Unmarshal.{unmarshal}
use serialrpc.Encoding.Unmarshal.Conforms.{received_fields}
use serialrpc.Encoding.Chunked.{max_string_size}
use serialrpc.Encoding.Chunked.Laws.{IsChunk, joined}
use serialrpc.Server.Dispatch.{Service}
use serialrpc.Server.Dispatch.Table.{endpoints}
use serialrpc.Server.Messages.Laws.{error_bytes, handle_error_lem}
use serialrpc.Server.Accept.Session.{Request, Answers, request_bytes}
use serialrpc.Server.Generated.{Answer, returned, failed, Unary, Method, unary, Place, service_base}
use serialrpc.Server.Generated.Answering.{
  Travels, unmarshal-Travels, answer_bytes, CanAnswer, ran, method_inside, Answers-unary,
}
use serialrpc.Client.Queue.{CallData, push_call_data, set_next, set_head}
use serialrpc.Client.Queue.Order.{Holds}
use serialrpc.Client.State.{Client, check_running}
use serialrpc.Client.Calls.{call, call_body, call_data, place, result_of}
use serialrpc.Client.Calls.Sending.{sent_by, sent_lem, held_after}
use serialrpc.Client.Input.{goes_on, read_reply, input_step}
use serialrpc.Client.Input.Replies.{input_step-reply, handle_reply_lem, input_step-handle_error}
use serialrpc.Client.Stubs.{Signature, ServiceStub, endpoint_number, call_method}

-- What a caller is told of a method's answer.
abbrev pub outcome : Answer → Result (Option Fields)
outcome (returned resp) = ok (some (received_fields resp))
outcome (failed pieces) = err (Error.error_reply (joined pieces))

-- The answers that reach a caller, on this fuel: a message that travels, or an error in pieces that
-- are no empty chunks and have 16 KiB together at most.
abbrev pub Arrives : Schema → ℕ → Answer → Type 0
Arrives schema fuel (returned resp) = Travels schema fuel resp
Arrives schema fuel (failed pieces) =
    All IsChunk pieces × (length (joined pieces) ≤ max_string_size) × (length pieces < fuel)

module _ (io : Io) (laws : Laws io) where
  Arrives-can :
      (schema : Schema) (fuel : ℕ) (answer : Answer)
      → Arrives schema fuel answer
      → CanAnswer io laws answer
  Arrives-can schema fuel (returned resp) travels = (travels.in_range, travels.shallow)
  Arrives-can schema fuel (failed pieces) (chunks, short, enough) = chunks

-- The number that a stub of a connected service writes.
pub endpoint_number_lem :
    (k before : ℕ) → before + k + 1 < 2 ^ 32 → endpoint_number k (pos (1 + before)) ≡ before + k + 1
unfolding endpoint_number
endpoint_number_lem k before lt = omega arith

module _ (io : Io) (laws : Laws io) (stringify : Error → Bytes) (big : Bool) (fuel : ℕ) where
  -- The cell of a caller when its request is on the wire.
  abbrev waiting : Schema → Bytes → Bytes → CallData Fields
  waiting schema service name =
      call_data service name (some (default_fields schema)) (some (unmarshal io fuel schema)) none

  -- The first of the calls that wait, made by a stub, has the outcome of the answer.
  answer-Arrives :
      (schema : Schema) (answer : Answer) (c : Client Fields) (p : ℕ) (xs : List ℕ) (rest : Source)
      → Arrives schema fuel answer
      → Holds c.calls (p ∷ xs)
      → (c.calls.cell p).has_error ≡ false
      → (c.calls.cell p).unmarshal ≡ some (unmarshal io fuel schema)
      → c.source ≡ answer_bytes io laws answer ++ rest
      → let after = input_step io stringify fuel c in
        (after.1 ≡ goes_on)
        × (after.0.source ≡ rest)
        × (result_of (after.0.calls.cell p) ≡ some (outcome answer))
        × Holds after.0.calls xs
  unfolding read_reply
  answer-Arrives schema (returned resp) c p xs rest travels held clean reads e =
      let c' : Client Fields = record c { source = encode io laws resp ++ rest } in
      let read : read_reply (c'.calls.cell p) c'.source ≡ ok (some (received_fields resp), rest) =
        rw (reads, unmarshal-Travels io laws travels rest) refl in
      let (goes, left, told, others, same) =
        handle_reply_lem io stringify fuel c' p xs (some (received_fields resp)) rest held clean
          read in
      rw (input_step-reply io stringify fuel laws c (encode io laws resp ++ rest) e)
        (goes, left, told, others)
  answer-Arrives schema (failed pieces) c p xs rest (chunks, short, enough) held clean reads e =
      input_step-handle_error io stringify fuel laws pieces c p xs rest (error_bytes io laws pieces)
        chunks short enough held (handle_error_lem io laws pieces [] chunks) e

  -- Behind no other call, the caller's cell is as it was placed.
  pub only_cell :
      (p : ℕ) (d : CallData Fields) (c : Client Fields)
      → Holds c.calls []
      → (push_call_data p (place io stringify p d c).calls).cell p ≡ d
  unfolding place push_call_data set_next set_head
  only_cell p d c held = rw (held.last) (rw (==_refl p) refl)

  sent_call :
      (schema : Schema) (method : Signature) (p k before : ℕ) (req : Fields) (s : ServiceStub)
      (c : Client Fields)
      → method.has_parameter ≡ true
      → method.result ≡ some schema
      → s.stub.rpc_offset ≡ pos (1 + before)
      → check_running c ≡ ok tt
      → before + k + 1 < 2 ^ 32
      → FieldsInRange req
      → depth_fields req ≤ 128
      → call_method io stringify big fuel p k method req s c ≡ (
        sent_by io stringify
            (laws.uvarint (before + k + 1) ++ encode io laws req)
            p
            (waiting schema s.stub.info.name method.name)
            c,
        ok tt,
      )
  unfolding call_method call call_body
  sent_call schema method p k before req s c has result offset run lt fits deep =
      rw (result, has, offset, endpoint_number_lem k before lt)
        (sent_lem io stringify laws (call_body io big req) (encode io laws req) fuel
          (before + k + 1) p (waiting schema s.stub.info.name method.name) c
          (λ w. marshal-encode io big laws req w fits deep) run lt)

  module _ {S I : Type 0} (at : Place S I) (before after : List (Service S)) (info : ServiceInfo)
      (methods : List (Method I)) (k server_fuel : ℕ) where
    -- The server that has the service.
    abbrev services : List (Service S)
    services = before ++ service_base io big server_fuel at info methods ∷ after

    -- A stub that has learned the endpoints in front of its service calls method `k`, which has a
    -- parameter and a result, on a running client with no other call, and the server has fewer than
    -- 2^32 - 1 endpoints. If the parameter travels and the answer arrives, then the request on the wire
    -- is one that the server takes, it runs the method on what it has received, and the client's input
    -- on the bytes that the server answers tells the caller the method's result, or its error.
    pub call_method-answered :
        (method : Unary I) (signature : Signature) (request_schema schema : Schema) (p : ℕ)
        (req : Fields) (stub : ServiceStub) (c : Client Fields) (s : S) (rest : Source)
        → let (i, answer) = method.run (received_fields req) (at.base s).implementation in
          let request : Request = record {
            endpoint = endpoints before + k;
            body = encode io laws req;
          } in
          let sent = call_method io stringify big fuel p k signature req stub c in
          let done =
            input_step io stringify fuel
              (record sent.0 { source = answer_bytes io laws answer ++ rest }) in
          endpoints services + 1 < 2 ^ 32
          → get_elem? methods k ≡ some (unary method)
          → method.parameter ≡ some request_schema
          → method.has_result ≡ true
          → signature.has_parameter ≡ true
          → signature.result ≡ some schema
          → stub.stub.rpc_offset ≡ pos (1 + endpoints before)
          → check_running c ≡ ok tt
          → Holds c.calls []
          → Travels request_schema server_fuel req
          → Arrives schema fuel answer
          → (sent.1 ≡ ok tt)
            × (sent.0.sink ≡ c.sink ++ request_bytes io laws services (request ∷ []))
            × Answers io laws services s request
                (ran io laws big server_fuel at i s)
                (answer_bytes io laws answer)
            × (done.1 ≡ goes_on)
            × (done.0.source ≡ rest)
            × (result_of (done.0.calls.cell p) ≡ some (outcome answer))
            × Holds done.0.calls []
    unfolding call_data
    call_method-answered method signature request_schema schema p req stub c s rest small e has
          result has' result' offset run held travels arrives =
        let inside =
          method_inside io laws big server_fuel at before after info methods k (unary method) e in
        let number : endpoints before + k + 1 < 2 ^ 32 = omega arith in
        let d = waiting schema stub.stub.info.name signature.name in
        let placed = only_cell p d c held in
        let (goes, left, told, others) =
          answer-Arrives schema _
            (record (sent_by io stringify
              (laws.uvarint (endpoints before + k + 1) ++ encode io laws req) p d c) {
                source =
                    answer_bytes io laws
                      (method.run (received_fields req) (at.base s).implementation).1
                    ++ rest;
              })
            p [] rest arrives (held_after io stringify p d c [] held tt refl)
            (ap (λ (d : CallData Fields). d.has_error) placed)
            (ap (λ (d : CallData Fields). d.unmarshal) placed) refl in
        rw
          (sent_call schema signature p k (endpoints before) req stub c has' result' offset run
            number travels.in_range travels.shallow)
          (
            refl,
            ap (λ (b : Bytes). c.sink ++ (laws.uvarint (endpoints before + k + 1) ++ b))
                (sym (append-nil (encode io laws req))),
            Answers-unary io laws big server_fuel at before after info methods k method
                request_schema req s (omega arith) e has result travels
                (Arrives-can io laws schema fuel _ arrives),
            goes,
            left,
            told,
            others,
          )
