-- ===== src/Tests/Calls.antt =====
-- A client with two calls that wait.
use serialrpc.Base.{
  ℕ, ◌≤◌, ◌≡◌, ◌≢◌, refl, inl, ◌==◌, if◌then◌else◌, true, false, some, none, [], ◌∷◌, ◌++◌, arith,
  All,
}
use serialrpc.Io.{Bytes, Error, ok, err, connection_closed, panic_null, io_error}
use serialrpc.Io.Leb128.{leb128, leb128_laws}
use serialrpc.Encoding.Marshal.{uint32, Fields, nil, field}
use serialrpc.Encoding.Marshal.Encode.{FieldsInRange, depth_fields, encode}
use serialrpc.Client.Queue.{
  CallData, Calls, push_call_data, pop_call_data, failed_call, fail_pending_calls,
}
use serialrpc.Client.Queue.Order.{Absent, Holds, pop_call_data-cons, push_call_data_lem}
use serialrpc.Client.Queue.Failure.{waits, fail_pending_calls_lem}
use serialrpc.Client.State.{
  running, closed, failing, failed, Client, check_running, check_state, fail, wait,
}
use serialrpc.Client.State.Lifecycle.{
  rank, Reaches, here, then_step, call_fails, Reaches-rank, Reaches-dead,
}
use serialrpc.Client.Calls.{send_request, call_body, void_body, result_of}
use serialrpc.Client.Calls.Sending.{wait-send_request-closed, send_request_sent}
use serialrpc.Client.Input.{
  goes_on, ends, blocked, tell, resume, read_reply, handle_reply, input_step,
}
use serialrpc.Client.Input.Replies.{
  handle_reply_lem, handle_reply-undecoded, input_step-handle_error,
}
use serialrpc.Server.Messages.{handle_error}
use serialrpc.Server.Messages.Laws.{handle_error_lem}

abbrev cell : ℕ → CallData ℕ
cell p = record {
  next = if p == 1 then some 2 else none;
  resp = none;
  error_text = [];
  has_error = false;
  service_name = [];
  procedure_name = [];
  unmarshal = some leb128.read_byte;
  unmarshal_raw = none;
  response_received = false;
}

-- The calls at 1 and 2 wait.
abbrev two_calls : Calls ℕ
two_calls = record { cell = cell; head = some 1; tail = some 2 }

abbrev second : ℕ
second = 2

differ_21 : second ≢ 1
differ_21 e = absurd (omega arith)

two_calls-Holds : Holds two_calls (1 ∷ 2 ∷ [])
two_calls-Holds = record {
  chain = (refl, (refl, refl));
  last = refl;
  distinct = ((differ_21, tt), (tt, tt));
}

third-Absent : Absent 3 (1 ∷ 2 ∷ [])
third-Absent = ((λ e. absurd (omega arith)), ((λ e. absurd (omega arith)), tt))

abbrev client : Client ℕ
client = record {
  name = [];
  has_conn = true;
  conn_open = true;
  source = 7 ∷ 9 ∷ [];
  sink = [];
  state = running;
  error = none;
  calls = two_calls;
  event_callbacks = [];
}

abbrev stringify : Error → Bytes
stringify e = 0x21 ∷ []

pop_call_data-cons_example :
    ((pop_call_data two_calls).1 ≡ some 1)
    × Holds (pop_call_data two_calls).0 (2 ∷ [])
    × ((pop_call_data two_calls).0.cell ≡ two_calls.cell)
pop_call_data-cons_example = pop_call_data-cons two_calls 1 (2 ∷ []) two_calls-Holds

push_call_data_lem_example : Holds (push_call_data 3 two_calls) (1 ∷ 2 ∷ 3 ∷ [])
push_call_data_lem_example =
    push_call_data_lem 3 two_calls (1 ∷ 2 ∷ []) two_calls-Holds third-Absent refl

fail_pending_calls_lem_example :
    Holds (fail_pending_calls 3 (0x21 ∷ []) two_calls) []
    × ((p : ℕ)
        → (fail_pending_calls 3 (0x21 ∷ []) two_calls).cell p ≡ (
            if waits p (1 ∷ 2 ∷ [])
            then failed_call (0x21 ∷ []) (two_calls.cell p)
            else two_calls.cell p))
fail_pending_calls_lem_example =
    fail_pending_calls_lem (0x21 ∷ []) 3 two_calls (1 ∷ 2 ∷ []) two_calls-Holds (omega arith)

-- A call fails, then the input thread.
abbrev failed_client : Client ℕ
failed_client = fail stringify 3 client

failed_client-Reaches : Reaches client failed_client
failed_client-Reaches =
    then_step client client failed_client (here client) (call_fails client stringify 3)

Reaches-rank_example : rank client.state ≤ rank failed_client.state
Reaches-rank_example = Reaches-rank client failed_client failed_client-Reaches

abbrev closed_client : Client ℕ
closed_client = record client { state = closed }

closed_client-Reaches : Reaches closed_client (fail stringify 3 closed_client)
closed_client-Reaches =
    then_step closed_client closed_client _ (here closed_client)
      (call_fails closed_client stringify 3)

closed_rank : rank closed_client.state ≡ 3
unfolding rank
closed_rank = refl

Reaches-dead_example : check_running (fail stringify 3 closed_client) ≢ ok tt
Reaches-dead_example =
    Reaches-dead closed_client (fail stringify 3 closed_client) closed_client-Reaches closed_rank

closed_check : check_running closed_client ≡ err connection_closed
unfolding check_running check_state
closed_check = refl

wait-send_request-closed_example :
    let c' =
      (send_request leb128 stringify (void_body leb128 false) 3 5 3 (cell 3) closed_client).0 in
    (check_running closed_client ≡ err connection_closed)
    × (wait c' ≡ some (record c' { state = failed }, err panic_null))
wait-send_request-closed_example =
    wait-send_request-closed leb128 stringify (void_body leb128 false) 3 5 3 (cell 3) closed_client
      refl refl

abbrev argument : Fields
argument = field 1 (uint32 4) nil

argument-FieldsInRange : FieldsInRange argument
unfolding FieldsInRange
argument-FieldsInRange = (omega arith, tt)

argument_depth : depth_fields argument ≤ 128
unfolding depth_fields
argument_depth = omega arith

client_check : check_running client ≡ ok tt
unfolding check_running check_state
client_check = refl

send_request_sent_example :
    let sent =
      send_request leb128 stringify (call_body leb128 false argument) 3 5 3 (cell 3) client in
    (sent.1 ≡ ok tt)
    × (sent.0.sink ≡ [] ++ (leb128_laws.uvarint 5 ++ encode leb128 leb128_laws argument))
    × (sent.0.state ≡ running)
    × Holds sent.0.calls (1 ∷ 2 ∷ 3 ∷ [])
send_request_sent_example =
    send_request_sent leb128 stringify false leb128_laws argument 3 5 3 (cell 3) client (1 ∷ 2 ∷ [])
      client_check (omega arith) argument-FieldsInRange argument_depth two_calls-Holds third-Absent
      refl

client_reply : read_reply (client.calls.cell 1) client.source ≡ ok (some 7, 9 ∷ [])
unfolding read_reply leb128
client_reply = refl

handle_reply_lem_example :
    let after = handle_reply leb128 stringify 3 client in
    (after.1 ≡ goes_on)
    × (after.0.source ≡ 9 ∷ [])
    × (result_of (after.0.calls.cell 1) ≡ some (ok (some 7)))
    × Holds after.0.calls (2 ∷ [])
    × ((y : ℕ)
        → after.0.calls.cell y ≡ (if 1 == y then after.0.calls.cell 1 else client.calls.cell y))
handle_reply_lem_example =
    handle_reply_lem leb128 stringify 3 client 1 (2 ∷ []) (some 7) (9 ∷ []) two_calls-Holds refl
      client_reply

-- The connection ends in front of the reply's message.
abbrev cut_client : Client ℕ
cut_client = record client { source = [] }

cut_reply : read_reply (cut_client.calls.cell 1) cut_client.source ≡ err io_error
unfolding read_reply leb128
cut_reply = refl

-- Another thread has closed the client.
abbrev woken_client : Client ℕ
woken_client = record cut_client { state = closed; error = some io_error }

handle_reply-undecoded_example :
    let waiting = handle_reply leb128 stringify 3 cut_client in
    let after = resume leb128 stringify 3 (tell 1) woken_client in
    (waiting.1 ≡ blocked (tell 1))
    × (waiting.0.state ≡ failing)
    × (waiting.0.error ≡ some io_error)
    × (result_of (waiting.0.calls.cell 1) ≡ none)
    × All
        (λ y.
          result_of (waiting.0.calls.cell y) ≡ some (err (Error.error_reply (stringify io_error))))
        (2 ∷ [])
    × (after.1 ≡ ends)
    × (after.0.error ≡ none)
    × (result_of (after.0.calls.cell 1) ≡ some (ok none))
handle_reply-undecoded_example =
    handle_reply-undecoded leb128 stringify 3 cut_client woken_client 1 (2 ∷ []) io_error refl
      two_calls-Holds refl cut_reply (omega arith) (inl refl) refl

-- An error reply with a text of two bytes.
abbrev error_client : Client ℕ
error_client = record client { source = 0xF1 ∷ 2 ∷ 0x6e ∷ 0x6f ∷ 0 ∷ 9 ∷ [] }

error_sent : handle_error leb128 ((0x6e ∷ 0x6f ∷ []) ∷ []) [] ≡ ok (0xF1 ∷ 2 ∷ 0x6e ∷ 0x6f ∷ 0 ∷ [])
error_sent = rw (leb128_laws.uvarint_small 2 (omega arith)) at (
    handle_error_lem leb128 leb128_laws ((0x6e ∷ 0x6f ∷ []) ∷ []) []
      ((omega arith, omega arith), tt))

input_step-handle_error_example :
    let after = input_step leb128 stringify 3 error_client in
    (after.1 ≡ goes_on)
    × (after.0.source ≡ 9 ∷ [])
    × (result_of (after.0.calls.cell 1) ≡ some (err (Error.error_reply (0x6e ∷ 0x6f ∷ []))))
    × Holds after.0.calls (2 ∷ [])
input_step-handle_error_example =
    input_step-handle_error leb128 stringify 3 leb128_laws ((0x6e ∷ 0x6f ∷ []) ∷ []) error_client 1
      (2 ∷ []) (9 ∷ []) (0xF1 ∷ 2 ∷ 0x6e ∷ 0x6f ∷ 0 ∷ []) ((omega arith, omega arith), tt)
      (omega arith) (omega arith) two_calls-Holds error_sent refl
