-- ===== src/Client/Input.antt =====
-- The input thread: replies, errors, events and diagnostics from the server.
pub mod Replies
use serialrpc.Base.{
  ℕ, zero, suc, ◌==◌, if◌then◌else◌, Bool, true, false, not, Option, some, none, List, [], ◌∷◌,
  ◌++◌,
}
use serialrpc.Io.{
  Io, Bytes, Source, Result, Error, ok, err, ◌>>=◌, unexpected_reply, unknown_event, unknown_method,
  request_too_big, bad_message, fatal_error, unsolicited_goodbye, unexpected_hello, unexpected_byte,
}
use serialrpc.Rpc.{
  ServerMessageType, reply, error_reply, event, log, unknown, too_big, server_hello, server_goodbye,
  server_byte,
}
use serialrpc.Internal.{is_printable}
use serialrpc.Encoding.Chunked.{Chunked, read_chunked}
use serialrpc.Client.Queue.{CallData, Calls, update, pop_call_data, failed_call}
use serialrpc.Client.State.{State, closed, failed, failing, Callback, Client, input_error}
use serialrpc.Client.Hello.{print_line, handle_log}

-- What is left to do when the error function of `input` returns: leave the loop, notify a call before
-- that, with a text for its error or without, or read on.
pub data Left : Type 0 where
  leave read_on : Left
  tell : ℕ → Left
  tell_error : ℕ → Bytes → Left

-- Whether the loop of `input` goes on. `blocked`: the error function waits for another thread.
pub data Outcome : Type 0 where
  goes_on ends : Outcome
  blocked : Left → Outcome

-- The switch on the byte that starts a message.
unfoldable pub message_type : ℕ → Option ServerMessageType
message_type b =
    if b == 0xF0
    then some reply
    else if b == 0xF1
    then some error_reply
    else if b == 0xF2
    then some event
    else if b == 0xF3
    then some log
    else if b == 0xF4
    then some unknown
    else if b == 0xF5
    then some too_big
    else if b == 0xF6
    then some ServerMessageType.bad_message
    else if b == 0xF7
    then some ServerMessageType.fatal_error
    else if b == 0xF9
    then some server_hello
    else if b == 0xFA
    then some server_goodbye
    else none

-- " (failed to read error message)".
abbrev pub unread_error : Bytes
unread_error =
    0x20 ∷ 0x28 ∷ 0x66 ∷ 0x61 ∷ 0x69 ∷ 0x6c ∷ 0x65 ∷ 0x64 ∷ 0x20 ∷ 0x74 ∷ 0x6f ∷ 0x20 ∷ 0x72 ∷ 0x65
    ∷ 0x61 ∷ 0x64 ∷ 0x20 ∷ 0x65 ∷ 0x72 ∷ 0x72 ∷ 0x6f ∷ 0x72 ∷ 0x20 ∷ 0x6d ∷ 0x65 ∷ 0x73 ∷ 0x73
    ∷ 0x61 ∷ 0x67 ∷ 0x65 ∷ 0x29 ∷ []

-- `event_callbacks` is a map: the entry for a number is the first in the list.
unfoldable pub find_callback : ℕ → List (ℕ × Callback) → Option Callback
find_callback n [] = none
find_callback n ((m, cb) ∷ rest) =
    let later = find_callback n rest in if n == m then some cb else later

unfoldable pub erase_callback : ℕ → List (ℕ × Callback) → List (ℕ × Callback)
erase_callback n [] = []
erase_callback n ((m, cb) ∷ rest) =
    let later = erase_callback n rest in if n == m then later else (m, cb) ∷ later

module _ {R : Type 0} where
  -- `unmarshal`, `unmarshal_raw` or, for a call without a result, neither.
  unfoldable pub read_reply : CallData R → Source → Result (Option R × Source)
  read_reply d s = elim d.unmarshal [
    | some read ↦ (do (r, s) ← read s; ok (some r, s))
    | none ↦ elim d.unmarshal_raw [
      | some read ↦ (do (r, s) ← read s; ok (some r, s))
      | none ↦ ok (d.resp, s)
    ]
  ]

  unfoldable pub register_event_callback : ℕ → Callback → Client R → Client R
  unfolding erase_callback
  register_event_callback n cb c = record c {
    event_callbacks = (n, cb) ∷ erase_callback n c.event_callbacks;
  }

  unfoldable pub unregister_event_callback : ℕ → Client R → Client R
  unfolding erase_callback
  unregister_event_callback n c = record c { event_callbacks = erase_callback n c.event_callbacks }

  -- `response_received.notify()`, behind what `change` writes.
  unfoldable pub notify : ℕ → (CallData R → CallData R) → Client R → Client R
  notify p change c = record c {
    calls = record c.calls {
      cell = update c.calls.cell p (record (change (c.calls.cell p)) { response_received = true });
    };
  }

  -- `fuel` is for the loops, `stringify` is `fmt::stringify`.
  module _ (io : Io) (stringify : Error → Bytes) (fuel : ℕ) where
    unfoldable pub run_left : Left → Client R → Client R × Outcome
    unfolding notify
    run_left leave c = (c, ends)
    run_left (tell p) c = (notify p (λ d. d) c, ends)
    run_left (tell_error p message) c = (notify p (failed_call message) c, ends)
    run_left read_on c = (record c { source = [] }, goes_on)

    -- The error function returns in the states Closed and Failed, and waits in the others.
    unfoldable pub raised : Left → State → Client R → Client R × Outcome
    unfolding run_left
    raised left closed c = run_left left c
    raised left failed c = run_left left c
    raised left _ c = (c, blocked left)

    unfoldable pub raise : Left → Error → Client R → Client R × Outcome
    unfolding raised
    raise left e c = raised left c.state (input_error stringify fuel e c)

    -- The error function behind its wait, `again` with `state`.
    unfoldable pub woken_in : State → Left → Client R → Client R × Outcome
    unfolding run_left
    woken_in closed left c = run_left left (record c { error = none })
    woken_in failed left c = run_left left (record c { error = none })
    woken_in _ left c = (record c { state = failing }, blocked left)

    unfoldable pub resume : Left → Client R → Client R × Outcome
    unfolding woken_in
    resume left c = woken_in c.state left c

    -- The end of a handler: an error goes to `input`'s error function, and ends the loop.
    unfoldable pub settle : Client R → Result Source → Client R × Outcome
    unfolding raise
    settle c (ok s) = (record c { source = s }, goes_on)
    settle c (err e) = raise leave e c

    -- The caller is notified when the error function has returned. What a decoding error leaves in
    -- `*resp` is not modelled: `resp` stays.
    unfoldable pub replied : ℕ → Client R → Result (Option R × Source) → Client R × Outcome
    unfolding notify raise
    replied p c (ok (r, s)) =
        (notify p (λ d. record d { resp = r }) (record c { source = s }), goes_on)
    replied p c (err e) = raise (tell p) e c

    unfoldable pub reply_to : Option ℕ → Client R → Client R × Outcome
    unfolding settle replied read_reply
    reply_to none c = settle c (err unexpected_reply)
    reply_to (some p) c = replied p c (read_reply (c.calls.cell p) c.source)

    unfoldable pub handle_reply : Client R → Client R × Outcome
    unfolding reply_to pop_call_data
    handle_reply c =
        let (calls, p) = pop_call_data c.calls in reply_to p (record c { calls = calls })

    -- The call has the text that was read, and a remark if there was an error.
    unfoldable pub error_replied : ℕ → Client R → Bytes → Result Source → Client R × Outcome
    unfolding notify raise
    error_replied p c message (ok s) =
        (notify p (failed_call message) (record c { source = s }), goes_on)
    error_replied p c message (err e) = raise (tell_error p (message ++ unread_error)) e c

    unfoldable pub error_reply_to : Option ℕ → Client R → Client R × Outcome
    unfolding settle error_replied
    error_reply_to none c = settle c (err unexpected_reply)
    error_reply_to (some p) c =
        let chunked = read_chunked io fuel c.source in
        error_replied p c chunked.text chunked.failure

    unfoldable pub handle_chunked_error_reply : Client R → Client R × Outcome
    unfolding error_reply_to pop_call_data
    handle_chunked_error_reply c =
        let (calls, p) = pop_call_data c.calls in error_reply_to p (record c { calls = calls })

    unfoldable pub handle_event : ℕ → Source → Client R → Result Source
    unfolding find_callback
    handle_event event_id s c = elim (find_callback event_id c.event_callbacks) [
      | none ↦ err (unknown_event event_id)
      | some cb ↦ cb s
    ]

    unfoldable pub read_event : Client R → Result Source
    unfolding handle_event
    read_event c = do (event_id, s) ← io.read_uint32 c.source; handle_event event_id s c

    unfoldable pub read_log : Client R → Result Source
    unfolding handle_log
    read_log c = do (line, s) ← handle_log io c.source; ok s

    unfoldable pub goodbye : State → Client R → Client R × Outcome
    unfolding settle
    goodbye closed c = (c, ends)
    goodbye _ c = settle c (err unsolicited_goodbye)

    -- The message behind the byte that starts it.
    unfoldable pub handle_message : ServerMessageType → Client R → Client R × Outcome
    unfolding settle handle_reply handle_chunked_error_reply read_event read_log goodbye
    handle_message reply c = handle_reply c
    handle_message error_reply c = handle_chunked_error_reply c
    handle_message unknown c = settle c (err unknown_method)
    handle_message too_big c = settle c (err request_too_big)
    handle_message ServerMessageType.bad_message c = settle c (err bad_message)
    handle_message event c = settle c (read_event c)
    handle_message log c = settle c (read_log c)
    handle_message ServerMessageType.fatal_error c = settle c (err fatal_error)
    handle_message server_goodbye c = goodbye c.state c
    handle_message server_hello c = settle c (err unexpected_hello)

    -- An error of `print_line` is reported and does not end the loop; nothing is left to read.
    unfoldable pub printed : Client R → Result Source → Client R × Outcome
    unfolding raise
    printed c (ok s) = (record c { source = s }, goes_on)
    printed c (err e) = raise read_on e c

    unfoldable pub handle_byte : ℕ → Option ServerMessageType → Client R → Client R × Outcome
    unfolding settle handle_message printed is_printable
    handle_byte b (some type) c = handle_message type c
    handle_byte b none c =
        if is_printable b
        then printed c (print_line io fuel b c.source)
        else settle c (err (unexpected_byte b))

    unfoldable pub input_from : Client R → Result (ℕ × Source) → Client R × Outcome
    unfolding settle handle_byte message_type
    input_from c (err e) = settle c (err e)
    input_from c (ok (b, s)) = handle_byte b (message_type b) (record c { source = s })

    -- One round of the loop of `input`.
    unfoldable pub input_step : Client R → Client R × Outcome
    unfolding input_from
    input_step c = input_from c (io.read_byte c.source)

    -- The loop, for so many rounds.
    pub input : ℕ → Client R → Client R × Outcome
    unfolding input_step
    input zero c = (c, goes_on)
    input (suc rounds) c =
        let (c', outcome) = input_step c in
        elim outcome [
          | goes_on ↦ input rounds c'
          | ends ↦ (c', ends)
          | blocked left ↦ (c', blocked left)
        ]
