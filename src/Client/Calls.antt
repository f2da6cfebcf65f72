-- ===== src/Client/Calls.antt =====
-- Requests: what a caller does under `call_mtx`, and after its wait.
pub mod Sending
use serialrpc.Base.{ℕ, ◌%◌, ◌^◌, if◌then◌else◌, Bool, true, false, Option, some, none, []}
use serialrpc.Io.{Io, Bytes, Source, Sink, Result, Error, ok, err, ◌>>=◌, error_reply}
use serialrpc.Encoding.Marshal.{Fields, marshal}
use serialrpc.Client.Queue.{CallData, Calls, update, push_call_data}
use serialrpc.Client.State.{Client, Unit', check_running, fail}

module _ {R : Type 0} (io : Io) (stringify : Error → Bytes) where
  -- The caller's `CallData` at an address of its stack.
  unfoldable pub place : ℕ → CallData R → Client R → Client R
  place p d c = record c { calls = record c.calls { cell = update c.calls.cell p d } }

  unfoldable pub start_request : ℕ → ℕ → Client R → Result (Client R)
  start_request rpc_id p c = do
    checked ← check_running c
    w ← io.write_uint32 rpc_id c.sink
    ok (record c { sink = w; calls = push_call_data p c.calls })

  unfoldable pub finish_request : Client R → Result (Client R)
  finish_request c = do w ← io.flush c.sink; ok (record c { sink = w })

  unfoldable pub write_body : (Sink → Result Sink) → Client R → Result (Client R)
  write_body body c = do w ← body c.sink; ok (record c { sink = w })

  -- An error of any step fails the client.
  unfoldable pub or_fail : ℕ → Client R → Result (Client R) → Client R × Result Unit'
  or_fail fuel c (ok c') = (c', ok tt)
  or_fail fuel c (err e) = (fail stringify fuel c, err e)

  unfoldable pub after_start : (Sink → Result Sink) → ℕ → Client R → Client R × Result Unit'
  unfolding or_fail write_body finish_request
  after_start body fuel c = elim (write_body body c) [
    | err e ↦ (fail stringify fuel c, err e)
    | ok c' ↦ or_fail fuel c' (finish_request c')
  ]

  -- The block that a call holds the lock in. `body` writes what follows the number.
  unfoldable pub send_request :
      (Sink → Result Sink) → ℕ → ℕ → ℕ → CallData R → Client R → Client R × Result Unit'
  unfolding place start_request after_start
  send_request body fuel rpc_id p d c =
      let c₀ = place p d c in
      elim (start_request rpc_id p c₀) [
        | err e ↦ (fail stringify fuel c₀, err e)
        | ok c' ↦ after_start body fuel c'
      ]

-- After `response_received.wait()`: `none` while the caller still waits.
unfoldable pub result_of : {R : Type 0} → CallData R → Option (Result (Option R))
result_of d =
    if d.response_received
    then some (if d.has_error then err (error_reply d.error_text) else ok d.resp)
    else none

-- A fresh `CallData`.
unfoldable pub call_data :
    {R : Type 0}
    → Bytes
    → Bytes
    → Option R
    → Option (Source → Result (R × Source))
    → Option (Source → Result (R × Source))
    → CallData R
call_data service procedure resp unmarshal unmarshal_raw = record {
  next = none;
  resp = resp;
  error_text = [];
  has_error = false;
  service_name = service;
  procedure_name = procedure;
  unmarshal = unmarshal;
  unmarshal_raw = unmarshal_raw;
  response_received = false;
}

-- What each kind of call writes behind the endpoint's number.
module _ (io : Io) (big : Bool) where
  unfoldable pub call_body : Fields → Sink → Result Sink
  call_body req w = marshal io big req w

  unfoldable pub void_body : Sink → Result Sink
  void_body w = ok w

  unfoldable pub subscribe_body : Fields → Sink → Result Sink
  subscribe_body req w = do w ← io.write_byte 1 w; marshal io big req w

  unfoldable pub subscribe_void_body : Sink → Result Sink
  subscribe_void_body w = io.write_byte 1 w

  unfoldable pub unsubscribe_body : Sink → Result Sink
  unsubscribe_body w = io.write_byte 0 w

  -- `request->write_to`, if there is a request.
  unfoldable pub raw_body : Option (Sink → Result Sink) → Sink → Result Sink
  raw_body none w = ok w
  raw_body (some write_to) w = write_to w

-- The calls of a client, each up to its wait. `p` is where the call's `CallData` stands, and `initial`
-- what `resp` holds at first.
module _ {R : Type 0} (io : Io) (stringify : Error → Bytes) (big : Bool) (fuel rpc_id p : ℕ)
    (service procedure : Bytes) where
  unfoldable pub call :
      (Source → Result (R × Source)) → R → Fields → Client R → Client R × Result Unit'
  unfolding send_request call_data call_body
  call unmarshal initial req c =
      send_request io stringify (call_body io big req) fuel rpc_id p
        (call_data service procedure (some initial) (some unmarshal) none) c

  unfoldable pub call_without_request :
      (Source → Result (R × Source)) → R → Client R → Client R × Result Unit'
  unfolding send_request call_data void_body
  call_without_request unmarshal initial c =
      send_request io stringify (void_body io big) fuel rpc_id p
        (call_data service procedure (some initial) (some unmarshal) none) c

  -- A `CallData` with no result.
  abbrev pub plain : CallData R
  plain = record {
    next = none;
    resp = none;
    error_text = [];
    has_error = false;
    service_name = service;
    procedure_name = procedure;
    unmarshal = none;
    unmarshal_raw = none;
    response_received = false;
  }

  unfoldable pub call_void : Fields → Client R → Client R × Result Unit'
  unfolding send_request call_body
  call_void req c = send_request io stringify (call_body io big req) fuel rpc_id p plain c

  unfoldable pub call_void_without_request : Client R → Client R × Result Unit'
  unfolding send_request void_body
  call_void_without_request c = send_request io stringify (void_body io big) fuel rpc_id p plain c

  unfoldable pub subscribe : Fields → Client R → Client R × Result Unit'
  unfolding send_request subscribe_body
  subscribe req c = send_request io stringify (subscribe_body io big req) fuel rpc_id p plain c

  unfoldable pub subscribe_void : Client R → Client R × Result Unit'
  unfolding send_request subscribe_void_body
  subscribe_void c = send_request io stringify (subscribe_void_body io big) fuel rpc_id p plain c

  unfoldable pub unsubscribe : Client R → Client R × Result Unit'
  unfolding send_request unsubscribe_body
  unsubscribe c = send_request io stringify (unsubscribe_body io big) fuel rpc_id p plain c

  unfoldable pub call_raw :
      Option (Source → Result (R × Source))
      → Option R
      → Option (Sink → Result Sink)
      → Client R
      → Client R × Result Unit'
  unfolding send_request call_data raw_body
  call_raw unmarshal_response response request c =
      send_request io stringify (raw_body io big request) fuel rpc_id p
        (call_data service procedure response none unmarshal_response) c
