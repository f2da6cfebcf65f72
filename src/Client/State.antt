-- ===== src/Client/State.antt =====
-- The state of a `Client`: starting, running, failing and closing.
pub mod Lifecycle
use serialrpc.Base.{ℕ, zero, suc, ◌==◌, if◌then◌else◌, Bool, true, false, Option, some, none, List}
use serialrpc.Io.{
  Io, Bytes, Source, Sink, Result, Error, ok, err, ◌>>=◌, not_running, connection_closed,
  client_failed, panic_null, panic_already_initialized,
}
use serialrpc.Client.Queue.{Calls, fail_pending_calls}

-- `enum State`, with New as `fresh`.
pub data State : Type 0 where
  fresh starting running closed failing failed : State

-- An event callback reads the event's message.
abbrev pub Callback : Type 0
Callback = Source → Result Source

pub record Client (R : Type 0) : Type 0 where
  pub name : Bytes
  -- `conn != nil`, and the connection not closed
  pub has_conn : Bool
  pub conn_open : Bool
  pub source : Source
  pub sink : Sink
  pub state : State
  -- `err`, null or what it points to
  pub error : Option Error
  pub calls : Calls R
  pub event_callbacks : List (ℕ × Callback)

abbrev pub Unit' : Type 0
Unit' = Unit {0}

-- `err(*this->err)`.
unfoldable pub report : Option Error → Result Unit'
report none = err panic_null
report (some e) = err e

unfoldable pub check_failing : Option Error → Result Unit'
check_failing none = err connection_closed
check_failing (some e) = err e

unfoldable pub check_state : State → Option Error → Result Unit'
unfolding check_failing
check_state running e = ok tt
check_state fresh e = err not_running
check_state starting e = err not_running
check_state closed e = err connection_closed
check_state failing e = check_failing e
check_state failed e = err client_failed

module _ {R : Type 0} where
  unfoldable pub check_running : Client R → Result Unit'
  unfolding check_state
  check_running c = check_state c.state c.error

  -- The switch of `fail`, behind the pending calls.
  unfoldable pub fail_from : State → Client R → Client R
  fail_from failing c = c
  fail_from failed c = c
  fail_from _ c = record c { state = failing; conn_open = false }

  -- `stringify` is `fmt::stringify`; `fuel` is for the list of calls.
  unfoldable pub fail : (Error → Bytes) → ℕ → Client R → Client R
  unfolding fail_from
  fail stringify fuel c =
      fail_from c.state
        (record c { calls = fail_pending_calls fuel (stringify connection_closed) c.calls })

  -- `input`'s handler of an error, up to its wait.
  unfoldable pub input_error_from : State → Client R → Client R
  input_error_from closed c = record c { error = none }
  input_error_from failed c = record c { error = none }
  input_error_from _ c = record c { state = failing }

  unfoldable pub input_error : (Error → Bytes) → ℕ → Error → Client R → Client R
  unfolding input_error_from
  input_error stringify fuel e c =
      input_error_from c.state
        (record c { error = some e; calls = fail_pending_calls fuel (stringify e) c.calls })

  -- `wait` at one look at the state: `none` is a wait for the next signal.
  unfoldable pub wait_at : State → Client R → Option (Client R × Result Unit')
  unfolding report
  wait_at closed c = some (c, ok tt)
  wait_at failed c = some (c, ok tt)
  wait_at failing c = some (record c { state = failed }, report c.error)
  wait_at _ c = none

  unfoldable pub wait : Client R → Option (Client R × Result Unit')
  unfolding wait_at
  wait c = wait_at c.state c

  -- The start of `start_unlocked`: `none` is a wait while another thread starts the client.
  unfoldable pub start_at : State → Client R → Option (Client R × Result Unit')
  unfolding report
  start_at fresh c = some (record c { state = starting }, ok tt)
  start_at starting c = none
  start_at running c = some (c, ok tt)
  start_at closed c = some (c, err connection_closed)
  start_at failing c = some (record c { state = failed }, report c.error)
  start_at failed c = some (c, err client_failed)

  -- Its end, when the input thread has left Starting.
  unfoldable pub started_at : State → Client R → Client R × Result Unit'
  unfolding report
  started_at failing c = (record c { state = failed }, report c.error)
  started_at _ c = (c, ok tt)

  -- The end of `client_hello`.
  unfoldable pub hello_done : State → Client R → Client R
  hello_done starting c = record c { state = running }
  hello_done _ c = c

  unfoldable pub init : Client R → Result (Client R)
  init c = if c.has_conn then err panic_already_initialized else ok (record c { has_conn = true })

  -- What `close` does in the states of its switch: Failing becomes Failed before it becomes Closed.
  unfoldable pub close_from : Io → State → Client R → Client R × Result Unit'
  close_from io closed c = (c, ok tt)
  close_from io running c = elim (io.write_byte 0 c.sink) [
    | err e ↦ (record c { state = closed; conn_open = false }, err e)
    | ok w ↦ elim (io.flush w) [
      | err e ↦ (record c { state = closed; conn_open = false; sink = w }, err e)
      | ok w ↦ (record c { state = closed; conn_open = false; sink = w }, ok tt)
    ]
  ]
  close_from io _ c = (record c { state = closed; conn_open = false }, ok tt)

  unfoldable pub close : Io → Client R → Client R × Result Unit'
  unfolding close_from
  close io c = if c.has_conn then close_from io c.state c else (c, ok tt)
