-- ===== src/Client/Queue.antt =====
-- The calls that wait for a reply: a list linked through the `CallData` of the calls, which stand on
-- their callers' stacks. An address is a number.
pub mod Order
pub mod Failure
use serialrpc.Base.{ℕ, zero, suc, ◌==◌, if◌then◌else◌, Bool, true, false, Option, some, none}
use serialrpc.Io.{Bytes, Source, Result}

pub record CallData (R : Type 0) : Type 0 where
  pub next : Option ℕ
  -- what `*resp` holds
  pub resp : Option R
  pub error_text : Bytes
  pub has_error : Bool
  pub service_name : Bytes
  pub procedure_name : Bytes
  pub unmarshal : Option (Source → Result (R × Source))
  pub unmarshal_raw : Option (Source → Result (R × Source))
  -- `response_received`, notified or not
  pub response_received : Bool

pub record Calls (R : Type 0) : Type 0 where
  pub cell : ℕ → CallData R
  pub head : Option ℕ
  pub tail : Option ℕ

unfoldable pub set_head : Option ℕ → ℕ → Option ℕ
set_head none p = some p
set_head (some h) p = some h

abbrev pub same_pointer : ℕ → Option ℕ → Bool
same_pointer h none = false
same_pointer h (some t) = h == t

module _ {R : Type 0} where
  abbrev pub update : (ℕ → CallData R) → ℕ → CallData R → ℕ → CallData R
  update cell p d q = if p == q then d else cell q

  unfoldable pub set_next : Option ℕ → ℕ → (ℕ → CallData R) → ℕ → CallData R
  set_next none p cell = cell
  set_next (some t) p cell = update cell t (record (cell t) { next = some p })

  -- The end of `start_request`.
  unfoldable pub push_call_data : ℕ → Calls R → Calls R
  unfolding set_next set_head
  push_call_data p c = record {
    cell = set_next c.tail p c.cell;
    head = set_head c.head p;
    tail = some p;
  }

  unfoldable pub pop_from : Option ℕ → Calls R → Calls R × Option ℕ
  pop_from none c = (c, none)
  pop_from (some h) c = (
    record c { tail = if same_pointer h c.tail then none else c.tail; head = (c.cell h).next },
    some h,
  )

  unfoldable pub pop_call_data : Calls R → Calls R × Option ℕ
  unfolding pop_from
  pop_call_data c = pop_from c.head c

  -- The failure of one call, and the notification of its caller.
  abbrev pub failed_call : Bytes → CallData R → CallData R
  failed_call text d = record d { error_text = text; has_error = true; response_received = true }

  -- `text` is the error as `fmt::stringify` writes it. Each round takes a call off the list.
  pub fail_pending_calls : ℕ → Bytes → Calls R → Calls R
  unfolding pop_call_data
  fail_pending_calls zero text c = c
  fail_pending_calls (suc fuel) text c =
      let (c', popped) = pop_call_data c in
      elim popped [
        | none ↦ c'
        | some p ↦
            fail_pending_calls fuel text
              (record c' { cell = update c'.cell p (failed_call text (c'.cell p)) })
      ]
