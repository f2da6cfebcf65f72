-- ===== src/Client/Waiter.antt =====
-- `Client::Waiter`: the atomic on which a caller waits for its response, on the caller's stack. The
-- input thread is in `notify` while the caller is in `wait`.
--
-- A step is one access to the atomic, or the branch on a value that was loaded; the accesses happen
-- one after another. `state.wait(0)` looks at the value and sleeps in one step, and may wake up
-- without a reason.
pub mod Waking
use serialrpc.Base.{ℕ, zero, suc, ◌≡◌, ◌==◌, if◌then◌else◌, Option, some, none}

-- Where `notify` is: in front of its first store, of `notify_one`, of its last store, or done.
pub data Notifier : Type 0 where
  storing_one notifying storing_two notified : Notifier

-- Where `wait` is: in front of its load, with a value loaded, in front of `state.wait(0)`, asleep in
-- it, or done.
pub data Waiting : Type 0 where
  loading : Waiting
  loaded : ℕ → Waiting
  waiting asleep returned : Waiting

pub record Waiter : Type 0 where
  pub state : ℕ
  pub notifier : Notifier
  pub waiter : Waiting

abbrev pub fresh_waiter : Waiter
fresh_waiter = record { state = 0; notifier = storing_one; waiter = loading }

-- A thread that sleeps in `state.wait(0)` looks at the value again.
unfoldable pub notify_one : Waiting → Waiting
notify_one asleep = waiting
notify_one other = other

-- `none` when `notify` is done.
unfoldable pub notify_from : Notifier → Waiter → Option Waiter
unfolding notify_one
notify_from storing_one w = some (record w { state = 1; notifier = notifying })
notify_from notifying w = some (record w { notifier = storing_two; waiter = notify_one w.waiter })
notify_from storing_two w = some (record w { state = 2; notifier = notified })
notify_from notified w = none

unfoldable pub notify_step : Waiter → Option Waiter
unfolding notify_from
notify_step w = notify_from w.notifier w

-- `none` when `wait` sleeps or is done.
unfoldable pub wait_from : Waiting → Waiter → Option Waiter
wait_from loading w = some (record w { waiter = loaded w.state })
wait_from (loaded s) w =
    if s == 0
    then some (record w { waiter = waiting })
    else if s == 2
    then some (record w { waiter = returned })
    else some (record w { waiter = loading })
wait_from waiting w =
    if w.state == 0
    then some (record w { waiter = asleep })
    else some (record w { waiter = loading })
wait_from asleep w = none
wait_from returned w = none

unfoldable pub wait_step : Waiter → Option Waiter
unfolding wait_from
wait_step w = wait_from w.waiter w

-- One step of either thread, or a wake-up without a reason.
pub data Step (w : Waiter) : Waiter → Type 0 where
  notifies : (w' : Waiter) → notify_step w ≡ some w' → Step w w'
  waits : (w' : Waiter) → wait_step w ≡ some w' → Step w w'
  wakes : w.waiter ≡ asleep → Step w (record w { waiter = waiting })

-- The states that the two threads reach in any order of their steps.
pub data Reach : Waiter → Type 0 where
  start : Reach fresh_waiter
  later : {w w' : Waiter} → Reach w → Step w w' → Reach w'

-- So many steps of one thread alone, or as many as it has.
unfoldable pub run : (Waiter → Option Waiter) → ℕ → Waiter → Waiter
run step zero w = w
run step (suc n) w = elim (step w) [ none ↦ w | some w' ↦ run step n w' ]
