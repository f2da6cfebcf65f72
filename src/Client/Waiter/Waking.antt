-- ===== src/Client/Waiter/Waking.antt =====
-- A caller leaves its wait when the notifier is done with the atomic, and it does leave.
use serialrpc.Base.{
  ℕ, zero, suc, Option-cases, ◌≡◌, refl, sym, ap, ◌∙◌, subst, ◌==◌, ==_iff, Bool-cases, inl, inr,
  true, false, Option, some, arith,
}
use serialrpc.Client.Waiter.{
  Notifier, storing_one, notifying, storing_two, notified, Waiting, loading, loaded, waiting,
  asleep, returned, Waiter, notify_one, notify_from, notify_step, wait_from, wait_step, Step,
  notifies, waits, wakes, Reach, start, later, run,
}

-- The value that the notifier has stored.
abbrev stored : Notifier → ℕ
stored storing_one = 0
stored notifying = 1
stored storing_two = 1
stored notified = 2

-- What the waiter may be at: it has loaded a value that was stored, sleeps only while a wake-up is to
-- come, and returns behind the last store.
abbrev Fine : Notifier → Waiting → Type 0
Fine storing_one (loaded s) = s ≡ 0
Fine notifying (loaded s) = (s == 2) ≡ false
Fine storing_two (loaded s) = (s == 2) ≡ false
Fine storing_two asleep = ⊥
Fine notified asleep = ⊥
Fine storing_one returned = ⊥
Fine notifying returned = ⊥
Fine storing_two returned = ⊥
Fine n w = Unit {0}

record Inv (w : Waiter) : Type 0 where
  value : w.state ≡ stored w.notifier
  fine : Fine w.notifier w.waiter

notify_one-Fine : (w : Waiting) → Fine notifying w → Fine storing_two (notify_one w)
unfolding notify_one
notify_one-Fine loading h = tt
notify_one-Fine (loaded s) h = h
notify_one-Fine waiting h = tt
notify_one-Fine asleep h = tt
notify_one-Fine returned h = h

first-Fine : (w : Waiting) → Fine storing_one w → Fine notifying w
first-Fine loading h = tt
first-Fine (loaded s) h = rw (h) refl
first-Fine waiting h = tt
first-Fine asleep h = tt
first-Fine returned h = h

last-Fine : (w : Waiting) → Fine storing_two w → Fine notified w
last-Fine loading h = tt
last-Fine (loaded s) h = tt
last-Fine waiting h = tt
last-Fine asleep h = h
last-Fine returned h = tt

-- The two threads at these places, with this value.
abbrev state_of : ℕ → Notifier → Waiting → Waiter
state_of v n p = record { state = v; notifier = n; waiter = p }

notifies-Inv :
    (v : ℕ) (n : Notifier) (p : Waiting) (w : Waiter)
    → Inv (state_of v n p)
    → notify_from n (state_of v n p) ≡ some w
    → Inv w
unfolding notify_from
notifies-Inv v storing_one p w inv e =
    let there : state_of 1 notifying p ≡ w = cc in
    subst Inv there (record { value = refl; fine = first-Fine p inv.fine })
notifies-Inv v notifying p w inv e =
    let there : state_of v storing_two (notify_one p) ≡ w = cc in
    subst Inv there (record { value = inv.value; fine = notify_one-Fine p inv.fine })
notifies-Inv v storing_two p w inv e =
    let there : state_of 2 notified p ≡ w = cc in
    subst Inv there (record { value = refl; fine = last-Fine p inv.fine })
notifies-Inv v notified p w inv e = absurd cc

-- A place in which the waiter may be whatever the notifier does.
loading-Fine : (n : Notifier) → Fine n loading
loading-Fine storing_one = tt
loading-Fine notifying = tt
loading-Fine storing_two = tt
loading-Fine notified = tt

waiting-Fine : (n : Notifier) → Fine n waiting
waiting-Fine storing_one = tt
waiting-Fine notifying = tt
waiting-Fine storing_two = tt
waiting-Fine notified = tt

loaded-Fine : (n : Notifier) → Fine n (loaded (stored n))
loaded-Fine storing_one = refl
loaded-Fine notifying = refl
loaded-Fine storing_two = refl
loaded-Fine notified = tt

asleep-Fine : (n : Notifier) → stored n ≡ 0 → Fine n asleep
asleep-Fine storing_one e = tt
asleep-Fine notifying e = tt
asleep-Fine storing_two e = absurd (omega arith)
asleep-Fine notified e = absurd (omega arith)

returned-Fine : (n : Notifier) (s : ℕ) → Fine n (loaded s) → (s == 2) ≡ true → Fine n returned
returned-Fine storing_one s h e = ground (arith, e)
returned-Fine notifying s h e = absurd cc
returned-Fine storing_two s h e = absurd cc
returned-Fine notified s h e = tt

waits-Inv :
    (v : ℕ) (n : Notifier) (p : Waiting) (w : Waiter)
    → Inv (state_of v n p)
    → wait_from p (state_of v n p) ≡ some w
    → Inv w
unfolding wait_from
waits-Inv v n loading w inv e =
    let there : state_of v n (loaded v) ≡ w = cc in
    subst Inv there (record { value = inv.value; fine = rw (inv.value) (loaded-Fine n) })
waits-Inv v n (loaded s) w inv e = elim (Bool-cases (s == 0)) [
  | inl nil ↦
      let went : some (state_of v n waiting) ≡ some w = rw (nil) at e in
      let there : state_of v n waiting ≡ w = cc in
      subst Inv there (record { value = inv.value; fine = waiting-Fine n })
  | inr other ↦ elim (Bool-cases (s == 2)) [
    | inl two ↦
        let went : some (state_of v n returned) ≡ some w = rw (two) at rw (other) at e in
        let there : state_of v n returned ≡ w = cc in
        subst Inv there (record { value = inv.value; fine = returned-Fine n s inv.fine two })
    | inr one ↦
        let went : some (state_of v n loading) ≡ some w = rw (one) at rw (other) at e in
        let there : state_of v n loading ≡ w = cc in
        subst Inv there (record { value = inv.value; fine = loading-Fine n })
  ]
]
waits-Inv v n waiting w inv e = elim (Bool-cases (v == 0)) [
  | inl nil ↦
      let went : some (state_of v n asleep) ≡ some w = rw (nil) at e in
      let there : state_of v n asleep ≡ w = cc in
      let still : v ≡ 0 = (==_iff v 0).0 nil in
      subst Inv there (record { value = inv.value; fine = asleep-Fine n (sym inv.value ∙ still) })
  | inr other ↦
      let went : some (state_of v n loading) ≡ some w = rw (other) at e in
      let there : state_of v n loading ≡ w = cc in
      subst Inv there (record { value = inv.value; fine = loading-Fine n })
]
waits-Inv v n asleep w inv e = absurd cc
waits-Inv v n returned w inv e = absurd cc

step-Inv : (w w' : Waiter) → Inv w → Step w w' → Inv w'
unfolding notify_step wait_step
step-Inv w w' inv (notifies v e) = notifies-Inv w.state w.notifier w.waiter v inv e
step-Inv w w' inv (waits v e) = waits-Inv w.state w.notifier w.waiter v inv e
step-Inv w w' inv (wakes e) = record { value = inv.value; fine = waiting-Fine w.notifier }

Reach-Inv : (w : Waiter) → Reach w → Inv w
Reach-Inv w start = record { value = refl; fine = tt }
Reach-Inv w (later {w = v} r step) = step-Inv v w (Reach-Inv v r) step

returned_last : (n : Notifier) → Fine n returned → n ≡ notified
returned_last storing_one h = absurd h
returned_last notifying h = absurd h
returned_last storing_two h = absurd h
returned_last notified h = refl

-- In every order of the steps, when the caller has left `wait` the input thread has made its last
-- access to the atomic: the caller may drop what stands on its stack.
pub wait_returns_last : (w : Waiter) → Reach w → w.waiter ≡ returned → w.notifier ≡ notified
wait_returns_last w r e = returned_last w.notifier (subst (Fine w.notifier) e (Reach-Inv w r).fine)

run_moves :
    (step : Waiter → Option Waiter) (n : ℕ) (w w' : Waiter)
    → step w ≡ some w'
    → run step (suc n) w ≡ run step n w'
unfolding run
run_moves step n w w' e = rw (run, e) refl

-- Waits whose first step is known.
waiter_moves :
    (v n : ℕ) (p q : Waiting)
    → wait_from p (state_of v notified p) ≡ some (state_of v notified q)
    → (run wait_step (suc n) (state_of v notified p)).waiter
      ≡ (run wait_step n (state_of v notified q)).waiter
unfolding wait_step
waiter_moves v n p q e =
    ap (λ (w : Waiter). w.waiter)
      (run_moves wait_step n (state_of v notified p) (state_of v notified q) e)

returns :
    (v : ℕ) (p : Waiting)
    → Inv (state_of v notified p)
    → (run wait_step 4 (state_of v notified p)).waiter ≡ returned
unfolding run wait_step wait_from
returns v loading inv = rw (inv.value) refl
returns v (loaded s) inv = elim (Bool-cases (s == 0)) [
  | inl nil ↦ waiter_moves v 3 (loaded s) waiting (rw (nil) refl) ∙ rw (inv.value) refl
  | inr other ↦ elim (Bool-cases (s == 2)) [
    | inl two ↦ waiter_moves v 3 (loaded s) returned (rw (other, two) refl) ∙ refl
    | inr one ↦ waiter_moves v 3 (loaded s) loading (rw (other, one) refl) ∙ rw (inv.value) refl
  ]
]
returns v waiting inv = rw (inv.value) refl
returns v asleep inv = absurd inv.fine
returns v returned inv = refl

-- `notify` never blocks: three steps end it.
notify_ends :
    (v : ℕ) (n : Notifier) (p : Waiting) → (run notify_step 3 (state_of v n p)).notifier ≡ notified
unfolding run notify_step notify_from
notify_ends v storing_one p = refl
notify_ends v notifying p = refl
notify_ends v storing_two p = refl
notify_ends v notified p = refl

run_notify-Inv : (k : ℕ) (w : Waiter) → Inv w → Inv (run notify_step k w)
unfolding run
run_notify-Inv zero w inv = inv
run_notify-Inv (suc k) w inv = elim (Option-cases (notify_step w)) [
  | inl stuck ↦ rw (run, stuck) inv
  | inr (w', moved) ↦
      rw (run_moves notify_step k w w' moved)
        (run_notify-Inv k w' (step-Inv w w' inv (notifies w' moved)))
]

ended-returns : (w : Waiter) → Inv w → w.notifier ≡ notified → (run wait_step 4 w).waiter ≡ returned
ended-returns w inv e =
    subst
      (λ (n : Notifier).
        Inv (state_of w.state n w.waiter)
        → (run wait_step 4 (state_of w.state n w.waiter)).waiter ≡ returned)
      (sym e) (returns w.state w.waiter) inv

-- No wake-up is lost: from every state that the threads reach in any order of their steps, at most
-- three steps of the input thread end `notify`, and at most four of the caller behind them end `wait`.
pub wait_returns :
    (w : Waiter) → Reach w → (run wait_step 4 (run notify_step 3 w)).waiter ≡ returned
wait_returns w r =
    ended-returns (run notify_step 3 w) (run_notify-Inv 3 w (Reach-Inv w r))
      (notify_ends w.state w.notifier w.waiter)
