-- ===== src/Client/Queue/Failure.antt =====
-- `fail_pending_calls` leaves nobody waiting.
use serialrpc.Base.{
  ℕ, zero, suc, ◌<◌, ◌≡◌, ◌∙◌, refl, ap, ◌==◌, ==_refl, ==_iff, ◌||◌, if◌then◌else◌, Bool, true,
  false, All, Option, List, [], ◌∷◌, length, arith, Bool-cases, inl, inr,
}
use serialrpc.Io.{Bytes}
use serialrpc.Client.Queue.{CallData, Calls, update, pop_call_data, failed_call, fail_pending_calls}
use serialrpc.Client.Queue.Order.{
  Absent, Chain-update, Holds, pop_call_data-nil, pop_call_data-cons,
}

abbrev pub waits : ℕ → List ℕ → Bool
waits p [] = false
waits p (x ∷ xs) = x == p || waits p xs

pub Absent-waits : (p : ℕ) (xs : List ℕ) → Absent p xs → waits p xs ≡ false
Absent-waits p [] a = refl
Absent-waits p (x ∷ xs) (ne, a) = ground (arith, Absent-waits p xs a)

-- What holds of every call that waits.
pub All-waits : (P : ℕ → Type 0) (xs : List ℕ) → ((y : ℕ) → waits y xs ≡ true → P y) → All P xs
All-waits P [] f = tt
All-waits P (x ∷ xs) f =
    (f x (rw (==_refl x) refl), All-waits P xs (λ y. λ w. f y (ground (arith, w))))

module _ {R : Type 0} (text : Bytes) where
  round_lem :
      (fuel : ℕ) (c : Calls R) (x : ℕ) (xs : List ℕ)
      → Holds c (x ∷ xs)
      → let c' = (pop_call_data c).0 in
        fail_pending_calls (suc fuel) text c
        ≡ fail_pending_calls fuel text
            (record c' { cell = update c'.cell x (failed_call text (c'.cell x)) })
  unfolding fail_pending_calls
  round_lem fuel c x xs h = rw ((pop_call_data-cons c x xs h).0, fail_pending_calls) refl

  done_lem : (fuel : ℕ) (c : Calls R) → Holds c [] → fail_pending_calls (suc fuel) text c ≡ c
  unfolding fail_pending_calls
  done_lem fuel c h =
      rw (pop_call_data-nil c h, fail_pending_calls)
        (ap (λ (r : Calls R × Option ℕ). r.0) (pop_call_data-nil c h))

  failed_cells :
      (cell : ℕ → CallData R) (x p : ℕ) (xs : List ℕ)
      → Absent x xs
      → (if waits p xs
          then failed_call text (update cell x (failed_call text (cell x)) p)
          else update cell x (failed_call text (cell x)) p)
        ≡ (if waits p (x ∷ xs) then failed_call text (cell p) else cell p)
  failed_cells cell x p xs a = elim (Bool-cases (x == p)) [
    | inl same ↦
        let e : x ≡ p = (==_iff x p).0 same in rw (← e) (rw (Absent-waits x xs a, ==_refl x) refl)
    | inr other ↦ rw (other) refl
  ]

  -- With a round for each call that waits and one more, every waiting call has the error, is
  -- marked as failed and is notified; no other call is touched, and nobody waits any more.
  pub fail_pending_calls_lem :
      (fuel : ℕ) (c : Calls R) (xs : List ℕ)
      → Holds c xs
      → length xs < fuel
      → Holds (fail_pending_calls fuel text c) []
        × ((p : ℕ)
            → (fail_pending_calls fuel text c).cell p
              ≡ (if waits p xs then failed_call text (c.cell p) else c.cell p))
  fail_pending_calls_lem zero c xs h lt = absurd (omega arith)
  fail_pending_calls_lem (suc fuel) c [] h lt = rw (done_lem fuel c h) (h, λ p. refl)
  fail_pending_calls_lem (suc fuel) c (x ∷ xs) h lt =
      let (e, held, same) = pop_call_data-cons c x xs h in
      let c' = record (pop_call_data c).0 {
        cell = update (pop_call_data c).0.cell x (failed_call text ((pop_call_data c).0.cell x));
      } in
      let later : Holds c' xs = record {
        chain =
            Chain-update (pop_call_data c).0.cell x _ (pop_call_data c).0.head xs h.distinct.0
              held.chain;
        last = held.last;
        distinct = held.distinct;
      } in
      let (empty, cells) = fail_pending_calls_lem fuel c' xs later (omega arith) in
      rw (round_lem fuel c x xs h) (
        empty,
        λ p. cells p ∙ failed_cells (pop_call_data c).0.cell x p xs h.distinct.0 ∙ rw same refl,
      )
