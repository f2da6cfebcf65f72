-- ===== src/Client/Queue/Order.antt =====
-- Replies go to the calls in the order of their requests.
use serialrpc.Base.{
  ℕ, ◌≡◌, ◌≢◌, refl, sym, ap, subst, ◌==◌, ==_refl, if◌then◌else◌, false, Option, some, none, List,
  [], ◌∷◌, ◌++◌, arith,
}
use serialrpc.Client.Queue.{
  CallData, Calls, update, set_next, set_head, push_call_data, same_pointer, pop_from,
  pop_call_data,
}

abbrev pub Absent : ℕ → List ℕ → Type 0
Absent p [] = Unit {0}
Absent p (x ∷ xs) = (x ≢ p) × Absent p xs

abbrev pub Distinct : List ℕ → Type 0
Distinct [] = Unit {0}
Distinct (x ∷ xs) = Absent x xs × Distinct xs

-- The last address of `x ∷ xs`.
abbrev pub last_of : ℕ → List ℕ → ℕ
last_of x [] = x
last_of x (y ∷ ys) = last_of y ys

abbrev pub last_pointer : List ℕ → Option ℕ
last_pointer [] = none
last_pointer (x ∷ xs) = some (last_of x xs)

differs : (p x : ℕ) → x ≢ p → (p == x) ≡ false
differs p x ne = ground arith

flipped : (p x : ℕ) → x ≢ p → (x == p) ≡ false
flipped p x ne = ground arith

Absent-last_of : (x y : ℕ) (ys : List ℕ) → Absent x (y ∷ ys) → (x == last_of y ys) ≡ false
Absent-last_of x y [] (ne, a) = ground arith
Absent-last_of x y (z ∷ ys) (ne, a) = Absent-last_of x z ys a

tail_after_pop :
    (x : ℕ) (xs : List ℕ) (t : Option ℕ)
    → t ≡ last_pointer (x ∷ xs)
    → Distinct (x ∷ xs)
    → (if same_pointer x t then none else t) ≡ last_pointer xs
tail_after_pop x [] t e d = rw (e, ==_refl x) refl
tail_after_pop x (y ∷ ys) t e (a, d) = rw (e, Absent-last_of x y ys a) refl

last-snoc : (x : ℕ) (xs : List ℕ) (p : ℕ) → last_of x (xs ++ p ∷ []) ≡ p
last-snoc x [] p = refl
last-snoc x (y ∷ ys) p = last-snoc y ys p

last_pointer-snoc : (xs : List ℕ) (p : ℕ) → last_pointer (xs ++ p ∷ []) ≡ some p
last_pointer-snoc [] p = refl
last_pointer-snoc (x ∷ xs) p = ap some (last-snoc x xs p)

Absent-snoc : (q p : ℕ) (xs : List ℕ) → Absent q xs → p ≢ q → Absent q (xs ++ p ∷ [])
Absent-snoc q p [] a ne = (ne, tt)
Absent-snoc q p (x ∷ xs) (n, a) ne = (n, Absent-snoc q p xs a ne)

Distinct-snoc : (p : ℕ) (xs : List ℕ) → Distinct xs → Absent p xs → Distinct (xs ++ p ∷ [])
Distinct-snoc p [] d a = (tt, tt)
Distinct-snoc p (x ∷ xs) (b, d) (ne, a) =
    (Absent-snoc x p xs b (λ e. ne (sym e)), Distinct-snoc p xs d a)

last_differs : (x y : ℕ) (ys : List ℕ) → Absent x (y ∷ ys) → (last_of y ys == x) ≡ false
last_differs x y [] (ne, a) = ground arith
last_differs x y (z ∷ ys) (ne, a) = last_differs x z ys a

module _ {R : Type 0} where
  -- From `p` the `next` pointers lead through the addresses and end.
  abbrev pub Chain : (ℕ → CallData R) → Option ℕ → List ℕ → Type 0
  Chain cell p [] = p ≡ none
  Chain cell p (x ∷ xs) = (p ≡ some x) × Chain cell (cell x).next xs

  -- The list holds these calls, in this order.
  pub record Holds (c : Calls R) (xs : List ℕ) : Type 0 where
    pub chain : Chain c.cell c.head xs
    pub last : c.tail ≡ last_pointer xs
    pub distinct : Distinct xs

  pub Chain-update :
      (cell : ℕ → CallData R) (p : ℕ) (d : CallData R) (q : Option ℕ) (xs : List ℕ)
      → Absent p xs
      → Chain cell q xs
      → Chain (update cell p d) q xs
  Chain-update cell p d q [] a h = h
  Chain-update cell p d q (x ∷ xs) (ne, a) (e, h) =
      (e, rw (differs p x ne) (Chain-update cell p d (cell x).next xs a h))

  pub pop_call_data-nil : (c : Calls R) → Holds c [] → pop_call_data c ≡ (c, none)
  unfolding pop_call_data
  pop_call_data-nil c h = rw h.chain refl

  pop_from-cons :
      (c : Calls R) (x : ℕ) (xs : List ℕ) (p : Option ℕ)
      → p ≡ some x
      → Holds c (x ∷ xs)
      → ((pop_from p c).1 ≡ some x) × Holds (pop_from p c).0 xs × ((pop_from p c).0.cell ≡ c.cell)
  unfolding pop_from
  pop_from-cons c x xs none e h = cc
  pop_from-cons c x xs (some y) e h =
      let same : y ≡ x = ground arith in
      (
        e,
        record {
          chain = rw same h.chain.1;
          last = rw same (tail_after_pop x xs c.tail h.last h.distinct);
          distinct = h.distinct.1;
        },
        refl,
      )

  -- From a list that holds calls `pop_call_data` takes the first, and touches none of them.
  pub pop_call_data-cons :
      (c : Calls R) (x : ℕ) (xs : List ℕ)
      → Holds c (x ∷ xs)
      → ((pop_call_data c).1 ≡ some x)
        × Holds (pop_call_data c).0 xs
        × ((pop_call_data c).0.cell ≡ c.cell)
  unfolding pop_call_data
  pop_call_data-cons c x xs h = pop_from-cons c x xs c.head h.chain.0 h

  append_to : (ℕ → CallData R) → ℕ → ℕ → ℕ → CallData R
  append_to cell t p = update cell t (record (cell t) { next = some p })

  Chain-snoc :
      (cell : ℕ → CallData R) (q : Option ℕ) (x : ℕ) (ys : List ℕ) (p : ℕ)
      → Distinct (x ∷ ys)
      → Absent p (x ∷ ys)
      → (cell p).next ≡ none
      → Chain cell q (x ∷ ys)
      → Chain (append_to cell (last_of x ys) p) q ((x ∷ ys) ++ p ∷ [])
  unfolding append_to
  Chain-snoc cell q x [] p d (ne, a) fresh (e, h) =
      (e, (rw (==_refl x) refl, rw (flipped p x ne) fresh))
  Chain-snoc cell q x (y ∷ ys) p (b, d) (ne, a) fresh (e, h) =
      (e, rw (last_differs x y ys b) (Chain-snoc cell (cell x).next y ys p d a fresh h))

  push-Chain :
      (cell : ℕ → CallData R) (head tail : Option ℕ) (p : ℕ) (xs : List ℕ)
      → Chain cell head xs
      → tail ≡ last_pointer xs
      → Distinct xs
      → Absent p xs
      → (cell p).next ≡ none
      → Chain (set_next tail p cell) (set_head head p) (xs ++ p ∷ [])
  unfolding set_next set_head append_to
  push-Chain cell head tail p [] h e d a fresh = rw (h, e) (refl, fresh)
  push-Chain cell head tail p (x ∷ xs) h e d a fresh =
      subst (λ q. Chain (set_next tail p cell) (set_head q p) ((x ∷ xs) ++ p ∷ [])) (sym h.0)
        (subst (λ t. Chain (set_next t p cell) (some x) ((x ∷ xs) ++ p ∷ [])) (sym e)
          (Chain-snoc cell (some x) x xs p d a fresh (refl, h.1)))

  -- `start_request` puts a fresh call behind those that wait.
  pub push_call_data_lem :
      (p : ℕ) (c : Calls R) (xs : List ℕ)
      → Holds c xs
      → Absent p xs
      → (c.cell p).next ≡ none
      → Holds (push_call_data p c) (xs ++ p ∷ [])
  unfolding push_call_data
  push_call_data_lem p c xs h a fresh = record {
    chain = push-Chain c.cell c.head c.tail p xs h.chain h.last h.distinct a fresh;
    last = sym (last_pointer-snoc xs p);
    distinct = Distinct-snoc p xs h.distinct a;
  }
