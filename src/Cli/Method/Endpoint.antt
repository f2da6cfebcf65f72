-- ===== src/Cli/Method/Endpoint.antt =====
-- The number that the command line calls is the one that the server's table has for the method.
use mathlib.Core.List.{Permᴰ}
use serialrpc.Base.{
  ℕ, zero, suc, ◌+◌, ◌%◌, ◌^◌, ◌<◌, ◌≤◌, ◌≡◌, refl, sym, ap, subst, ◌∙◌, if◌then◌else◌, ltb, lt→ltb,
  le→ltb, true, false, Bool-cases, inl, inr, some, List, [], ◌∷◌, ◌++◌, length, get_elem?, All,
  arith,
}
use serialrpc.Io.{Bytes}
use serialrpc.Client.Hello.{same_bytes}
use serialrpc.Server.Dispatch.{Service}
use serialrpc.Server.Dispatch.Table.{endpoints, endpoints-cons}
use serialrpc.Cli.Method.{
  ListedMethod, ListedService, find_target, count_before, found_in, find_method,
}

-- The methods with a smaller ID.
abbrev smaller : ℕ → List ListedMethod → ℕ
smaller target [] = 0
smaller target (method ∷ methods) = (if ltb method.id target then 1 else 0) + smaller target methods

smaller_le : (target : ℕ) (methods : List ListedMethod) → smaller target methods ≤ length methods
smaller_le target [] = omega arith
smaller_le target (method ∷ methods) = let le = smaller_le target methods in ground (arith, le)

count_before_lem :
    (target : ℕ) (methods : List ListedMethod) (n : ℕ)
    → n + length methods < 2 ^ 32
    → count_before target methods n ≡ n + smaller target methods
unfolding count_before
count_before_lem target [] n lt = omega arith
count_before_lem target (method ∷ methods) n lt = elim (Bool-cases (ltb method.id target)) [
  | inl less ↦
      let small : (n + 1) % 2 ^ 32 ≡ n + 1 = omega arith in
      rw (less, small, count_before)
        (count_before_lem target methods (n + 1) (omega arith) ∙ omega arith)
  | inr more ↦
      rw (more, count_before) (count_before_lem target methods n (omega arith) ∙ omega arith)
]

smaller-Permᴰ :
    (target : ℕ) {xs ys : List ListedMethod} → Permᴰ xs ys → smaller target xs ≡ smaller target ys
smaller-Permᴰ target Permᴰ.nil = refl
smaller-Permᴰ target (Permᴰ.cons {a = a} {b = b} e p) =
    let rest = smaller-Permᴰ target p in
    let same : a.id ≡ b.id = ap (λ (m : ListedMethod). m.id) e in rw (rest, same) refl
smaller-Permᴰ target (Permᴰ.swap {a = a} {b = b} {a' = a'} {b' = b'} e f) =
    let first : a.id ≡ b'.id = ap (λ (m : ListedMethod). m.id) e in
    let second : b.id ≡ a'.id = ap (λ (m : ListedMethod). m.id) f in
    rw (first, second) (omega arith)
smaller-Permᴰ target (Permᴰ.trans p q) = smaller-Permᴰ target p ∙ smaller-Permᴰ target q

-- The order of the generator's table: by ID, and no two alike.
abbrev pub Ascending : List ListedMethod → Type 0
Ascending [] = Unit {0}
Ascending (method ∷ methods) = All (λ m. method.id < m.id) methods × Ascending methods

smaller_above :
    (x : ℕ) (methods : List ListedMethod) → All (λ m. x < m.id) methods → smaller x methods ≡ 0
smaller_above x [] h = refl
smaller_above x (method ∷ methods) (lt, h) =
    rw (le→ltb method.id x (omega arith), smaller_above x methods h) refl

All-get {ℓ κ} :
    {A : Type ℓ} (P : A → Type κ) (xs : List A) (i : ℕ) (x : A)
    → All P xs
    → get_elem? xs i ≡ some x
    → P x
All-get P [] i x h e = absurd cc
All-get P (y ∷ ys) zero x (p, h) e = let same : y ≡ x = cc in subst P same p
All-get P (y ∷ ys) (suc i) x (p, h) e = All-get P ys i x h e

smaller_at :
    (table : List ListedMethod) (k : ℕ) (target : ListedMethod)
    → Ascending table
    → get_elem? table k ≡ some target
    → smaller target.id table ≡ k
smaller_at [] k target h e = absurd cc
smaller_at (method ∷ methods) zero target (above, h) e =
    let same : method ≡ target = cc in
    let same_id : method.id ≡ target.id = ap (λ (m : ListedMethod). m.id) same in
    let first : smaller method.id (method ∷ methods) ≡ 0 =
      rw (le→ltb method.id method.id (omega arith), smaller_above method.id methods above) refl in
    ap (λ (x : ℕ). smaller x (method ∷ methods)) (sym same_id) ∙ first
smaller_at (method ∷ methods) (suc k) target (above, h) e =
    let less = All-get (λ m. method.id < m.id) methods k target above e in
    rw (lt→ltb method.id target.id less, smaller_at methods k target h e) (omega arith)

-- A place in the table is no greater than the number of the methods.
pub place_within :
    (methods table : List ListedMethod) (k : ℕ) (target : ListedMethod)
    → Permᴰ methods table
    → Ascending table
    → get_elem? table k ≡ some target
    → k ≤ length methods
place_within methods table k target order ascending at =
    let place = smaller-Permᴰ target.id order ∙ smaller_at table k target ascending at in
    omega (arith, place, smaller_le target.id methods)

module _ {S : Type 0} where
  -- The listing has as many methods for each service as its table has entries.
  abbrev pub Lists : List (Service S) → List ListedService → Type 0
  Lists [] [] = Unit {0}
  Lists [] (listed ∷ rest) = ⊥
  Lists (service ∷ services) [] = ⊥
  Lists (service ∷ services) (listed ∷ rest) =
      (length listed.methods ≡ length service.dispatch_table) × Lists services rest

  skipped :
      (service_name method_name : Bytes) (before : List (Service S))
      (listed rest : List ListedService) (n : ℕ)
      → Lists before listed
      → All (λ s. same_bytes s.name service_name ≡ false) listed
      → n + endpoints before < 2 ^ 32
      → find_method service_name method_name n (listed ++ rest)
        ≡ find_method service_name method_name (n + endpoints before) rest
  unfolding find_method
  skipped service_name method_name [] [] rest n h others lt =
      ap (λ (k : ℕ). find_method service_name method_name k rest) (omega arith)
  skipped service_name method_name [] (listed ∷ more) rest n h others lt = absurd h
  skipped service_name method_name (service ∷ before) [] rest n h others lt = absurd h
  skipped service_name method_name (service ∷ before) (listed ∷ more) rest n (same, h)
        (other, others) lt =
      let split = endpoints-cons service before in
      let moved : (n + length listed.methods % 2 ^ 32) % 2 ^ 32
          ≡ n + length service.dispatch_table =
        omega (arith, same, split) in
      rw (other, moved, find_method)
        (skipped service_name method_name before more rest (n + length service.dispatch_table) h
            others (omega (arith, split))
          ∙ ap (λ (k : ℕ). find_method service_name method_name k rest) (omega (arith, split)))

  -- A listing names every service before one, the first with the name, with as many methods as the
  -- server's table has for it. A method of the service, the first with its name, that is entry `k` of
  -- its table, in which the methods stand by ascending ID, gets the number that the server gives to that
  -- entry, if the endpoints up to the service's last are fewer than 2^32 - 1: one more than the endpoints
  -- in front and `k`.
  pub find_method-numbers :
      (service_name method_name : Bytes) (before : List (Service S))
      (listed after : List ListedService) (service : ListedService) (table : List ListedMethod)
      (k : ℕ) (target : ListedMethod)
      → Lists before listed
      → All (λ s. same_bytes s.name service_name ≡ false) listed
      → same_bytes service.name service_name ≡ true
      → find_target method_name service.methods ≡ some target
      → Permᴰ service.methods table
      → Ascending table
      → get_elem? table k ≡ some target
      → endpoints before + length service.methods + 1 < 2 ^ 32
      → find_method service_name method_name 1 (listed ++ service ∷ after)
        ≡ some (endpoints before + k + 1, service, target)
  unfolding find_method found_in
  find_method-numbers service_name method_name before listed after service table k target h others
        named found order ascending at lt =
      let numbered =
        count_before_lem target.id service.methods (1 + endpoints before) (omega arith) in
      let place = smaller-Permᴰ target.id order ∙ smaller_at table k target ascending at in
      let number : count_before target.id service.methods (1 + endpoints before)
          ≡ endpoints before + k + 1 =
        omega (arith, numbered, place) in
      skipped service_name method_name before listed (service ∷ after) 1 h others (omega arith)
      ∙ rw (named, found, number, found_in) refl
