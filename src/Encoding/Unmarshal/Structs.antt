-- ===== src/Encoding/Unmarshal/Structs.antt =====
-- A struct in the middle of the loop of its `unmarshal`.
use serialrpc.Base.{
  ℕ, zero, suc, ◌+◌, ◌/◌, ◌^◌, ◌<◌, ◌≡◌, refl, ap, ◌==◌, ==_refl, Bool, false, ◌||◌, List, [], ◌∷◌,
  ◌++◌, pos, some, arith,
}
use native.Mathlib.Nat.{pow-suc}
use serialrpc.Encoding.Marshal.{
  le_bytes, Value, message, repeated, Fields, nil, field, Messages, none, more,
}
use serialrpc.Encoding.Schema.{
  Kind, message_type, repeated_type, Schema, end, entry, lookup, store, put, same_number, push_back,
}
use serialrpc.Encoding.Unmarshal.{of_le_bytes}

pub of_le_bytes-le_bytes : (n v : ℕ) → v < 256 ^ n → of_le_bytes (le_bytes n v) ≡ v
unfolding of_le_bytes le_bytes
of_le_bytes-le_bytes zero v h = omega arith
of_le_bytes-le_bytes (suc n) v h =
    omega (arith, of_le_bytes-le_bytes n (v / 256) (omega (arith, pow-suc)))

-- The struct in the middle of the loop: fields `done`, and the rest as they were.
unfoldable pub join : Fields → Fields → Fields
join nil rest = rest
join (field n v m) rest = field n v (join m rest)

unfoldable pub numbers : Fields → List ℕ
numbers nil = []
numbers (field n v m) = n ∷ numbers m

abbrev pub contains : ℕ → List ℕ → Bool
contains n [] = false
contains n (x ∷ xs) = x == n || contains n xs

pub store-join :
    (n : ℕ) (x old : Value) (done rest : Fields)
    → contains n (numbers done) ≡ false
    → store (pos n) x (join done (field n old rest)) ≡ join done (field n (put old x) rest)
unfolding store join numbers same_number
store-join n x old nil rest h = rw (==_refl n) refl
store-join n x old (field m v done) rest h = ground (arith, store-join n x old done rest)

pub join-snoc :
    (done rest : Fields) (n : ℕ) (v : Value)
    → join done (field n v rest) ≡ join (join done (field n v nil)) rest
unfolding join
join-snoc nil rest n v = refl
join-snoc (field m w done) rest n v = ap (field m w) (join-snoc done rest n v)

pub numbers-snoc :
    (done : Fields) (n : ℕ) (v : Value)
    → numbers (join done (field n v nil)) ≡ numbers done ++ n ∷ []
unfolding join numbers
numbers-snoc nil n v = refl
numbers-snoc (field m w done) n v = ap (◌∷◌ m) (numbers-snoc done n v)

pub join-nil : (done : Fields) → join done nil ≡ done
unfolding join
join-nil nil = refl
join-nil (field m w done) = ap (field m w) (join-nil done)

-- Each field number below 2^28 finds its own type in the whole schema, and none comes twice.
unfoldable pub Placed : Schema → List ℕ → Schema → Type 0
Placed whole seen end = Unit {0}
Placed whole seen (entry n kind schema) =
    (lookup (pos n) whole ≡ some kind)
    × (contains n seen ≡ false)
    × (n < 2 ^ 28)
    × Placed whole (seen ++ n ∷ []) schema

-- So also in every schema below.
unfoldable mutual
  unfolding Placed

  pub KindIsSound : Kind → Type 0
  KindIsSound (message_type schema) = Placed schema [] schema × IsSound schema
  KindIsSound (repeated_type schema) = Placed schema [] schema × IsSound schema
  KindIsSound _ = Unit {0}

  pub IsSound : Schema → Type 0
  IsSound end = Unit {0}
  IsSound (entry n kind schema) = KindIsSound kind × IsSound schema

unfoldable pub append : Messages → Messages → Messages
append none ys = ys
append (more x xs) ys = more x (append xs ys)

pub append-push_back :
    (xs ys : Messages) (x : Fields) → append (push_back xs x) ys ≡ append xs (more x ys)
unfolding append push_back
append-push_back none ys x = refl
append-push_back (more y xs) ys x = ap (more y) (append-push_back xs ys x)

pub append-none : (xs : Messages) → append xs none ≡ xs
unfolding append
append-none none = refl
append-none (more y xs) = ap (more y) (append-none xs)

-- How many rounds reading a message may take.
unfoldable mutual
  pub cost : Value → ℕ
  cost (message m) = 3 + cost_fields m
  cost (repeated ms) = cost_messages ms
  cost _ = 2

  pub cost_fields : Fields → ℕ
  cost_fields nil = 1
  cost_fields (field n v m) = cost v + cost_fields m

  pub cost_messages : Messages → ℕ
  cost_messages none = 0
  cost_messages (more m ms) = 3 + cost_fields m + cost_messages ms
