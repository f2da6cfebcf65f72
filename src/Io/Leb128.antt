-- ===== src/Io/Leb128.antt =====
-- A concrete lib.io and lib.varint: sinks with room for everything, varints in little-endian groups
-- of seven bits, signed numbers by zigzag. It shows that `Laws`, `Fills` and `Progress` can be met.
use serialrpc.Base.{
  ℕ, zero, suc, ◌+◌, ◌-◌, ◌*◌, ◌/◌, ◌%◌, ◌^◌, ◌<◌, ◌≤◌, ◌≡◌, refl, sym, ap, ◌∙◌, ltb, lt→ltb,
  le→ltb, ◌==◌, if◌then◌else◌, Bool-cases, false, [], ◌∷◌, ◌++◌, length, is_empty, ℤ, pos, negsuc,
  Fits, arith, inl, inr, ◌⊎◌,
}
use native.Mathlib.Nat.{pow-suc}
use serialrpc.Io.{Io, Bytes, Source, Result, ok, err, ◌>>=◌, io_error}
use serialrpc.Io.Laws.{Laws, Fills, Progress, Within}

groups : ℕ → ℕ → Bytes
groups zero n = n ∷ []
groups (suc k) n =
    let rest = groups k (n / 128) in if ltb n 128 then n ∷ [] else (n % 128 + 128) ∷ rest

ungroup : Source → Result (ℕ × Source)
ungroup [] = err io_error
ungroup (b ∷ s) =
    let rest = ungroup s in
    if ltb b 128 then ok (b, s) else (do (n, r) ← rest; ok (b - 128 + 128 * n, r))

ungroup-groups : (k n : ℕ) (r : Source) → n < 128 ^ suc k → ungroup (groups k n ++ r) ≡ ok (n, r)
unfolding groups ungroup
ungroup-groups zero n r h = rw (lt→ltb n 128 (omega arith)) refl
ungroup-groups (suc k) n r h = elim (Bool-cases (ltb n 128)) [
  | inl small ↦ rw (small, small) refl
  | inr big ↦
      rw
        (
          big,
          le→ltb (n % 128 + 128) 128 (omega arith),
          ungroup-groups k (n / 128) r (omega (arith, pow-suc)),
        )
        (ap (λ (m : ℕ). ok (m, r)) (omega arith))
]

groups-nonempty : (k n : ℕ) → is_empty (groups k n) ≡ false
unfolding groups
groups-nonempty zero n = refl
groups-nonempty (suc k) n = ground arith

groups_small : (k n : ℕ) → n < 128 → groups k n ≡ n ∷ []
unfolding groups
groups_small zero n h = refl
groups_small (suc k) n h = rw (lt→ltb n 128 h) refl

ungroup_within :
    (s : Source)
    → ((n : ℕ) × (r : Source) × (ungroup s ≡ ok (n, r)) × (length r < length s))
      ⊎ (ungroup s ≡ err io_error)
unfolding ungroup
ungroup_within [] = inr refl
ungroup_within (b ∷ s) = elim (Bool-cases (ltb b 128)) [
  | inl small ↦ inl (b, s, rw small refl, omega arith)
  | inr big ↦ elim (ungroup_within s) [
    | inl (n, r, e, lt) ↦ inl (b - 128 + 128 * n, r, rw (big, e) refl, omega arith)
    | inr e ↦ inr (rw (big, e) refl)
  ]
]

zigzag : ℤ → ℕ
zigzag (pos n) = 2 * n
zigzag (negsuc n) = 2 * n + 1

unzigzag : ℕ → ℤ
unzigzag n = if n % 2 == 0 then pos (n / 2) else negsuc (n / 2)

unzigzag-zigzag : (z : ℤ) → unzigzag (zigzag z) ≡ z
unfolding zigzag unzigzag
unzigzag-zigzag (pos n) = ground arith
unzigzag-zigzag (negsuc n) = ground arith

zigzag-lt : (z : ℤ) → Fits 63 z → zigzag z < 2 ^ 64
unfolding zigzag
zigzag-lt (pos n) h = omega arith
zigzag-lt (negsuc n) h = omega arith

Fits-wider : (z : ℤ) → Fits 31 z → Fits 63 z
Fits-wider (pos n) h = omega arith
Fits-wider (negsuc n) h = omega arith

exactly : ℕ → Source → Result (Bytes × Source)
exactly zero s = ok ([], s)
exactly (suc n) [] = err io_error
exactly (suc n) (b ∷ s) = do (bs, r) ← exactly n s; ok (b ∷ bs, r)

exactly_lem : (bs : Bytes) (r : Source) → exactly (length bs) (bs ++ r) ≡ ok (bs, r)
unfolding exactly
exactly_lem [] r = refl
exactly_lem (b ∷ bs) r = rw (exactly_lem bs r) refl

drop_exactly : ℕ → Source → Result Source
drop_exactly n s = do (bs, r) ← exactly n s; ok r

exactly_cases :
    (n : ℕ) (s : Source)
    → ((bs : Bytes) × (r : Source) × (exactly n s ≡ ok (bs, r)) × (length r ≤ length s))
      ⊎ (exactly n s ≡ err io_error)
unfolding exactly
exactly_cases zero s = inl ([], s, refl, omega arith)
exactly_cases (suc n) [] = inr refl
exactly_cases (suc n) (b ∷ s) = elim (exactly_cases n s) [
  | inl (bs, r, e, le) ↦ inl (b ∷ bs, r, rw e refl, omega arith)
  | inr e ↦ inr (rw e refl)
]

exactly-Within : (n : ℕ) (s : Source) → Within (length s) (drop_exactly n s)
unfolding drop_exactly
exactly-Within n s = elim (exactly_cases n s) [
  | inl (bs, r, e, le) ↦ inl (r, rw e refl, le)
  | inr e ↦ inr (rw e refl)
]

head_byte : Source → Result (ℕ × Source)
head_byte [] = err io_error
head_byte (b ∷ r) = ok (b, r)

within : ℕ → Source → Result (ℕ × Source)
within limit s = do (n, r) ← ungroup s; if ltb n limit then ok (n, r) else err io_error

within_lem :
    (limit n : ℕ) (r : Source)
    → n < limit
    → n < 128 ^ 10
    → within limit (groups 9 n ++ r) ≡ ok (n, r)
unfolding within
within_lem limit n r lt h = rw (ungroup-groups 9 n r h, lt→ltb n limit lt) refl

signed : Source → Result (ℤ × Source)
signed s = do (n, r) ← ungroup s; ok (unzigzag n, r)

signed_lem : (z : ℤ) (r : Source) → Fits 63 z → signed (groups 9 (zigzag z) ++ r) ≡ ok (z, r)
unfolding signed
signed_lem z r h =
    rw (ungroup-groups 9 (zigzag z) r (omega (arith, zigzag-lt z h)), unzigzag-zigzag z) refl

skip_groups : Source → Result Source
skip_groups s = do (n, r) ← ungroup s; ok r

unfoldable pub leb128 : Io
unfolding groups ungroup zigzag unzigzag exactly drop_exactly head_byte within signed skip_groups
leb128 = record {
  write = λ bs w. ok (w ++ bs);
  write_byte = λ b w. ok (w ++ b ∷ []);
  flush = ok;
  write_uint32 = λ n w. ok (w ++ groups 9 n);
  write_uint64 = λ n w. ok (w ++ groups 9 n);
  write_size = λ n w. ok (w ++ groups 9 n);
  write_sint32 = λ z w. ok (w ++ groups 9 (zigzag z));
  write_sint64 = λ z w. ok (w ++ groups 9 (zigzag z));
  read_byte = head_byte;
  read_full = exactly;
  unfilled = λ n s. [];
  skip = exactly;
  discard = drop_exactly;
  read_uint32 = within (2 ^ 32);
  read_uint64 = within (2 ^ 64);
  read_size = within (2 ^ 63);
  read_sint32 = signed;
  read_sint64 = signed;
  skip_varint = skip_groups;
}

skip_groups_lem : (n : ℕ) (r : Source) → n < 2 ^ 64 → skip_groups (groups 9 n ++ r) ≡ ok r
unfolding skip_groups
skip_groups_lem n r h = rw (ungroup-groups 9 n r (omega arith)) refl

discard_lem : (bs : Bytes) (r : Source) → drop_exactly (length bs) (bs ++ r) ≡ ok r
unfolding drop_exactly
discard_lem bs r = rw (exactly_lem bs r) refl

within_cases :
    (limit : ℕ) (s : Source)
    → ((n : ℕ) × (r : Source) × (within limit s ≡ ok (n, r)) × (length r < length s))
      ⊎ (within limit s ≡ err io_error)
unfolding within
within_cases limit s = elim (ungroup_within s) [
  | inl (n, r, e, lt) ↦ elim (Bool-cases (ltb n limit)) [
    | inl fit ↦ inl (n, r, rw (e, fit) refl, lt)
    | inr big ↦ inr (rw (e, big) refl)
  ]
  | inr e ↦ inr (rw e refl)
]

skip-Within : (s : Source) → Within (length s) (skip_groups s)
unfolding skip_groups
skip-Within s = elim (ungroup_within s) [
  | inl (n, r, e, lt) ↦ inl (r, rw e refl, omega arith)
  | inr e ↦ inr (rw e refl)
]

pub leb128_laws : Laws leb128
unfolding leb128
leb128_laws = record {
  uvarint = groups 9;
  svarint = λ z. groups 9 (zigzag z);
  write_eq = λ bs w. refl;
  write_byte_eq = λ b w. refl;
  flush_eq = λ w. refl;
  write_uint32_eq = λ n w h. refl;
  write_uint64_eq = λ n w h. refl;
  write_size_eq = λ n w h. refl;
  write_sint32_eq = λ z w h. refl;
  write_sint64_eq = λ z w h. refl;
  read_byte_eq = λ b r. refl;
  read_full_eq = exactly_lem;
  skip_eq = exactly_lem;
  discard_eq = discard_lem;
  read_uint32_eq = λ n r h. within_lem (2 ^ 32) n r h (omega arith);
  read_uint64_eq = λ n r h. within_lem (2 ^ 64) n r h (omega arith);
  read_size_eq = λ n r h. within_lem (2 ^ 63) n r h (omega arith);
  read_sint32_eq = λ z r h. signed_lem z r (Fits-wider z h);
  read_sint64_eq = signed_lem;
  skip_uvarint_eq = skip_groups_lem;
  skip_svarint_eq = λ z r h. skip_groups_lem (zigzag z) r (zigzag-lt z h);
  uvarint_nonempty = groups-nonempty 9;
  uvarint_small = groups_small 9;
}

pub leb128-Progress : Progress leb128
unfolding leb128
leb128-Progress = record {
  read_uint32_within = within_cases (2 ^ 32);
  skip_varint_within = skip-Within;
  discard_within = exactly-Within;
}

exactly_fills :
    (n : ℕ) (s : Source) (bs : Bytes) (r : Source) → exactly n s ≡ ok (bs, r) → length bs ≡ n
unfolding exactly
exactly_fills zero s bs r e = let same : [] ≡ bs = cc in ap length (sym same)
exactly_fills (suc n) [] bs r e = absurd cc
exactly_fills (suc n) (b ∷ s) bs r e = elim (exactly_cases n s) [
  | inl (front, r', read, le) ↦
      let made : ok (b ∷ front, r') ≡ ok (bs, r) = rw (exactly, read) at e in
      let same : b ∷ front ≡ bs = cc in
      ap length (sym same) ∙ ap suc (exactly_fills n s front r' read)
  | inr bad ↦ let failed : err io_error ≡ ok (bs, r) = rw (exactly, bad) at e in absurd cc
]

pub leb128-Fills : Fills leb128
unfolding leb128
leb128-Fills = record { read_full_fills = exactly_fills; unfilled_within = λ n s. omega arith }
