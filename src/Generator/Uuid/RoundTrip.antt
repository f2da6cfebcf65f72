-- ===== src/Generator/Uuid/RoundTrip.antt =====
-- The text of a UUID is read back.
use serialrpc.Base.{
  ℕ, zero, suc, ◌+◌, ◌*◌, ◌/◌, ◌%◌, ◌<◌, ◌≤◌, ◌≡◌, refl, sym, ap, subst, ◌∙◌, ◌==◌, ◌||◌,
  if◌then◌else◌, lt→leb, Bool, true, false, some, List, [], ◌∷◌, ◌++◌, append_assoc, append-nil,
  length, length-append, All, arith,
}
use serialrpc.Io.{Bytes}
use serialrpc.Internal.{hex_digit, format_bytes, format_uuid}
use serialrpc.Generator.Uuid.{
  digit_value, has_dash_at, next_byte, uuid_bytes, whole_uuid, uuid_string_to_bytes,
}

digit_value-hex_digit : (d : ℕ) → d < 16 → digit_value (hex_digit d) ≡ some d
unfolding digit_value hex_digit
digit_value-hex_digit d lt = ground arith

hex_digit_not_dash : (d : ℕ) → (hex_digit d == 0x2d) ≡ false
unfolding hex_digit
hex_digit_not_dash d = ground arith

next_byte_lem :
    (x : ℕ) (result : Bytes)
    → x < 256
    → length result < 16
    → next_byte (digit_value (hex_digit (x / 16))) (digit_value (hex_digit (x % 16))) result
      ≡ some (result ++ x ∷ [])
unfolding next_byte
next_byte_lem x result lt room =
    rw
      (
        digit_value-hex_digit (x / 16) (omega arith),
        digit_value-hex_digit (x % 16) (omega arith),
        lt→leb (length result) 16 room,
        whole,
      )
      refl
  where
    whole : 16 * (x / 16) + x % 16 ≡ x
    whole = omega arith

pair_read :
    (c d : ℕ) (result result' rest : Bytes)
    → (c == 0x2d) ≡ false
    → next_byte (digit_value c) (digit_value d) result ≡ some result'
    → uuid_bytes result (c ∷ (d ∷ rest)) ≡ uuid_bytes result' rest
unfolding uuid_bytes
pair_read c d result result' rest e n = rw (uuid_bytes, e, n) refl

-- The digits of a byte, behind a dash or not.
digits_read :
    (x : ℕ) (result rest : Bytes)
    → x < 256
    → length result < 16
    → uuid_bytes result (hex_digit (x / 16) ∷ (hex_digit (x % 16) ∷ rest))
      ≡ uuid_bytes (result ++ x ∷ []) rest
digits_read x result rest lt room =
    pair_read (hex_digit (x / 16)) (hex_digit (x % 16)) result (result ++ x ∷ []) rest
      (hex_digit_not_dash (x / 16)) (next_byte_lem x result lt room)

dash_read :
    (c d : ℕ) (result rest : Bytes)
    → uuid_bytes result (0x2d ∷ (c ∷ (d ∷ rest))) ≡ uuid_bytes result (c ∷ (d ∷ rest))
unfolding uuid_bytes
dash_read c d result rest = refl

byte_read :
    (dash : Bool) (x : ℕ) (result rest : Bytes)
    → x < 256
    → length result < 16
    → uuid_bytes result (
        let digits = hex_digit (x / 16) ∷ (hex_digit (x % 16) ∷ rest) in
        if dash then 0x2d ∷ digits else digits)
      ≡ uuid_bytes (result ++ x ∷ []) rest
byte_read true x result rest lt room =
    dash_read (hex_digit (x / 16)) (hex_digit (x % 16)) result rest
    ∙ digits_read x result rest lt room
byte_read false x result rest lt room = digits_read x result rest lt room

format_bytes_read :
    (i : ℕ) (xs result : Bytes)
    → All (λ x. x < 256) xs
    → length result + length xs ≤ 16
    → uuid_bytes result (format_bytes i xs) ≡ some (result ++ xs)
unfolding format_bytes uuid_bytes
format_bytes_read i [] result h le = ap some (sym (append-nil result))
format_bytes_read i (x ∷ xs) result (lt, h) le =
    byte_read (i == 4 || i == 6 || i == 8 || i == 10) x result (format_bytes (suc i) xs) lt
      (omega arith)
    ∙ format_bytes_read (suc i) xs (result ++ x ∷ []) h
        (omega (arith, length-append result (x ∷ [])))
    ∙ ap some (append_assoc result (x ∷ []) xs)

-- A list by its entries.
abbrev tabulate : ℕ → (ℕ → ℕ) → List ℕ
tabulate zero f = []
tabulate (suc n) f = f 0 ∷ tabulate n (λ i. f (suc i))

abbrev entry : List ℕ → ℕ → ℕ
entry [] i = 0
entry (x ∷ xs) zero = x
entry (x ∷ xs) (suc i) = entry xs i

tabulate-entry : (xs : List ℕ) → xs ≡ tabulate (length xs) (entry xs)
tabulate-entry [] = refl
tabulate-entry (x ∷ xs) = ap (◌∷◌ x) (tabulate-entry xs)

-- The text of 16 bytes has 36 characters, with dashes where they are wanted.
well_formed :
    (f : ℕ → ℕ)
    → uuid_string_to_bytes (format_uuid (tabulate 16 f))
      ≡ whole_uuid (uuid_bytes [] (format_uuid (tabulate 16 f)))
unfolding uuid_string_to_bytes format_uuid format_bytes has_dash_at
well_formed f = refl

-- The 16 bytes, numbers below 256, of a UUID are read back from its text.
pub uuid_string_to_bytes-format_uuid :
    (xs : Bytes)
    → length xs ≡ 16
    → All (λ x. x < 256) xs
    → uuid_string_to_bytes (format_uuid xs) ≡ some xs
unfolding format_uuid whole_uuid
uuid_string_to_bytes-format_uuid xs sixteen h =
    let tabulated : xs ≡ tabulate 16 (entry xs) =
      tabulate-entry xs ∙ ap (λ (n : ℕ). tabulate n (entry xs)) sixteen in
    let formed =
      subst
        (λ (ys : Bytes).
          uuid_string_to_bytes (format_uuid ys) ≡ whole_uuid (uuid_bytes [] (format_uuid ys)))
        (sym tabulated) (well_formed (entry xs)) in
    formed ∙ rw (format_bytes_read 0 xs [] h (omega arith), sixteen) refl
