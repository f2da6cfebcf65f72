-- ===== src/Internal/Uuid.antt =====
-- UUIDs as text.
use serialrpc.Base.{
  ℕ, suc, ◌/◌, ◌%◌, ◌<◌, ◌≡◌, refl, sym, ◌==◌, ◌||◌, if◌then◌else◌, Bool, true, false, [], ◌∷◌, All,
  arith,
}
use serialrpc.Io.{Bytes}
use serialrpc.Internal.{hex_digit, format_bytes, format_uuid}

hex_digit-injective : (a b : ℕ) → a < 16 → b < 16 → hex_digit a ≡ hex_digit b → a ≡ b
unfolding hex_digit
hex_digit-injective a b ha hb e = ground arith

pub hex_byte-injective :
    (x y : ℕ)
    → x < 256
    → y < 256
    → hex_digit (x / 16) ≡ hex_digit (y / 16)
    → hex_digit (x % 16) ≡ hex_digit (y % 16)
    → x ≡ y
hex_byte-injective x y hx hy high low =
    let h = hex_digit-injective (x / 16) (y / 16) (omega arith) (omega arith) high in
    let l = hex_digit-injective (x % 16) (y % 16) (omega arith) (omega arith) low in omega arith

-- A byte as text, behind a dash or not.
abbrev byte_text : Bool → ℕ → Bytes → Bytes
byte_text dash x rest =
    let digits = hex_digit (x / 16) ∷ (hex_digit (x % 16) ∷ rest) in
    if dash then 0x2d ∷ digits else digits

byte_text-injective :
    (dash : Bool) (x y : ℕ) (xs ys : Bytes)
    → x < 256
    → y < 256
    → byte_text dash x xs ≡ byte_text dash y ys
    → (x ≡ y) × (xs ≡ ys)
byte_text-injective true x y xs ys hx hy e =
    let high : hex_digit (x / 16) ≡ hex_digit (y / 16) = cc in
    let low : hex_digit (x % 16) ≡ hex_digit (y % 16) = cc in
    (hex_byte-injective x y hx hy high low, cc)
byte_text-injective false x y xs ys hx hy e =
    let high : hex_digit (x / 16) ≡ hex_digit (y / 16) = cc in
    let low : hex_digit (x % 16) ≡ hex_digit (y % 16) = cc in
    (hex_byte-injective x y hx hy high low, cc)

byte_text-nonempty : (dash : Bool) (x : ℕ) (xs : Bytes) → [] ≡ byte_text dash x xs → ⊥
byte_text-nonempty true x xs e = cc
byte_text-nonempty false x xs e = cc

abbrev has_dash : ℕ → Bool
has_dash i = i == 4 || i == 6 || i == 8 || i == 10

format_bytes-injective :
    (i : ℕ) (xs ys : Bytes)
    → All (λ x. x < 256) xs
    → All (λ y. y < 256) ys
    → format_bytes i xs ≡ format_bytes i ys
    → xs ≡ ys
unfolding format_bytes
format_bytes-injective i [] [] hx hy e = refl
format_bytes-injective i [] (y ∷ ys) hx hy e =
    absurd (byte_text-nonempty (has_dash i) y (format_bytes (suc i) ys) e)
format_bytes-injective i (x ∷ xs) [] hx hy e =
    absurd (byte_text-nonempty (has_dash i) x (format_bytes (suc i) xs) (sym e))
format_bytes-injective i (x ∷ xs) (y ∷ ys) (hx, hxs) (hy, hys) e =
    let (same, rest) =
      byte_text-injective (has_dash i) x y (format_bytes (suc i) xs) (format_bytes (suc i) ys) hx hy
        e in
    let later = format_bytes-injective (suc i) xs ys hxs hys rest in cc

-- Lists of bytes, numbers below 256, that `format_uuid` writes alike are the same.
pub format_uuid-injective :
    (xs ys : Bytes)
    → All (λ x. x < 256) xs
    → All (λ y. y < 256) ys
    → format_uuid xs ≡ format_uuid ys
    → xs ≡ ys
unfolding format_uuid
format_uuid-injective xs ys hx hy e = format_bytes-injective 0 xs ys hx hy e
