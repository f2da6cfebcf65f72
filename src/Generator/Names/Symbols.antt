-- ===== src/Generator/Names/Symbols.antt =====
-- The symbols of the types of a service.
use serialrpc.Base.{
  ℕ, ◌/◌, ◌%◌, ◌≤◌, ◌<◌, Bool, true, false, le→ltb, Bool-cases, inl, inr, [], ◌∷◌, ◌++◌,
  if◌then◌else◌, All, ◌≡◌, ◌≢◌, refl, ap, sym, ◌∙◌, arith,
}
use serialrpc.Io.{Bytes}
use serialrpc.Internal.{hex_digit}
use serialrpc.Internal.Uuid.{hex_byte-injective}
use serialrpc.Generator.Names.{
  is_alnum, hex, symbol_of, filename_identifier, type_infix, type_symbol,
}

-- A byte whose hex code has two digits, as all that may be printed have.
abbrev pub HasTwoDigits : ℕ → Type 0
HasTwoDigits c = (16 ≤ c) × (c < 256)

symbol_alnum : (c : ℕ) → is_alnum c ≡ true → symbol_of c ≡ c ∷ []
unfolding symbol_of
symbol_alnum c e = rw e refl

symbol_other :
    (c : ℕ)
    → HasTwoDigits c
    → is_alnum c ≡ false
    → symbol_of c ≡ 0x5f ∷ hex_digit (c / 16) ∷ hex_digit (c % 16) ∷ []
unfolding symbol_of hex
symbol_other c (two, small) e = rw (e, le→ltb c 16 two) refl

underscore_not_alnum : (c : ℕ) → is_alnum c ≡ true → c ≢ 0x5f
unfolding is_alnum
underscore_not_alnum c e same = absurd (ground arith)

-- The first byte of the name, and the rest, can be told from the symbols.
symbol-injective :
    (x y : ℕ) (xs ys : Bytes)
    → HasTwoDigits x
    → HasTwoDigits y
    → symbol_of x ++ xs ≡ symbol_of y ++ ys
    → (x ≡ y) × (xs ≡ ys)
symbol-injective x y xs ys hx hy e = elim (Bool-cases (is_alnum x)) [
  | inl a ↦ elim (Bool-cases (is_alnum y)) [
    | inl b ↦
        let same : x ∷ xs ≡ y ∷ ys =
          ap (λ (s : Bytes). s ++ xs) (sym (symbol_alnum x a))
          ∙ e
          ∙ ap (λ (s : Bytes). s ++ ys) (symbol_alnum y b) in
        (cc, cc)
    | inr b ↦
        let same : x ∷ xs ≡ 0x5f ∷ hex_digit (y / 16) ∷ hex_digit (y % 16) ∷ ys =
          ap (λ (s : Bytes). s ++ xs) (sym (symbol_alnum x a))
          ∙ e
          ∙ ap (λ (s : Bytes). s ++ ys) (symbol_other y hy b) in
        absurd (underscore_not_alnum x a cc)
  ]
  | inr a ↦ elim (Bool-cases (is_alnum y)) [
    | inl b ↦
        let same : 0x5f ∷ hex_digit (x / 16) ∷ hex_digit (x % 16) ∷ xs ≡ y ∷ ys =
          ap (λ (s : Bytes). s ++ xs) (sym (symbol_other x hx a))
          ∙ e
          ∙ ap (λ (s : Bytes). s ++ ys) (symbol_alnum y b) in
        absurd (underscore_not_alnum y b cc)
    | inr b ↦
        let same : 0x5f ∷ hex_digit (x / 16) ∷ hex_digit (x % 16) ∷ xs
            ≡ 0x5f ∷ hex_digit (y / 16) ∷ hex_digit (y % 16) ∷ ys =
          ap (λ (s : Bytes). s ++ xs) (sym (symbol_other x hx a))
          ∙ e
          ∙ ap (λ (s : Bytes). s ++ ys) (symbol_other y hy b) in
        let high : hex_digit (x / 16) ≡ hex_digit (y / 16) = cc in
        let low : hex_digit (x % 16) ≡ hex_digit (y % 16) = cc in
        (hex_byte-injective x y hx.1 hy.1 high low, cc)
  ]
]

symbol_nonempty : (c : ℕ) (rest : Bytes) → symbol_of c ++ rest ≢ []
unfolding symbol_of
symbol_nonempty c rest e = elim (Bool-cases (is_alnum c)) [
  | inl a ↦
      absurd (
        let same : c ∷ rest ≡ [] = ap (λ (s : Bytes). s ++ rest) (sym (symbol_alnum c a)) ∙ e in cc)
  | inr a ↦ absurd (
      let same : 0x5f ∷ hex c ++ rest ≡ [] =
        ap (λ (b : Bool). (if b then c ∷ [] else 0x5f ∷ hex c) ++ rest) (sym a) ∙ e in
      cc)
]

pub filename_identifier-injective :
    (xs ys : Bytes)
    → All HasTwoDigits xs
    → All HasTwoDigits ys
    → filename_identifier xs ≡ filename_identifier ys
    → xs ≡ ys
unfolding filename_identifier
filename_identifier-injective [] [] hx hy e = refl
filename_identifier-injective [] (y ∷ ys) hx hy e =
    absurd (symbol_nonempty y (filename_identifier ys) (sym e))
filename_identifier-injective (x ∷ xs) [] hx hy e =
    absurd (symbol_nonempty x (filename_identifier xs) e)
filename_identifier-injective (x ∷ xs) (y ∷ ys) (h, hx) (k, hy) e =
    let parts = symbol-injective x y (filename_identifier xs) (filename_identifier ys) h k e in
    let rest = filename_identifier-injective xs ys hx hy parts.1 in let first = parts.0 in cc

append-cancel : (zs xs ys : Bytes) → zs ++ xs ≡ zs ++ ys → xs ≡ ys
append-cancel [] xs ys e = e
append-cancel (z ∷ zs) xs ys e = append-cancel zs xs ys cc

-- Two types of different names, of bytes from 16 on, have different symbols under a prefix.
pub type_symbol-distinct :
    (prefix xs ys : Bytes)
    → All HasTwoDigits xs
    → All HasTwoDigits ys
    → xs ≢ ys
    → type_symbol prefix xs ≢ type_symbol prefix ys
unfolding type_symbol
type_symbol-distinct prefix xs ys hx hy other e = other (
    filename_identifier-injective xs ys hx hy (
      append-cancel type_infix (filename_identifier xs) (filename_identifier ys) (
        append-cancel prefix (type_infix ++ filename_identifier xs)
          (type_infix ++ filename_identifier ys) e)))
