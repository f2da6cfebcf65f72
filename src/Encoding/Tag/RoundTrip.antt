-- ===== src/Encoding/Tag/RoundTrip.antt =====
-- What `read_tag` makes of the bytes of `write_tag`.
use serialrpc.Base.{
  ℕ, ◌-◌, ◌/◌, ◌%◌, ◌^◌, ◌<◌, ◌≡◌, refl, ap, ℤ, pos, negsuc, ltb, if◌then◌else◌, arith, ◌++◌, [],
}
use serialrpc.Io.{Io, Sink, Source, Bytes, ok}
use serialrpc.Io.Laws.{Laws}
use serialrpc.Encoding.Tag.{
  TagType, var_int, unknown, Tag, tag_type, code, field_of_bits, tag_of_bits, bits_of_tag, read_tag,
  write_tag,
}

-- The types that the program writes.
abbrev pub IsNamed : TagType → Type 0
IsNamed (unknown n) = ⊥
IsNamed var_int = Unit {0}
IsNamed _ = Unit {0}

pub code-lt : (t : TagType) → IsNamed t → code t < 6
unfolding code
code-lt (unknown n) h = absurd h
code-lt var_int h = omega arith
code-lt _ h = omega arith

pub tag_type-code : (t : TagType) → IsNamed t → tag_type (code t) ≡ t
unfolding code tag_type
tag_type-code (unknown n) h = absurd h
tag_type-code var_int h = refl
tag_type-code _ h = refl

pub bits_of_tag-lt : (f : ℕ) (t : TagType) → IsNamed t → bits_of_tag f t < 2 ^ 32
unfolding bits_of_tag
bits_of_tag-lt f t h = omega (arith, code-lt t h)

-- Where the field number comes back: itself, or for the upper half of protobuf's range negative.
abbrev pub wrapped : ℕ → ℤ
wrapped f = if ltb f (2 ^ 28) then pos f else negsuc (2 ^ 29 - 1 - f)

pub bits_mod : (f : ℕ) (t : TagType) → IsNamed t → bits_of_tag f t % 8 ≡ code t
unfolding bits_of_tag
bits_mod f t h = omega (arith, code-lt t h)

bits_div : (f : ℕ) (t : TagType) → IsNamed t → f < 2 ^ 29 → bits_of_tag f t / 8 ≡ f
unfolding bits_of_tag
bits_div f t h lt = omega (arith, code-lt t h)

field_of_bits_lem :
    (f : ℕ) (t : TagType) → IsNamed t → f < 2 ^ 29 → field_of_bits (bits_of_tag f t) ≡ wrapped f
unfolding field_of_bits
field_of_bits_lem f t h lt = ground (arith, bits_div f t h lt)

pub tag_of_bits_lem :
    (f : ℕ) (t : TagType)
    → IsNamed t
    → f < 2 ^ 29
    → tag_of_bits (bits_of_tag f t) ≡ record { type = t; field_num = wrapped f }
unfolding tag_of_bits
tag_of_bits_lem f t h lt = rw (bits_mod f t h, tag_type-code t h, field_of_bits_lem f t h lt) refl

module _ (io : Io) (laws : Laws io) where
  abbrev pub tag_bytes : ℕ → TagType → Bytes
  tag_bytes f t = laws.uvarint (bits_of_tag f t)

  pub write_tag_lem :
      (f : ℕ) (t : TagType) (w : Sink) → IsNamed t → write_tag io f t w ≡ ok (w ++ tag_bytes f t)
  unfolding write_tag
  write_tag_lem f t w h = laws.write_uint32_eq (bits_of_tag f t) w (bits_of_tag-lt f t h)

  -- For every field number of protobuf, below 2^29, reading a written tag gives the type back. The
  -- number comes back below 2^28, and is 2^29 too small from there on.
  pub read_tag-write_tag :
      (f : ℕ) (t : TagType) (r : Source)
      → IsNamed t
      → f < 2 ^ 29
      → (write_tag io f t [] ≡ ok (tag_bytes f t))
        × (read_tag io (tag_bytes f t ++ r) ≡ ok (record { type = t; field_num = wrapped f }, r))
  unfolding read_tag
  read_tag-write_tag f t r h lt = (
    write_tag_lem f t [] h,
    rw (laws.read_uint32_eq (bits_of_tag f t) r (bits_of_tag-lt f t h))
        (ap (λ (x : Tag). ok (x, r)) (tag_of_bits_lem f t h lt)),
  )
