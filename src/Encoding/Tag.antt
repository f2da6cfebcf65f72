-- ===== src/Encoding/Tag.antt =====
-- Tags of fields: `struct Tag`, `read_tag` and `write_tag`.
pub mod RoundTrip
use serialrpc.Base.{
  ℕ, ◌+◌, ◌-◌, ◌*◌, ◌/◌, ◌%◌, ◌^◌, ◌<◌, ◌≤◌, ◌≡◌, refl, ap, ℤ, pos, negsuc, ltb, ◌==◌,
  if◌then◌else◌, arith, ◌++◌,
}
use serialrpc.Io.{Io, Sink, Source, Result, ok, err, ◌>>=◌}
use serialrpc.Io.Laws.{Laws}

-- `enum Type : byte`. A byte cast to it may be none of its names.
pub data TagType : Type 0 where
  var_int i64 len start end_tag i32 : TagType
  unknown : ℕ → TagType

unfoldable pub tag_type : ℕ → TagType
tag_type n =
    if n == 0
    then var_int
    else if n == 1
    then i64
    else if n == 2
    then len
    else if n == 3
    then start
    else if n == 4
    then end_tag
    else if n == 5
    then i32
    else unknown n

unfoldable pub code : TagType → ℕ
code var_int = 0
code i64 = 1
code len = 2
code start = 3
code end_tag = 4
code i32 = 5
code (unknown n) = n

pub record Tag : Type 0 where
  pub type : TagType
  pub field_num : ℤ

-- `n >> 3` for the int32 `n` that has the bits of the uint32 `v`.
unfoldable pub field_of_bits : ℕ → ℤ
field_of_bits v = if ltb v (2 ^ 31) then pos (v / 8) else negsuc (2 ^ 29 - 1 - v / 8)

unfoldable pub tag_of_bits : ℕ → Tag
unfolding tag_type field_of_bits
tag_of_bits v = record { type = tag_type (v % 8); field_num = field_of_bits v }

-- The low three bits of `field << 3` are 0, and a type has three: `|` is `+` there.
unfoldable pub bits_of_tag : ℕ → TagType → ℕ
unfolding code
bits_of_tag field type = field * 8 % 2 ^ 32 + code type

module _ (io : Io) where
  unfoldable pub read_tag : Source → Result (Tag × Source)
  unfolding tag_of_bits
  read_tag s = do (n, r) ← io.read_uint32 s; ok (tag_of_bits n, r)

  unfoldable pub write_tag : ℕ → TagType → Sink → Result Sink
  unfolding bits_of_tag
  write_tag field type w = io.write_uint32 (bits_of_tag field type) w
