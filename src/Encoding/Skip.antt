-- ===== src/Encoding/Skip.antt =====
-- `skip`: step over a value of any wire type.
pub mod Unknown
pub mod Fuel
use serialrpc.Base.{ℕ, zero, suc, List}
use serialrpc.Io.{Io, Source, Result, ok, err, ◌>>=◌, excessive_nesting, invalid_tag, out_of_fuel}
use serialrpc.Encoding.Tag.{
  TagType, var_int, i64, len, start, end_tag, i32, unknown, Tag, tag_type, read_tag,
}

-- `nesting` counts down to -1. A number of levels is `nesting + 1`, and 0 for a negative `nesting`.
abbrev pub max_levels : ℕ
max_levels = 129

module _ (io : Io) where
  mutual
    unfolding read_tag

    pub skip_type : ℕ → TagType → ℕ → Source → Result Source
    skip_type zero type levels s = err out_of_fuel
    skip_type (suc fuel) var_int levels s = io.skip_varint s
    skip_type (suc fuel) i64 levels s = io.discard 8 s
    skip_type (suc fuel) len levels s = do (n, s) ← io.read_uint32 s; io.discard n s
    skip_type (suc fuel) start zero s = err excessive_nesting
    skip_type (suc fuel) start (suc levels) s = skip_message fuel levels s
    skip_type (suc fuel) end_tag levels s = ok s
    skip_type (suc fuel) i32 levels s = io.discard 4 s
    skip_type (suc fuel) (unknown n) levels s = err invalid_tag

    -- The loop of the Start case; `levels` is what `nesting - 1` leaves.
    pub skip_message : ℕ → ℕ → Source → Result Source
    skip_message zero levels s = err out_of_fuel
    skip_message (suc fuel) levels s = do
      (tag, s) ← read_tag io s
      elim tag.type [
        | end_tag ↦ ok s
        | other ↦ do s ← skip_type fuel other levels s; skip_message fuel levels s
      ]

  -- `skip(in, err)`: the tag is a whole byte here.
  unfoldable pub skip : ℕ → Source → Result Source
  unfolding skip_type tag_type
  skip fuel s = do (b, s) ← io.read_byte s; skip_type fuel (tag_type b) max_levels s
