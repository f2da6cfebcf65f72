-- ===== src/Encoding/Unmarshal.antt =====
-- `unmarshal` of each type, and the `unmarshal` that the generator writes for a message: a loop
-- over tags with a case for each field.
--
-- After a field that fails, the generated loop asks for one more tag before it sees the error; the
-- result is a failure either way, and the model stops at once.

pub mod Conforms
pub mod Structs
pub mod Values
pub mod RoundTrip
use serialrpc.Base.{
  ℕ, zero, suc, ◌+◌, ◌*◌, ◌==◌, if◌then◌else◌, ◌&&◌, not, Bool, true, false, List, [], ◌∷◌, length,
  Option, some, none, ltb,
}
use serialrpc.Io.{
  Io, Bytes, Source, Result, ok, err, ◌>>=◌, excessive_nesting, short_read, invalid_bool,
  out_of_fuel,
}
use serialrpc.Encoding.Tag.{Tag, end_tag, read_tag}
use serialrpc.Encoding.Skip.{skip_type, max_levels}
use serialrpc.Encoding.Chunked.{unmarshal_bytes}
use serialrpc.Encoding.Marshal.{
  Value, int32, uint32, int64, uint64, bool, float32, float64, text, message, Fields,
}
use serialrpc.Encoding.Schema.{
  Kind, int32_type, uint32_type, int64_type, uint64_type, bool_type, float32_type, float64_type,
  str_type, inline_type, message_type, repeated_type, Schema, lookup, default_fields, store,
}

-- `bytes[0] << 0 | bytes[1] << 8 | …`: the bytes are below 256, so that `|` is `+`.
unfoldable pub of_le_bytes : Bytes → ℕ
of_le_bytes [] = 0
of_le_bytes (b ∷ bs) = b + 256 * of_le_bytes bs

module _ (io : Io) where
  unfoldable pub unmarshal_float32 : Source → Result (ℕ × Source)
  unfolding of_le_bytes
  unmarshal_float32 s = do (bytes, s) ← io.read_full 4 s; ok (of_le_bytes bytes, s)

  unfoldable pub unmarshal_float64 : Source → Result (ℕ × Source)
  unfolding of_le_bytes
  unmarshal_float64 s = do (bytes, s) ← io.read_full 8 s; ok (of_le_bytes bytes, s)

  unfoldable pub unmarshal_bool : Source → Result (Bool × Source)
  unmarshal_bool s = do
    (b, s) ← io.read_byte s
    if not (b == 0) && not (b == 1) then err (invalid_bool b) else ok (not (b == 0), s)

  unfoldable pub unmarshal_str : Source → Result (Bytes × Source)
  unmarshal_str s = do
    (n, s) ← io.read_size s
    (t, s) ← io.skip n s
    if length t == n then ok (t, s) else err short_read

  mutual
    unfolding unmarshal_float32 unmarshal_float64 unmarshal_bool unmarshal_str unmarshal_bytes
        read_tag

    -- `levels` is `nesting + 1`, and 0 for a negative `nesting`.
    pub unmarshal_value : ℕ → Kind → ℕ → Source → Result (Value × Source)
    unmarshal_value zero kind levels s = err out_of_fuel
    unmarshal_value (suc fuel) int32_type levels s = do (v, s) ← io.read_sint32 s; ok (int32 v, s)
    unmarshal_value (suc fuel) uint32_type levels s = do (v, s) ← io.read_uint32 s; ok (uint32 v, s)
    unmarshal_value (suc fuel) int64_type levels s = do (v, s) ← io.read_sint64 s; ok (int64 v, s)
    unmarshal_value (suc fuel) uint64_type levels s = do (v, s) ← io.read_uint64 s; ok (uint64 v, s)
    unmarshal_value (suc fuel) bool_type levels s = do (v, s) ← unmarshal_bool s; ok (bool v, s)
    unmarshal_value (suc fuel) float32_type levels s = do
      (v, s) ← unmarshal_float32 s
      ok (float32 v, s)
    unmarshal_value (suc fuel) float64_type levels s = do
      (v, s) ← unmarshal_float64 s
      ok (float64 v, s)
    unmarshal_value (suc fuel) str_type levels s = do (v, s) ← unmarshal_str s; ok (text v, s)
    unmarshal_value (suc fuel) (inline_type capacity) levels s = do
      (v, s) ← unmarshal_bytes io capacity s
      ok (text v, s)
    unmarshal_value (suc fuel) (message_type schema) zero s = err excessive_nesting
    unmarshal_value (suc fuel) (message_type schema) (suc levels) s = do
      (m, s) ← unmarshal_fields fuel schema levels (default_fields schema) s
      ok (message m, s)
    unmarshal_value (suc fuel) (repeated_type schema) zero s = err excessive_nesting
    unmarshal_value (suc fuel) (repeated_type schema) (suc levels) s = do
      (m, s) ← unmarshal_fields fuel schema levels (default_fields schema) s
      ok (message m, s)

    -- The loop of a message's `unmarshal`; `levels` counts for `nesting - 1`.
    pub unmarshal_fields : ℕ → Schema → ℕ → Fields → Source → Result (Fields × Source)
    unmarshal_fields zero schema levels msg s = err out_of_fuel
    unmarshal_fields (suc fuel) schema levels msg s = do
      (tag, s) ← read_tag io s
      elim tag.type [
        | end_tag ↦ ok (msg, s)
        | type ↦ elim (lookup tag.field_num schema) [
          | some kind ↦ do
            (v, s) ← unmarshal_value fuel kind levels s
            unmarshal_fields fuel schema levels (store tag.field_num v msg) s
          | none ↦ do s ← skip_type io fuel type levels s; unmarshal_fields fuel schema levels msg s
        ]
      ]

  -- `T::unmarshal(in, err, MaxNesting)`.
  unfoldable pub unmarshal : ℕ → Schema → Source → Result (Fields × Source)
  unfolding unmarshal_fields
  unmarshal fuel schema s = unmarshal_fields fuel schema 128 (default_fields schema) s
