-- ===== src/Encoding/Marshal.antt =====
-- `marshal_field` and `marshal`, and the `marshal` that the generator writes for a message: one
-- `marshal_field` for each field, with a return on an error. Neither looks at `nesting`.
pub mod Encode
pub mod Refines
use serialrpc.Base.{
  ℕ, ◌+◌, ◌-◌, ◌*◌, ◌/◌, ◌%◌, ◌^◌, ◌==◌, if◌then◌else◌, ◌||◌, not, Bool, true, false, List, [], ◌∷◌,
  ◌++◌, length, reverse, ℤ, is_zero, zero, suc,
}
use serialrpc.Io.{Io, Sink, Bytes, Result, ok, err, ◌>>=◌}
use serialrpc.Encoding.Tag.{TagType, var_int, i64, len, start, end_tag, i32, code, write_tag}
use serialrpc.Encoding.Stack.{Stack, push, pop, clear}

-- The `n` low bytes of a number, the lowest first.
unfoldable pub le_bytes : ℕ → ℕ → Bytes
le_bytes zero v = []
le_bytes (suc n) v = (v % 256) ∷ le_bytes n (v / 256)

-- `bit_cast` to an array of bytes on a machine of either byte order.
unfoldable pub native_bytes : Bool → ℕ → ℕ → Bytes
unfolding le_bytes
native_bytes big n v = if big then reverse (le_bytes n v) else le_bytes n v

-- A float is its IEEE-754 bits; `val == 0` holds of both zeros.
unfoldable pub float32_is_zero : ℕ → Bool
float32_is_zero v = v == 0 || v == 2 ^ 31

unfoldable pub float64_is_zero : ℕ → Bool
float64_is_zero v = v == 0 || v == 2 ^ 63

mutual
  -- The types that `marshal_field` takes.
  pub data Value : Type 0 where
    int32 : ℤ → Value
    uint32 : ℕ → Value
    int64 : ℤ → Value
    uint64 : ℕ → Value
    bool : Bool → Value
    float32 : ℕ → Value
    float64 : ℕ → Value
    text : Bytes → Value
    message : Fields → Value
    repeated : Messages → Value

  -- The fields of a generated struct, in the order of their `marshal_field` calls.
  pub data Fields : Type 0 where
    nil : Fields
    field : ℕ → Value → Fields → Fields

  pub data Messages : Type 0 where
    none : Messages
    more : Fields → Messages → Messages

module _ (io : Io) where
  unfoldable pub write_starts : List ℕ → Sink → Result Sink
  write_starts [] w = ok w
  write_starts (elem ∷ elems) w = do w ← write_tag io elem start w; write_starts elems w

  unfoldable pub write_tags : ℕ → TagType → Stack → Sink → Result (Stack × Sink)
  unfolding write_starts clear
  write_tags number type stack w = do
    w ← write_starts stack w
    w ← write_tag io number type w
    ok (clear stack, w)

  -- The end of each `marshal_field` of a scalar: the tags, then the payload.
  unfoldable pub tagged : ℕ → TagType → (Sink → Result Sink) → Stack → Sink → Result (Stack × Sink)
  unfolding write_tags
  tagged number type payload stack w = do
    (stack, w) ← write_tags number type stack w
    w ← payload w
    ok (stack, w)

  unfoldable pub marshal_int32 : ℕ → ℤ → Stack → Sink → Result (Stack × Sink)
  unfolding tagged
  marshal_int32 number val stack w =
      if is_zero val then ok (stack, w) else tagged number var_int (io.write_sint32 val) stack w

  unfoldable pub marshal_int64 : ℕ → ℤ → Stack → Sink → Result (Stack × Sink)
  unfolding tagged
  marshal_int64 number val stack w =
      if is_zero val then ok (stack, w) else tagged number var_int (io.write_sint64 val) stack w

  unfoldable pub marshal_uint32 : ℕ → ℕ → Stack → Sink → Result (Stack × Sink)
  unfolding tagged
  marshal_uint32 number val stack w =
      if val == 0 then ok (stack, w) else tagged number var_int (io.write_uint32 val) stack w

  unfoldable pub marshal_uint64 : ℕ → ℕ → Stack → Sink → Result (Stack × Sink)
  unfolding tagged
  marshal_uint64 number val stack w =
      if val == 0 then ok (stack, w) else tagged number var_int (io.write_uint64 val) stack w

  unfoldable pub marshal_bool : ℕ → Bool → Stack → Sink → Result (Stack × Sink)
  unfolding tagged
  marshal_bool number val stack w =
      if not val then ok (stack, w) else tagged number var_int (io.write_byte 1) stack w

  unfoldable pub write_text : Bytes → Sink → Result Sink
  write_text s w = do w ← io.write_size (length s) w; io.write s w

  unfoldable pub marshal_text : ℕ → Bytes → Stack → Sink → Result (Stack × Sink)
  unfolding tagged write_text
  marshal_text number s stack w =
      if length s == 0 then ok (stack, w) else tagged number len (write_text s) stack w

  -- After `T::marshal` of a message field: an End byte if its Start was written, else forget it.
  unfoldable pub close_message : Stack → Sink → Result (Stack × Sink)
  unfolding pop
  close_message stack w =
      if length stack == 0
      then (do w ← io.write_byte (code end_tag) w; ok (stack, w))
      else (do stack ← pop stack; ok (stack, w))

module _ (io : Io) (big_endian : Bool) where
  -- `if constexpr (big) std::reverse(b)`.
  unfoldable pub wire_bytes : ℕ → ℕ → Bytes
  unfolding native_bytes
  wire_bytes n v = let b = native_bytes big_endian n v in if big_endian then reverse b else b

  unfoldable pub marshal_float32 : ℕ → ℕ → Stack → Sink → Result (Stack × Sink)
  unfolding tagged float32_is_zero wire_bytes
  marshal_float32 number val stack w =
      if float32_is_zero val
      then ok (stack, w)
      else tagged io number i32 (io.write (wire_bytes 4 val)) stack w

  unfoldable pub marshal_float64 : ℕ → ℕ → Stack → Sink → Result (Stack × Sink)
  unfolding tagged float64_is_zero wire_bytes
  marshal_float64 number val stack w =
      if float64_is_zero val
      then ok (stack, w)
      else tagged io number i64 (io.write (wire_bytes 8 val)) stack w

  unfoldable mutual
    unfolding close_message push code

    pub marshal_value : ℕ → Value → Stack → Sink → Result (Stack × Sink)
    marshal_value number (int32 v) stack w = marshal_int32 io number v stack w
    marshal_value number (uint32 v) stack w = marshal_uint32 io number v stack w
    marshal_value number (int64 v) stack w = marshal_int64 io number v stack w
    marshal_value number (uint64 v) stack w = marshal_uint64 io number v stack w
    marshal_value number (bool v) stack w = marshal_bool io number v stack w
    marshal_value number (float32 v) stack w = marshal_float32 number v stack w
    marshal_value number (float64 v) stack w = marshal_float64 number v stack w
    marshal_value number (text s) stack w = marshal_text io number s stack w
    marshal_value number (message m) stack w = do
      stack ← push number stack
      (stack, w) ← marshal_fields m stack w
      close_message io stack w
    marshal_value number (repeated ms) stack w = marshal_messages number ms stack w

    pub marshal_fields : Fields → Stack → Sink → Result (Stack × Sink)
    marshal_fields nil stack w = ok (stack, w)
    marshal_fields (field number v rest) stack w = do
      (stack, w) ← marshal_value number v stack w
      marshal_fields rest stack w

    -- The body of the vector's loop is `marshal_field` of a message once more.
    pub marshal_messages : ℕ → Messages → Stack → Sink → Result (Stack × Sink)
    marshal_messages number none stack w = ok (stack, w)
    marshal_messages number (more m ms) stack w = do
      stack ← push number stack
      (stack, w) ← marshal_fields m stack w
      (stack, w) ← close_message io stack w
      marshal_messages number ms stack w

  unfoldable pub marshal : Fields → Sink → Result Sink
  unfolding marshal_fields code
  marshal m w = do (stack, w) ← marshal_fields m [] w; io.write_byte (code end_tag) w
