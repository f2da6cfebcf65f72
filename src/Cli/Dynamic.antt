-- ===== src/Cli/Dynamic.antt =====
-- `detail::marshal` of a dynamic message.
pub mod Encoding
use serialrpc.Base.{ℕ, zero, suc, ◌+◌, ◌==◌, if◌then◌else◌, Bool, ℤ, List, [], ◌∷◌, length}
use serialrpc.Io.{Io, Bytes, Sink, Result, ok, err, ◌>>=◌, excessive_nesting}
use serialrpc.Encoding.Tag.{end_tag, code}
use serialrpc.Encoding.Stack.{Stack, push, pop}
use serialrpc.Encoding.Marshal.{
  marshal_int32, marshal_int64, marshal_uint32, marshal_uint64, marshal_float32, marshal_float64,
  marshal_bool, marshal_text,
}

mutual
  -- A field's value, by its `cpp_type()`.
  pub data DynamicValue : Type 0 where
    cpp_int32 cpp_int64 : ℤ → DynamicValue
    cpp_uint32 cpp_uint64 : ℕ → DynamicValue
    cpp_double cpp_float : ℕ → DynamicValue
    cpp_bool : Bool → DynamicValue
    cpp_enum : ℤ → DynamicValue
    cpp_string : Bytes → DynamicValue
    cpp_message : DynamicMessage → DynamicValue

  -- What `ListFields` lists: the number of a field and its elements, which are one for a field that
  -- is not repeated.
  pub data DynamicMessage : Type 0 where
    no_fields : DynamicMessage
    listed : ℕ → DynamicValues → DynamicMessage → DynamicMessage

  pub data DynamicValues : Type 0 where
    no_values : DynamicValues
    value : DynamicValue → DynamicValues → DynamicValues

-- The End byte of a message field, or its forgotten Start.
unfoldable pub end_field : Io → Stack → Sink → Result (Stack × Sink)
end_field io stack w =
    if length stack == 0
    then (do w ← io.write_byte (code end_tag) w; ok (stack, w))
    else (do stack ← pop stack; ok (stack, w))

module _ (io : Io) (big_endian : Bool) where
  -- `marshal_message` stands behind its check here: `nesting` is not negative, and a message field
  -- makes the check for the message inside.
  mutual
    unfolding push end_field

    pub marshal_field_value : ℕ → DynamicValue → ℕ → Stack → Sink → Result (Stack × Sink)
    marshal_field_value number (cpp_int32 v) nesting stack w = marshal_int32 io number v stack w
    marshal_field_value number (cpp_int64 v) nesting stack w = marshal_int64 io number v stack w
    marshal_field_value number (cpp_uint32 v) nesting stack w = marshal_uint32 io number v stack w
    marshal_field_value number (cpp_uint64 v) nesting stack w = marshal_uint64 io number v stack w
    marshal_field_value number (cpp_double v) nesting stack w =
        marshal_float64 io big_endian number v stack w
    marshal_field_value number (cpp_float v) nesting stack w =
        marshal_float32 io big_endian number v stack w
    marshal_field_value number (cpp_bool v) nesting stack w = marshal_bool io number v stack w
    marshal_field_value number (cpp_enum v) nesting stack w = marshal_int32 io number v stack w
    marshal_field_value number (cpp_string v) nesting stack w = marshal_text io number v stack w
    marshal_field_value number (cpp_message m) zero stack w = do
      stack ← push number stack
      err excessive_nesting
    marshal_field_value number (cpp_message m) (suc nesting) stack w = do
      stack ← push number stack
      (stack, w) ← marshal_message m nesting stack w
      end_field io stack w

    pub marshal_message : DynamicMessage → ℕ → Stack → Sink → Result (Stack × Sink)
    marshal_message no_fields nesting stack w = ok (stack, w)
    marshal_message (listed number values rest) nesting stack w = do
      (stack, w) ← marshal_elements number values nesting stack w
      marshal_message rest nesting stack w

    pub marshal_elements : ℕ → DynamicValues → ℕ → Stack → Sink → Result (Stack × Sink)
    marshal_elements number no_values nesting stack w = ok (stack, w)
    marshal_elements number (value v values) nesting stack w = do
      (stack, w) ← marshal_field_value number v nesting stack w
      marshal_elements number values nesting stack w

  unfoldable pub marshal_dynamic : DynamicMessage → Sink → Result Sink
  unfolding marshal_message
  marshal_dynamic message w = do
    (stack, w) ← marshal_message message 128 [] w
    io.write_byte (code end_tag) w
