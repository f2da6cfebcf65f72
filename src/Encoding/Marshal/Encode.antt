-- ===== src/Encoding/Marshal/Encode.antt =====
-- The wire format as a function of the message alone: the encoded message of README.md, but that a
-- true `bool` has a byte 1 behind its tag, as in encoding_impl.cc, where README.md has the tag alone.
use serialrpc.Base.{
  ℕ, suc, ◌^◌, ◌<◌, ◌==◌, if◌then◌else◌, not, Bool, [], ◌∷◌, ◌++◌, length, is_zero, is_empty, Fits,
}
use Prim.Native.Nat.{max}
use serialrpc.Io.{Io, Bytes}
use serialrpc.Io.Laws.{Laws}
use serialrpc.Encoding.Tag.{TagType, var_int, i64, len, start, end_tag, i32, code}
use serialrpc.Encoding.Tag.RoundTrip.{tag_bytes}
use serialrpc.Encoding.Marshal.{
  le_bytes, float32_is_zero, float64_is_zero, Value, int32, uint32, int64, uint64, bool, float32,
  float64, text, message, repeated, Fields, nil, field, Messages, none, more,
}

-- The bounds that the machine types of the values give, and texts of less than 4 GB.
unfoldable mutual
  pub InRange : Value → Type 0
  InRange (int32 v) = Fits 31 v
  InRange (uint32 v) = v < 2 ^ 32
  InRange (int64 v) = Fits 63 v
  InRange (uint64 v) = v < 2 ^ 64
  InRange (bool v) = Unit {0}
  InRange (float32 v) = v < 2 ^ 32
  InRange (float64 v) = v < 2 ^ 64
  InRange (text s) = length s < 2 ^ 32
  InRange (message m) = FieldsInRange m
  InRange (repeated ms) = MessagesInRange ms

  pub FieldsInRange : Fields → Type 0
  FieldsInRange nil = Unit {0}
  FieldsInRange (field number v rest) = InRange v × FieldsInRange rest

  pub MessagesInRange : Messages → Type 0
  MessagesInRange none = Unit {0}
  MessagesInRange (more m ms) = FieldsInRange m × MessagesInRange ms

-- How many messages stand one in another below a field.
unfoldable mutual
  pub depth : Value → ℕ
  depth (message m) = suc (depth_fields m)
  depth (repeated ms) = depth_messages ms
  depth _ = 0

  pub depth_fields : Fields → ℕ
  depth_fields nil = 0
  depth_fields (field number v rest) = max (depth v) (depth_fields rest)

  pub depth_messages : Messages → ℕ
  depth_messages none = 0
  depth_messages (more m ms) = max (suc (depth_fields m)) (depth_messages ms)

module _ (io : Io) (laws : Laws io) where
  -- A default value is left out.
  abbrev pub scalar : ℕ → TagType → Bool → Bytes → Bytes
  scalar number type default payload =
      if default then [] else tag_bytes io laws number type ++ payload

  -- A message between its tags; one with nothing in it is left out.
  abbrev pub wrap : ℕ → Bytes → Bytes
  wrap number body =
      if is_empty body then [] else tag_bytes io laws number start ++ (body ++ code end_tag ∷ [])

  unfoldable mutual
    pub encode_value : ℕ → Value → Bytes
    encode_value number (int32 v) = scalar number var_int (is_zero v) (laws.svarint v)
    encode_value number (uint32 v) = scalar number var_int (v == 0) (laws.uvarint v)
    encode_value number (int64 v) = scalar number var_int (is_zero v) (laws.svarint v)
    encode_value number (uint64 v) = scalar number var_int (v == 0) (laws.uvarint v)
    encode_value number (bool v) = scalar number var_int (not v) (1 ∷ [])
    encode_value number (float32 v) = scalar number i32 (float32_is_zero v) (le_bytes 4 v)
    encode_value number (float64 v) = scalar number i64 (float64_is_zero v) (le_bytes 8 v)
    encode_value number (text s) = scalar number len (length s == 0) (laws.uvarint (length s) ++ s)
    encode_value number (message m) = wrap number (encode_fields m)
    encode_value number (repeated ms) = encode_messages number ms

    pub encode_fields : Fields → Bytes
    encode_fields nil = []
    encode_fields (field number v rest) = encode_value number v ++ encode_fields rest

    pub encode_messages : ℕ → Messages → Bytes
    encode_messages number none = []
    encode_messages number (more m ms) = wrap number (encode_fields m) ++ encode_messages number ms

  unfoldable pub encode : Fields → Bytes
  unfolding encode_fields
  encode m = encode_fields m ++ code end_tag ∷ []
