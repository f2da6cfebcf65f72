-- ===== src/Encoding/Schema.antt =====
-- What the generator knows of a message: the fields' numbers and types. A struct is a `Fields`
-- with an entry for each of them, in their order.
use serialrpc.Base.{ℕ, ◌==◌, if◌then◌else◌, Bool, false, ℤ, pos, negsuc, Option, some, none, []}
use serialrpc.Encoding.Marshal.{
  Value, int32, uint32, int64, uint64, bool, float32, float64, text, message, repeated, Fields, nil,
  field, Messages, more,
}
use serialrpc.Encoding.Marshal

mutual
  pub data Kind : Type 0 where
    int32_type uint32_type int64_type uint64_type bool_type float32_type float64_type : Kind
    -- `str`, and `InlineString` with its capacity
    str_type : Kind
    inline_type : ℕ → Kind
    message_type : Schema → Kind
    -- a vector of messages
    repeated_type : Schema → Kind

  pub data Schema : Type 0 where
    end : Schema
    entry : ℕ → Kind → Schema → Schema

unfoldable mutual
  pub default_value : Kind → Value
  default_value int32_type = int32 (pos 0)
  default_value uint32_type = uint32 0
  default_value int64_type = int64 (pos 0)
  default_value uint64_type = uint64 0
  default_value bool_type = bool false
  default_value float32_type = float32 0
  default_value float64_type = float64 0
  default_value str_type = text []
  default_value (inline_type capacity) = text []
  default_value (message_type schema) = message (default_fields schema)
  default_value (repeated_type schema) = repeated Marshal.none

  pub default_fields : Schema → Fields
  default_fields end = nil
  default_fields (entry number kind schema) =
      field number (default_value kind) (default_fields schema)

-- `switch (tag.field_num) { case number: … }`.
unfoldable pub same_number : ℕ → ℤ → Bool
same_number n (pos m) = n == m
same_number n (negsuc m) = false

unfoldable pub lookup : ℤ → Schema → Option Kind
unfolding same_number
lookup num end = none
lookup num (entry number kind schema) =
    if same_number number num then some kind else lookup num schema

unfoldable pub push_back : Messages → Fields → Messages
push_back Marshal.none m = more m Marshal.none
push_back (more x xs) m = more x (push_back xs m)

-- `msg.name.push_back(v)` of a vector, `msg.name = v` of any other field.
unfoldable pub put : Value → Value → Value
unfolding push_back
put (repeated ms) (message m) = repeated (push_back ms m)
put (repeated ms) v = v
put old v = v

unfoldable pub store : ℤ → Value → Fields → Fields
unfolding same_number put
store num v nil = nil
store num v (field number old rest) =
    if same_number number num
    then field number (put old v) rest
    else field number old (store num v rest)
