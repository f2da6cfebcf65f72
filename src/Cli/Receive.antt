-- ===== src/Cli/Receive.antt =====
-- `detail::unmarshal` into a dynamic message. What google::protobuf does to the message is a parameter.
use serialrpc.Base.{ℕ, zero, suc, if◌then◌else◌, Bool, ℤ, Option, some, none}
use serialrpc.Io.{Io, Source, Result, ok, err, ◌>>=◌, excessive_nesting, out_of_fuel}
use serialrpc.Encoding.Tag.{end_tag, read_tag}
use serialrpc.Encoding.Skip.{skip_type}
use serialrpc.Encoding.Unmarshal.{
  unmarshal_float32, unmarshal_float64, unmarshal_bool, unmarshal_str,
}
use serialrpc.Cli.Dynamic.{
  DynamicValue, cpp_int32, cpp_int64, cpp_uint32, cpp_uint64, cpp_double, cpp_float, cpp_bool,
  cpp_enum, cpp_string,
}

-- `field->cpp_type()`.
pub data ScalarType : Type 0 where
  int32_type int64_type uint32_type uint64_type double_type float_type : ScalarType
  bool_type enum_type string_type : ScalarType

pub data CppType : Type 0 where
  scalar_type : ScalarType → CppType
  message_type : CppType

-- The descriptors and the reflection of messages `M` with fields `F`.
pub record Reflection (M F : Type 0) : Type 0 where
  pub find_field_by_number : M → ℤ → Option F
  pub is_repeated : F → Bool
  pub cpp_type : F → CppType
  -- `SetInt32` and its kin, and `AddInt32` and its kin
  pub set_value : F → DynamicValue → M → M
  pub add_value : F → DynamicValue → M → M
  -- the message that `MutableMessage` or `AddMessage` points to, and the message with that one changed
  pub mutable_message : F → M → M
  pub put_message : F → M → M → M
  pub new_message : F → M → M
  pub add_message : F → M → M → M

module _ (io : Io) where
  unfoldable pub unmarshal_scalar : ScalarType → Source → Result (DynamicValue × Source)
  unfolding unmarshal_float32 unmarshal_float64 unmarshal_bool unmarshal_str
  unmarshal_scalar int32_type s = do (v, s) ← io.read_sint32 s; ok (cpp_int32 v, s)
  unmarshal_scalar int64_type s = do (v, s) ← io.read_sint64 s; ok (cpp_int64 v, s)
  unmarshal_scalar uint32_type s = do (v, s) ← io.read_uint32 s; ok (cpp_uint32 v, s)
  unmarshal_scalar uint64_type s = do (v, s) ← io.read_uint64 s; ok (cpp_uint64 v, s)
  unmarshal_scalar double_type s = do (v, s) ← unmarshal_float64 io s; ok (cpp_double v, s)
  unmarshal_scalar float_type s = do (v, s) ← unmarshal_float32 io s; ok (cpp_float v, s)
  unmarshal_scalar bool_type s = do (v, s) ← unmarshal_bool io s; ok (cpp_bool v, s)
  unmarshal_scalar enum_type s = do (v, s) ← io.read_sint32 s; ok (cpp_enum v, s)
  unmarshal_scalar string_type s = do (v, s) ← unmarshal_str io s; ok (cpp_string v, s)

  module _ {M F : Type 0} (reflection : Reflection M F) where
    unfoldable pub store_value : F → DynamicValue → M → M
    store_value f v m =
        if reflection.is_repeated f then reflection.add_value f v m else reflection.set_value f v m

    unfoldable pub inner_message : F → M → M
    inner_message f m =
        if reflection.is_repeated f
        then reflection.new_message f m
        else reflection.mutable_message f m

    unfoldable pub store_message : F → M → M → M
    store_message f inner m =
        if reflection.is_repeated f
        then reflection.add_message f inner m
        else reflection.put_message f inner m

    mutual
      unfolding unmarshal_scalar store_value inner_message store_message read_tag

      -- It stands behind its check: `nesting` is not negative, and a message field makes the check for
      -- the message inside. An error leaves what has been read so far in the message, which is dropped.
      pub unmarshal_message : ℕ → ℕ → M → Source → Result (M × Source)
      unmarshal_message zero nesting m s = err out_of_fuel
      unmarshal_message (suc fuel) nesting m s = do
        (tag, s) ← read_tag io s
        elim tag.type [
          | end_tag ↦ ok (m, s)
          | type ↦ elim (reflection.find_field_by_number m tag.field_num) [
            | none ↦ do
              s ← skip_type io fuel type (suc nesting) s
              unmarshal_message fuel nesting m s
            | some f ↦ do
              (m, s) ← unmarshal_field fuel f (reflection.cpp_type f) nesting m s
              unmarshal_message fuel nesting m s
          ]
        ]

      pub unmarshal_field : ℕ → F → CppType → ℕ → M → Source → Result (M × Source)
      unmarshal_field zero f type nesting m s = err out_of_fuel
      unmarshal_field (suc fuel) f message_type zero m s = err excessive_nesting
      unmarshal_field (suc fuel) f message_type (suc nesting) m s = do
        (inner, s) ← unmarshal_message fuel nesting (inner_message f m) s
        ok (store_message f inner m, s)
      unmarshal_field (suc fuel) f (scalar_type type) nesting m s = do
        (v, s) ← unmarshal_scalar type s
        ok (store_value f v m, s)

    unfoldable pub unmarshal_dynamic : ℕ → M → Source → Result (M × Source)
    unfolding unmarshal_message
    unmarshal_dynamic fuel m s = unmarshal_message fuel 128 m s
