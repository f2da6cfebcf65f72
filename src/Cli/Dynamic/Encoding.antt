-- ===== src/Cli/Dynamic/Encoding.antt =====
-- A dynamic message is written like a struct.
use serialrpc.Base.{ℕ, zero, suc, ◌≤◌, ◌≡◌, refl, sym, ap, ◌∙◌, Bool, [], ◌++◌, arith}
use serialrpc.Io.{Io, Sink, Result, ok, ◌>>=◌}
use serialrpc.Io.Bind.{bind_assoc, bind_ext}
use serialrpc.Io.Laws.{Laws}
use serialrpc.Encoding.Stack.{Stack, push}
use serialrpc.Encoding.Marshal.{
  Value, int32, uint32, int64, uint64, bool, float32, float64, text, message, Fields, nil, field,
  close_message, marshal_value, marshal_fields, marshal,
}
use serialrpc.Encoding.Marshal.Encode.{encode, FieldsInRange, depth, depth_fields}
use serialrpc.Encoding.Marshal.Refines.{marshal-encode}
use serialrpc.Cli.Dynamic.{
  DynamicValue, cpp_int32, cpp_int64, cpp_uint32, cpp_uint64, cpp_double, cpp_float, cpp_bool,
  cpp_enum, cpp_string, cpp_message, DynamicMessage, no_fields, listed, DynamicValues, no_values,
  value, end_field, marshal_field_value, marshal_message, marshal_elements, marshal_dynamic,
}

-- The struct with the same fields: an enum is an int32, and a repeated field stands there once for
-- each of its elements.
unfoldable mutual
  pub as_value : DynamicValue → Value
  as_value (cpp_int32 v) = int32 v
  as_value (cpp_int64 v) = int64 v
  as_value (cpp_uint32 v) = uint32 v
  as_value (cpp_uint64 v) = uint64 v
  as_value (cpp_double v) = float64 v
  as_value (cpp_float v) = float32 v
  as_value (cpp_bool v) = bool v
  as_value (cpp_enum v) = int32 v
  as_value (cpp_string v) = text v
  as_value (cpp_message m) = message (as_fields m)

  pub as_fields : DynamicMessage → Fields
  as_fields no_fields = nil
  as_fields (listed number values rest) = elements number values (as_fields rest)

  pub elements : ℕ → DynamicValues → Fields → Fields
  elements number no_values rest = rest
  elements number (value v values) rest = field number (as_value v) (elements number values rest)

depth-rest :
    (number : ℕ) (values : DynamicValues) (rest : Fields) (n : ℕ)
    → depth_fields (elements number values rest) ≤ n
    → depth_fields rest ≤ n
unfolding depth_fields elements
depth-rest number no_values rest n le = le
depth-rest number (value v values) rest n le = depth-rest number values rest n (omega arith)

module _ (io : Io) (big : Bool) where
  mutual
    unfolding as_value depth marshal_field_value marshal_message marshal_elements marshal_value
        marshal_fields end_field close_message

    value_lem :
        (number : ℕ) (v : DynamicValue) (nesting : ℕ) (stack : Stack) (w : Sink)
        → depth (as_value v) ≤ nesting
        → marshal_field_value io big number v nesting stack w
          ≡ marshal_value io big number (as_value v) stack w
    value_lem number (cpp_int32 v) nesting stack w le = refl
    value_lem number (cpp_int64 v) nesting stack w le = refl
    value_lem number (cpp_uint32 v) nesting stack w le = refl
    value_lem number (cpp_uint64 v) nesting stack w le = refl
    value_lem number (cpp_double v) nesting stack w le = refl
    value_lem number (cpp_float v) nesting stack w le = refl
    value_lem number (cpp_bool v) nesting stack w le = refl
    value_lem number (cpp_enum v) nesting stack w le = refl
    value_lem number (cpp_string v) nesting stack w le = refl
    value_lem number (cpp_message m) zero stack w le = absurd (omega arith)
    value_lem number (cpp_message m) (suc nesting) stack w le =
        bind_ext (push number stack) _ _ (λ stack.
          ap (λ (r : Result (Stack × Sink)). r >>= λ (stack, w). close_message io stack w)
            (message_lem m nesting stack w (omega arith)))

    message_lem :
        (m : DynamicMessage) (nesting : ℕ) (stack : Stack) (w : Sink)
        → depth_fields (as_fields m) ≤ nesting
        → marshal_message io big m nesting stack w ≡ marshal_fields io big (as_fields m) stack w
    message_lem no_fields nesting stack w le = refl
    message_lem (listed number values rest) nesting stack w le =
        let shallow = depth-rest number values (as_fields rest) nesting le in
        sym (
          elements_lem number values (as_fields rest) nesting stack w le
          ∙ bind_ext (marshal_elements io big number values nesting stack w) _ _
              (λ ((stack, w) : Stack × Sink). sym (message_lem rest nesting stack w shallow)))

    elements_lem :
        (number : ℕ) (values : DynamicValues) (rest : Fields) (nesting : ℕ) (stack : Stack)
        (w : Sink)
        → depth_fields (elements number values rest) ≤ nesting
        → marshal_fields io big (elements number values rest) stack w ≡ (
            marshal_elements io big number values nesting stack w >>= λ ((stack, w) : Stack × Sink).
            marshal_fields io big rest stack w)
    elements_lem number no_values rest nesting stack w le = refl
    elements_lem number (value v values) rest nesting stack w le =
        ap
          (λ (r : Result (Stack × Sink)).
            r >>= λ (stack, w). marshal_fields io big (elements number values rest) stack w)
          (sym (value_lem number v nesting stack w (omega arith)))
        ∙ bind_ext (marshal_field_value io big number v nesting stack w) _ _
            (λ ((stack, w) : Stack × Sink).
              elements_lem number values rest nesting stack w (omega arith))
        ∙ sym (bind_assoc (marshal_field_value io big number v nesting stack w) _ _)

  -- A request from the command line whose messages nest at most 128 deep, each field in the range of
  -- its type, has the bytes of the struct with the same fields, so that a server reads it like one of
  -- a generated client.
  pub marshal_dynamic-encode :
      (laws : Laws io) (m : DynamicMessage) (w : Sink)
      → FieldsInRange (as_fields m)
      → depth_fields (as_fields m) ≤ 128
      → marshal_dynamic io big m w ≡ ok (w ++ encode io laws (as_fields m))
  unfolding marshal_dynamic marshal
  marshal_dynamic-encode laws m w fits shallow =
      rw (message_lem m 128 [] w shallow) (marshal-encode io big laws (as_fields m) w fits shallow)
