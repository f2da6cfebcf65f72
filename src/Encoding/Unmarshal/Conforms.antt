-- ===== src/Encoding/Unmarshal/Conforms.antt =====
-- Structs of a schema, and what of a message survives the wire format.
use serialrpc.Base.{
  ℕ, suc, ◌+◌, ◌^◌, ◌<◌, ◌≤◌, ◌≡◌, ◌∙◌, refl, ap, ◌==◌, ==_refl, if◌then◌else◌, Bool, true, false,
  ◌||◌, ◌&&◌, not, List, [], ◌∷◌, ◌++◌, length, is_empty, is_zero, ℤ, pos, negsuc, Option, some,
  arith, Bool-cases, inl, inr, append_assoc, is_empty-append, is_empty-append_both,
}
use serialrpc.Base
use serialrpc.Io.{Io, Bytes}
use serialrpc.Io.Laws.{Laws}
use serialrpc.Encoding.Tag.{TagType}
use serialrpc.Encoding.Marshal.{
  float32_is_zero, float64_is_zero, Value, int32, uint32, int64, uint64, bool, float32, float64,
  text, message, repeated, Fields, nil, field, Messages, none, more,
}
use serialrpc.Encoding.Marshal.Encode.{encode_value, encode_fields, encode_messages, wrap, scalar}
use serialrpc.Encoding.Schema.{
  Kind, int32_type, uint32_type, int64_type, uint64_type, bool_type, float32_type, float64_type,
  str_type, inline_type, message_type, repeated_type, Schema, end, entry, default_value,
  default_fields,
}

-- The value fits the type that the schema gives its field.
mutual
  pub data HasKind : Kind → Value → Type 0 where
    int32_has : {v : ℤ} → HasKind int32_type (int32 v)
    uint32_has : {v : ℕ} → HasKind uint32_type (uint32 v)
    int64_has : {v : ℤ} → HasKind int64_type (int64 v)
    uint64_has : {v : ℕ} → HasKind uint64_type (uint64 v)
    bool_has : {v : Bool} → HasKind bool_type (bool v)
    float32_has : {v : ℕ} → HasKind float32_type (float32 v)
    float64_has : {v : ℕ} → HasKind float64_type (float64 v)
    str_has : {s : Bytes} → HasKind str_type (text s)
    inline_has :
        {capacity : ℕ} {s : Bytes} → length s ≤ capacity → HasKind (inline_type capacity) (text s)
    message_has :
        {schema : Schema} {m : Fields}
        → Conforms schema m
        → HasKind (message_type schema) (message m)
    repeated_has :
        {schema : Schema} {ms : Messages}
        → AllConform schema ms
        → HasKind (repeated_type schema) (repeated ms)

  pub data Conforms : Schema → Fields → Type 0 where
    end_conforms : Conforms end nil
    entry_conforms :
        {n : ℕ} {kind : Kind} {schema : Schema} {v : Value} {m : Fields}
        → HasKind kind v
        → Conforms schema m
        → Conforms (entry n kind schema) (field n v m)

  pub data AllConform : Schema → Messages → Type 0 where
    none_conform : {schema : Schema} → AllConform schema none
    more_conform :
        {schema : Schema} {m : Fields} {ms : Messages}
        → Conforms schema m
        → AllConform schema ms
        → AllConform schema (more m ms)

-- Every field has its default value, or is a vector of such messages.
unfoldable mutual
  unfolding float32_is_zero float64_is_zero

  pub is_blank : Value → Bool
  is_blank (int32 v) = is_zero v
  is_blank (uint32 v) = v == 0
  is_blank (int64 v) = is_zero v
  is_blank (uint64 v) = v == 0
  is_blank (bool v) = not v
  is_blank (float32 v) = float32_is_zero v
  is_blank (float64 v) = float64_is_zero v
  is_blank (text s) = length s == 0
  is_blank (message m) = fields_blank m
  is_blank (repeated ms) = messages_blank ms

  pub fields_blank : Fields → Bool
  fields_blank nil = true
  fields_blank (field n v m) = is_blank v && fields_blank m

  pub messages_blank : Messages → Bool
  messages_blank none = true
  messages_blank (more m ms) = fields_blank m && messages_blank ms

-- What arrives: a blank element of a vector is dropped, and a negative zero loses its sign.
unfoldable mutual
  unfolding float32_is_zero float64_is_zero fields_blank

  pub received : Value → Value
  received (int32 v) = int32 v
  received (uint32 v) = uint32 v
  received (int64 v) = int64 v
  received (uint64 v) = uint64 v
  received (bool v) = bool v
  received (float32 v) = float32 (if float32_is_zero v then 0 else v)
  received (float64 v) = float64 (if float64_is_zero v then 0 else v)
  received (text s) = text s
  received (message m) = message (received_fields m)
  received (repeated ms) = repeated (received_messages ms)

  pub received_fields : Fields → Fields
  received_fields nil = nil
  received_fields (field n v m) = field n (received v) (received_fields m)

  pub received_messages : Messages → Messages
  received_messages none = none
  received_messages (more m ms) =
      if fields_blank m
      then received_messages ms
      else more (received_fields m) (received_messages ms)

-- Of a blank value the default arrives.
zero_of : (v : ℤ) → is_zero v ≡ true → v ≡ pos 0
zero_of (pos Base.zero) h = refl
zero_of (pos (suc n)) h = cc
zero_of (negsuc n) h = cc

and_both : (a b : Bool) → (a && b) ≡ true → (a ≡ true) × (b ≡ true)
and_both a b h = ground arith

empty_text : (s : Bytes) → (length s == 0) ≡ true → s ≡ []
empty_text [] h = refl
empty_text (x ∷ s) h = absurd (ground arith)

mutual
  unfolding is_blank received default_value

  pub blank_received :
      {kind : Kind} {v : Value}
      → HasKind kind v
      → is_blank v ≡ true
      → received v ≡ default_value kind
  blank_received (int32_has {v}) b = ap int32 (zero_of v b)
  blank_received uint32_has b = ap uint32 (ground arith)
  blank_received (int64_has {v}) b = ap int64 (zero_of v b)
  blank_received uint64_has b = ap uint64 (ground arith)
  blank_received (bool_has {v}) b = ap bool (ground arith)
  blank_received float32_has b = rw b refl
  blank_received float64_has b = rw b refl
  blank_received (str_has {s}) b = ap text (empty_text s b)
  blank_received (inline_has {s} le) b = ap text (empty_text s b)
  blank_received (message_has c) b = ap message (blank_fields_received c b)
  blank_received (repeated_has c) b = ap repeated (blank_messages_received c b)

  pub blank_fields_received :
      {schema : Schema} {m : Fields}
      → Conforms schema m
      → fields_blank m ≡ true
      → received_fields m ≡ default_fields schema
  blank_fields_received end_conforms b = refl
  blank_fields_received (entry_conforms {n} {v} {m} h c) b =
      let (b1, b2) = and_both (is_blank v) (fields_blank m) b in
      rw (blank_received h b1, blank_fields_received c b2) refl

  pub blank_messages_received :
      {schema : Schema} {ms : Messages}
      → AllConform schema ms
      → messages_blank ms ≡ true
      → received_messages ms ≡ none
  blank_messages_received none_conform b = refl
  blank_messages_received (more_conform {m} {ms} h c) b =
      let (b1, b2) = and_both (fields_blank m) (messages_blank ms) b in
      rw b1 (blank_messages_received c b2)

module _ (io : Io) (laws : Laws io) where
  scalar_empty :
      (n : ℕ) (t : TagType) (default : Bool) (bs : Bytes)
      → is_empty (scalar io laws n t default bs) ≡ default
  scalar_empty n t true bs = refl
  scalar_empty n t false bs = is_empty-append _ bs (laws.uvarint_nonempty _)

  pub wrap_empty : (n : ℕ) (body : Bytes) → is_empty (wrap io laws n body) ≡ is_empty body
  wrap_empty n [] = refl
  wrap_empty n (b ∷ body) = is_empty-append _ _ (laws.uvarint_nonempty _)

  -- Exactly the blank values are left out.
  mutual
    unfolding encode_value is_blank

    pub encode_value_empty : (n : ℕ) (v : Value) → is_empty (encode_value io laws n v) ≡ is_blank v
    encode_value_empty n (int32 v) = scalar_empty n _ (is_zero v) _
    encode_value_empty n (uint32 v) = scalar_empty n _ (v == 0) _
    encode_value_empty n (int64 v) = scalar_empty n _ (is_zero v) _
    encode_value_empty n (uint64 v) = scalar_empty n _ (v == 0) _
    encode_value_empty n (bool v) = scalar_empty n _ (not v) _
    encode_value_empty n (float32 v) = scalar_empty n _ (float32_is_zero v) _
    encode_value_empty n (float64 v) = scalar_empty n _ (float64_is_zero v) _
    encode_value_empty n (text s) = scalar_empty n _ (length s == 0) _
    encode_value_empty n (message m) =
        wrap_empty n (encode_fields io laws m) ∙ encode_fields_empty m
    encode_value_empty n (repeated ms) = encode_messages_empty n ms

    pub encode_fields_empty : (m : Fields) → is_empty (encode_fields io laws m) ≡ fields_blank m
    encode_fields_empty nil = refl
    encode_fields_empty (field n v m) =
        is_empty-append_both (encode_value io laws n v) (encode_fields io laws m)
        ∙ rw (encode_value_empty n v, encode_fields_empty m) refl

    pub encode_messages_empty :
        (n : ℕ) (ms : Messages) → is_empty (encode_messages io laws n ms) ≡ messages_blank ms
    encode_messages_empty n none = refl
    encode_messages_empty n (more m ms) =
        is_empty-append_both (wrap io laws n (encode_fields io laws m))
          (encode_messages io laws n ms)
        ∙ rw
            (
              wrap_empty n (encode_fields io laws m),
              encode_fields_empty m,
              encode_messages_empty n ms,
            )
            refl
