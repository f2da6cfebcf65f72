-- ===== src/Encoding/Unmarshal/RoundTrip.antt =====
-- A message that is read back.
use serialrpc.Base.{
  ℕ, zero, suc, ◌+◌, ◌^◌, ◌<◌, ◌≤◌, ◌≡◌, ◌∙◌, refl, sym, ◌==◌, true, false, not, [], ◌∷◌, ◌++◌,
  length, is_empty, is_zero, pos, some, arith, Bool-cases, inl, inr, append_assoc,
}
use serialrpc.Io.{Io, Bytes, Source, ok}
use serialrpc.Io.Laws.{Laws}
use serialrpc.Encoding.Tag.{var_int, i64, len, start, end_tag, i32, code}
use serialrpc.Encoding.Marshal.{
  float32_is_zero, float64_is_zero, Value, int32, uint32, int64, uint64, bool, float32, float64,
  text, message, repeated, Fields, nil, field, Messages, none,
}
use serialrpc.Encoding.Marshal.Encode.{
  InRange, FieldsInRange, MessagesInRange, depth, depth_fields, depth_messages, encode,
  encode_value, encode_fields, encode_messages, wrap,
}
use serialrpc.Encoding.Schema.{
  Kind, int32_type, uint32_type, int64_type, uint64_type, bool_type, float32_type, float64_type,
  str_type, inline_type, message_type, repeated_type, Schema, default_value, default_fields, lookup,
  store, put, push_back,
}
use serialrpc.Encoding.Unmarshal.{unmarshal}
use serialrpc.Encoding.Unmarshal.Conforms.{
  HasKind, int32_has, uint32_has, int64_has, uint64_has, bool_has, float32_has, float64_has,
  str_has, inline_has, message_has, repeated_has, Conforms, end_conforms, entry_conforms,
  AllConform, none_conform, more_conform, fields_blank, received, received_fields,
  received_messages, blank_received, blank_fields_received, encode_fields_empty,
}
use serialrpc.Encoding.Unmarshal.Structs.{
  join, numbers, contains, store-join, join-snoc, numbers-snoc, Placed, KindIsSound, IsSound,
  append, append-push_back, append-none, cost, cost_fields, cost_messages,
}
use serialrpc.Encoding.Unmarshal.Values.{
  Reads, ReadsValue, at_end, field_read, scalar_read, int32_payload, int64_payload, uint32_payload,
  uint64_payload, bool_payload, float32_payload, float64_payload, str_payload, inline_payload,
  message_payload, element_payload,
}

module _ (io : Io) (laws : Laws io) where
  -- A message field or an element of a vector, written or left out.
  wrap_read :
      (k c levels n : ℕ) (whole : Schema) (kind : Kind) (x acc result : Fields) (body rest : Bytes)
      (out : Fields × Source)
      → n < 2 ^ 28
      → lookup (pos n) whole ≡ some kind
      → (is_empty body ≡ true → result ≡ acc)
      → (is_empty body ≡ false → store (pos n) (message x) acc ≡ result)
      → ReadsValue io laws (suc c) kind (suc levels) (body ++ code end_tag ∷ []) rest (message x)
      → Reads io laws k whole (suc levels) result rest out
      → Reads io laws (2 + c + k) whole (suc levels) acc (wrap io laws n body ++ rest) out
  wrap_read k c levels n whole kind x acc result [] rest out lt e blank stored value ends fuel le =
      rw (← blank refl) (ends fuel (omega arith))
  wrap_read k c levels n whole kind x acc result (b ∷ body) rest out lt e blank stored value ends
        fuel le =
      field_read io laws k (suc levels) n (suc c) start whole kind (message x) acc _ rest out tt lt
        e value (rw (stored refl) ends) fuel (omega arith)

  mutual
    unfolding encode_value cost depth InRange KindIsSound received received_fields default_value put
        float32_is_zero numbers join Placed append

    value_read :
        (whole : Schema) {kind : Kind} {v : Value}
        → HasKind kind v
        → (n levels k : ℕ) (done later : Fields) (rest : Bytes) (out : Fields × Source) → InRange v
        → depth v ≤ levels
        → KindIsSound kind
        → n < 2 ^ 28
        → lookup (pos n) whole ≡ some kind
        → contains n (numbers done) ≡ false
        → Reads io laws k whole levels (join done (field n (received v) later)) rest out
        → Reads io laws
            (cost v + k)
            whole
            levels
            (join done (field n (default_value kind) later))
            (encode_value io laws n v ++ rest)
            out
    value_read whole (int32_has {v}) n levels k done later rest out h d sound lt e fresh ends fuel
          le =
        scalar_read io laws k levels n var_int whole int32_type (int32 v) (is_zero v) done later _
          rest out tt lt e fresh refl (λ b. blank_received (int32_has {v = v}) b)
          (λ b. int32_payload io laws levels v rest h) ends fuel le
    value_read whole (uint32_has {v}) n levels k done later rest out h d sound lt e fresh ends fuel
          le =
        scalar_read io laws k levels n var_int whole uint32_type (uint32 v) (v == 0) done later _
          rest out tt lt e fresh refl (λ b. blank_received (uint32_has {v = v}) b)
          (λ b. uint32_payload io laws levels v rest h) ends fuel le
    value_read whole (int64_has {v}) n levels k done later rest out h d sound lt e fresh ends fuel
          le =
        scalar_read io laws k levels n var_int whole int64_type (int64 v) (is_zero v) done later _
          rest out tt lt e fresh refl (λ b. blank_received (int64_has {v = v}) b)
          (λ b. int64_payload io laws levels v rest h) ends fuel le
    value_read whole (uint64_has {v}) n levels k done later rest out h d sound lt e fresh ends fuel
          le =
        scalar_read io laws k levels n var_int whole uint64_type (uint64 v) (v == 0) done later _
          rest out tt lt e fresh refl (λ b. blank_received (uint64_has {v = v}) b)
          (λ b. uint64_payload io laws levels v rest h) ends fuel le
    value_read whole (bool_has {v}) n levels k done later rest out h d sound lt e fresh ends fuel
          le =
        scalar_read io laws k levels n var_int whole bool_type (bool v) (not v) done later _ rest
          out tt lt e fresh refl (λ b. blank_received (bool_has {v = v}) b)
          (λ b. bool_payload io laws levels v rest b) ends fuel le
    value_read whole (float32_has {v}) n levels k done later rest out h d sound lt e fresh ends fuel
          le =
        scalar_read io laws k levels n i32 whole float32_type (received (float32 v))
          (float32_is_zero v) done later _ rest out tt lt e fresh refl (λ b. rw b refl)
          (λ b. rw b (float32_payload io laws levels v rest h)) ends fuel le
    value_read whole (float64_has {v}) n levels k done later rest out h d sound lt e fresh ends fuel
          le =
        scalar_read io laws k levels n i64 whole float64_type (received (float64 v))
          (float64_is_zero v) done later _ rest out tt lt e fresh refl (λ b. rw b refl)
          (λ b. rw b (float64_payload io laws levels v rest h)) ends fuel le
    value_read whole (str_has {s}) n levels k done later rest out h d sound lt e fresh ends fuel
          le =
        scalar_read io laws k levels n len whole str_type (text s) (length s == 0) done later _ rest
          out tt lt e fresh refl (λ b. blank_received (str_has {s = s}) b)
          (λ b. str_payload io laws levels s rest h) ends fuel le
    value_read whole (inline_has {capacity} {s} fit) n levels k done later rest out h d sound lt e
          fresh ends fuel le =
        scalar_read io laws k levels n len whole (inline_type capacity) (text s) (length s == 0)
          done later _ rest out tt lt e fresh refl
          (λ b. blank_received (inline_has {capacity = capacity} {s = s} fit) b)
          (λ b. inline_payload io laws levels capacity s rest h fit) ends fuel le
    value_read whole (message_has {schema} {m} c) n zero k done later rest out h d sound lt e fresh
          ends fuel le =
        absurd (omega arith)
    value_read whole (message_has {schema} {m} c) n (suc levels) k done later rest out h d sound lt
          e fresh ends fuel le =
        wrap_read k (cost_fields m + 1) levels n whole (message_type schema) (received_fields m)
          (join done (field n (message (default_fields schema)) later))
          (join done (field n (message (received_fields m)) later)) (encode_fields io laws m) rest
          out lt e
          (λ b. rw (blank_fields_received c (sym (encode_fields_empty io laws m) ∙ b)) refl)
          (λ b.
            store-join n (message (received_fields m)) (message (default_fields schema)) done later
              fresh)
          (message_payload io laws levels (cost_fields m + 1) schema (encode_fields io laws m) rest
            (received_fields m)
            (fields_read schema c levels 1 nil (code end_tag ∷ rest) (received_fields m, rest) h
              (omega arith) sound.0 sound.1
              (at_end io laws schema levels (received_fields m) rest)))
          ends fuel (omega arith)
    value_read whole (repeated_has {schema} {ms} c) n levels k done later rest out h d sound lt e
          fresh ends fuel le =
        messages_read whole c n levels k done later none rest out h d sound lt e fresh ends fuel le

    fields_read :
        (whole : Schema) {schema : Schema} {m : Fields}
        → Conforms schema m
        → (levels k : ℕ) (done : Fields) (rest : Bytes) (out : Fields × Source) → FieldsInRange m
        → depth_fields m ≤ levels
        → Placed whole (numbers done) schema
        → IsSound schema
        → Reads io laws k whole levels (join done (received_fields m)) rest out
        → Reads io laws
            (cost_fields m + k)
            whole
            levels
            (join done (default_fields schema))
            (encode_fields io laws m ++ rest)
            out
    fields_read whole end_conforms levels k done rest out h d placed sound ends fuel le =
        ends fuel (omega arith)
    fields_read whole (entry_conforms {n} {kind} {schema} {v} {m} hv c) levels k done rest out h d
          placed sound ends fuel le =
        rw (append_assoc (encode_value io laws n v) (encode_fields io laws m) rest) (
          value_read whole hv n levels (cost_fields m + k) done (default_fields schema)
            (encode_fields io laws m ++ rest) out h.0 (omega arith) sound.0 placed.2 placed.0
            placed.1
            (rw (join-snoc done (default_fields schema) n (received v)) (
              fields_read whole c levels k (join done (field n (received v) nil)) rest out h.1
                (omega arith) (rw (numbers-snoc done n (received v)) placed.3) sound.1
                (rw (join-snoc done (received_fields m) n (received v)) at ends)))
            fuel (omega arith))

    messages_read :
        (whole : Schema) {schema : Schema} {ms : Messages}
        → AllConform schema ms
        → (n levels k : ℕ) (done later : Fields) (got : Messages) (rest : Bytes)
          (out : Fields × Source)
        → MessagesInRange ms
        → depth_messages ms ≤ levels
        → Placed schema [] schema × IsSound schema
        → n < 2 ^ 28
        → lookup (pos n) whole ≡ some (repeated_type schema)
        → contains n (numbers done) ≡ false
        → Reads io laws k whole levels
            (join done (field n (repeated (append got (received_messages ms))) later))
            rest
            out
        → Reads io laws
            (cost_messages ms + k)
            whole
            levels
            (join done (field n (repeated got) later))
            (encode_messages io laws n ms ++ rest)
            out
    messages_read whole none_conform n levels k done later got rest out h d sound lt e fresh ends
          fuel le =
        rw (append-none got) at ends fuel (omega arith)
    messages_read whole (more_conform {schema} {m} {ms} c cs) n zero k done later got rest out h d
          sound lt e fresh ends fuel le =
        absurd (omega arith)
    messages_read whole (more_conform {schema} {m} {ms} c cs) n (suc levels) k done later got rest
          out h d sound lt e fresh ends fuel le =
        rw
          (append_assoc (wrap io laws n (encode_fields io laws m)) (encode_messages io laws n ms)
            rest)
          (elim (Bool-cases (fields_blank m)) [
            | inl blank ↦
                wrap_read (cost_messages ms + k) (cost_fields m + 1) levels n whole
                  (repeated_type schema) (received_fields m)
                  (join done (field n (repeated got) later))
                  (join done (field n (repeated got) later)) (encode_fields io laws m)
                  (encode_messages io laws n ms ++ rest) out lt e (λ b. refl)
                  (λ b. cc (encode_fields_empty io laws m))
                  (element_payload io laws levels (cost_fields m + 1) schema
                    (encode_fields io laws m) (encode_messages io laws n ms ++ rest)
                    (received_fields m)
                    (fields_read schema c levels 1 nil
                      (code end_tag ∷ (encode_messages io laws n ms ++ rest))
                      (received_fields m, encode_messages io laws n ms ++ rest) h.0 (omega arith)
                      sound.0 sound.1 (at_end io laws schema levels (received_fields m) _)))
                  (messages_read whole cs n (suc levels) k done later got rest out h.1 (omega arith)
                    sound lt e fresh (rw blank at ends))
                  fuel (omega arith)
            | inr full ↦
                wrap_read (cost_messages ms + k) (cost_fields m + 1) levels n whole
                  (repeated_type schema) (received_fields m)
                  (join done (field n (repeated got) later))
                  (join done (field n (repeated (push_back got (received_fields m))) later))
                  (encode_fields io laws m) (encode_messages io laws n ms ++ rest) out lt e
                  (λ b. cc (encode_fields_empty io laws m))
                  (λ b. store-join n (message (received_fields m)) (repeated got) done later fresh)
                  (element_payload io laws levels (cost_fields m + 1) schema
                    (encode_fields io laws m) (encode_messages io laws n ms ++ rest)
                    (received_fields m)
                    (fields_read schema c levels 1 nil
                      (code end_tag ∷ (encode_messages io laws n ms ++ rest))
                      (received_fields m, encode_messages io laws n ms ++ rest) h.0 (omega arith)
                      sound.0 sound.1 (at_end io laws schema levels (received_fields m) _)))
                  (messages_read whole cs n (suc levels) k done later
                    (push_back got (received_fields m)) rest out h.1 (omega arith) sound lt e fresh
                    (rw (append-push_back got (received_messages ms) (received_fields m))
                      (rw full at ends)))
                  fuel (omega arith)
          ])

  -- The struct that `unmarshal` returns of what `marshal` writes, for a message of any sound schema
  -- with fields in the range of their types that nest at most 128 deep, with fuel for its rounds:
  -- every field comes back, but for a vector's blank elements, which are dropped, and for a negative
  -- zero, which comes back positive. What follows is left unread.
  pub unmarshal-encode :
      {schema : Schema} {m : Fields}
      → Conforms schema m
      → (rest : Source) (fuel : ℕ) → FieldsInRange m
      → depth_fields m ≤ 128
      → Placed schema [] schema
      → IsSound schema
      → cost_fields m + 1 ≤ fuel
      → unmarshal io fuel schema (encode io laws m ++ rest) ≡ ok (received_fields m, rest)
  unfolding unmarshal encode join numbers
  unmarshal-encode {schema} {m} c rest fuel h d placed sound le =
      rw (append_assoc (encode_fields io laws m) (code end_tag ∷ []) rest) (
        fields_read schema c 128 1 nil (code end_tag ∷ rest) (received_fields m, rest) h d placed
          sound (at_end io laws schema 128 (received_fields m) rest) fuel le)
