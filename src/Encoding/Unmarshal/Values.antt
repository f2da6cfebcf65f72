-- ===== src/Encoding/Unmarshal/Values.antt =====
-- Single fields that are read back.
use serialrpc.Base.{
  ℕ, zero, suc, ◌+◌, ◌^◌, ◌<◌, ◌≤◌, ◌≡◌, ◌∙◌, refl, ap, subst, ==_refl, Bool, true, false, not, [],
  ◌∷◌, ◌++◌, length, ℤ, pos, Fits, some, arith, append_assoc, lt→ltb, le→ltb,
}
use serialrpc.Io.{Io, Bytes, Source, ok, ◌>>=◌}
use serialrpc.Io.Laws.{Laws}
use serialrpc.Encoding.Tag.{
  TagType, var_int, i64, len, start, end_tag, i32, unknown, read_tag, code, bits_of_tag,
}
use serialrpc.Encoding.Tag.RoundTrip.{tag_bytes, IsNamed, read_tag-write_tag}
use serialrpc.Encoding.Marshal.{
  le_bytes, Value, int32, uint32, int64, uint64, bool, float32, float64, text, message, Fields,
  field,
}
use serialrpc.Encoding.Marshal.Encode.{scalar}
use serialrpc.Encoding.Skip.Unknown.{IsValue, le_bytes-length}
use serialrpc.Encoding.Schema.{
  Kind, int32_type, uint32_type, int64_type, uint64_type, bool_type, float32_type, float64_type,
  str_type, inline_type, message_type, repeated_type, Schema, default_value, default_fields, lookup,
  store, put,
}
use serialrpc.Encoding.Unmarshal.{unmarshal_value, unmarshal_fields}
use serialrpc.Encoding.Unmarshal.Structs.{of_le_bytes-le_bytes, join, numbers, contains, store-join}

module _ (io : Io) (laws : Laws io) where
  abbrev pub Reads : ℕ → Schema → ℕ → Fields → Source → Fields × Source → Type 0
  Reads k whole levels acc s out =
      (fuel : ℕ) → k ≤ fuel → unmarshal_fields io fuel whole levels acc s ≡ ok out

  abbrev pub ReadsValue : ℕ → Kind → ℕ → Bytes → Source → Value → Type 0
  ReadsValue c kind levels payload rest x =
      (fuel : ℕ) → c ≤ fuel → unmarshal_value io fuel kind levels (payload ++ rest) ≡ ok (x, rest)

  pub read_tag_small :
      (n : ℕ) (t : TagType) (s : Source)
      → IsNamed t
      → n < 2 ^ 28
      → read_tag io (tag_bytes io laws n t ++ s) ≡ ok (record { type = t; field_num = pos n }, s)
  read_tag_small n t s h lt =
      (read_tag-write_tag io laws n t s h (omega arith)).1 ∙ rw (lt→ltb n (2 ^ 28) lt) refl

  pub at_field :
      (fuel levels n : ℕ) (t : TagType) (whole : Schema) (kind : Kind) (acc : Fields) (s : Source)
      → IsValue t
      → n < 2 ^ 28
      → lookup (pos n) whole ≡ some kind
      → unmarshal_fields io (suc fuel) whole levels acc (tag_bytes io laws n t ++ s) ≡ (
          unmarshal_value io fuel kind levels s >>= λ p.
          unmarshal_fields io fuel whole levels (store (pos n) p.0 acc) p.1)
  unfolding unmarshal_fields
  at_field fuel levels n end_tag whole kind acc s h lt e = absurd h
  at_field fuel levels n (unknown m) whole kind acc s h lt e = absurd h
  at_field fuel levels n var_int whole kind acc s h lt e =
      ground (arith, read_tag_small n var_int s tt lt)
  at_field fuel levels n i64 whole kind acc s h lt e = ground (arith, read_tag_small n i64 s tt lt)
  at_field fuel levels n len whole kind acc s h lt e = ground (arith, read_tag_small n len s tt lt)
  at_field fuel levels n start whole kind acc s h lt e =
      ground (arith, read_tag_small n start s tt lt)
  at_field fuel levels n i32 whole kind acc s h lt e = ground (arith, read_tag_small n i32 s tt lt)

  pub at_end :
      (whole : Schema) (levels : ℕ) (acc : Fields) (r : Source)
      → Reads 1 whole levels acc (code end_tag ∷ r) (acc, r)
  unfolding unmarshal_fields bits_of_tag code
  at_end whole levels acc r zero le = absurd (omega arith)
  at_end whole levels acc r (suc fuel) le =
      rw (rw (laws.uvarint_small 4 (omega arith)) at (read_tag_small 0 end_tag r tt (omega arith)))
        refl

  pub field_read :
      (k levels n c : ℕ) (t : TagType) (whole : Schema) (kind : Kind) (x : Value) (acc : Fields)
      (payload rest : Bytes) (out : Fields × Source)
      → IsValue t
      → n < 2 ^ 28
      → lookup (pos n) whole ≡ some kind
      → ReadsValue c kind levels payload rest x
      → Reads k whole levels (store (pos n) x acc) rest out
      → Reads (1 + c + k) whole levels acc ((tag_bytes io laws n t ++ payload) ++ rest) out
  field_read k levels n c t whole kind x acc payload rest out h lt e value ends zero le =
      absurd (omega arith)
  field_read k levels n c t whole kind x acc payload rest out h lt e value ends (suc fuel) le =
      rw
        (
          append_assoc (tag_bytes io laws n t) payload rest,
          at_field fuel levels n t whole kind acc (payload ++ rest) h lt e,
          value fuel (omega arith),
        )
        (ends fuel (omega arith))

  -- A scalar over its default in the struct.
  pub scalar_read :
      (k levels n : ℕ) (t : TagType) (whole : Schema) (kind : Kind) (v : Value) (default : Bool)
      (done later : Fields) (payload rest : Bytes) (out : Fields × Source)
      → IsValue t
      → n < 2 ^ 28
      → lookup (pos n) whole ≡ some kind
      → contains n (numbers done) ≡ false
      → put (default_value kind) v ≡ v
      → (default ≡ true → v ≡ default_value kind)
      → (default ≡ false → ReadsValue 1 kind levels payload rest v)
      → Reads k whole levels (join done (field n v later)) rest out
      → Reads
          (2 + k)
          whole
          levels
          (join done (field n (default_value kind) later))
          (scalar io laws n t default payload ++ rest)
          out
  scalar_read k levels n t whole kind v true done later payload rest out h lt e fresh p blank value
        ends fuel le =
      rw (← blank refl) (ends fuel (omega arith))
  scalar_read k levels n t whole kind v false done later payload rest out h lt e fresh p blank value
        ends fuel le =
      field_read k levels n 1 t whole kind v _ payload rest out h lt e (value refl)
        (rw (store-join n v (default_value kind) done later fresh, p) ends) fuel (omega arith)

  pub read_le_bytes :
      (n v : ℕ) (rest : Bytes) → io.read_full n (le_bytes n v ++ rest) ≡ ok (le_bytes n v, rest)
  read_le_bytes n v rest =
      subst (λ k. io.read_full k (le_bytes n v ++ rest) ≡ ok (le_bytes n v, rest))
        (le_bytes-length n v) (laws.read_full_eq (le_bytes n v) rest)

  -- The payloads of the scalars.
  pub int32_payload :
      (levels : ℕ) (v : ℤ) (rest : Bytes)
      → Fits 31 v
      → ReadsValue 1 int32_type levels (laws.svarint v) rest (int32 v)
  unfolding unmarshal_value
  int32_payload levels v rest h zero le = absurd (omega arith)
  int32_payload levels v rest h (suc fuel) le = rw (laws.read_sint32_eq v rest h) refl

  pub int64_payload :
      (levels : ℕ) (v : ℤ) (rest : Bytes)
      → Fits 63 v
      → ReadsValue 1 int64_type levels (laws.svarint v) rest (int64 v)
  unfolding unmarshal_value
  int64_payload levels v rest h zero le = absurd (omega arith)
  int64_payload levels v rest h (suc fuel) le = rw (laws.read_sint64_eq v rest h) refl

  pub uint32_payload :
      (levels v : ℕ) (rest : Bytes)
      → v < 2 ^ 32
      → ReadsValue 1 uint32_type levels (laws.uvarint v) rest (uint32 v)
  unfolding unmarshal_value
  uint32_payload levels v rest h zero le = absurd (omega arith)
  uint32_payload levels v rest h (suc fuel) le = rw (laws.read_uint32_eq v rest h) refl

  pub uint64_payload :
      (levels v : ℕ) (rest : Bytes)
      → v < 2 ^ 64
      → ReadsValue 1 uint64_type levels (laws.uvarint v) rest (uint64 v)
  unfolding unmarshal_value
  uint64_payload levels v rest h zero le = absurd (omega arith)
  uint64_payload levels v rest h (suc fuel) le = rw (laws.read_uint64_eq v rest h) refl

  pub bool_payload :
      (levels : ℕ) (v : Bool) (rest : Bytes)
      → not v ≡ false
      → ReadsValue 1 bool_type levels (1 ∷ []) rest (bool v)
  unfolding unmarshal_value
  bool_payload levels v rest h zero le = absurd (omega arith)
  bool_payload levels false rest h (suc fuel) le = cc
  bool_payload levels true rest h (suc fuel) le = rw (laws.read_byte_eq 1 rest) refl

  pub float32_payload :
      (levels v : ℕ) (rest : Bytes)
      → v < 2 ^ 32
      → ReadsValue 1 float32_type levels (le_bytes 4 v) rest (float32 v)
  unfolding unmarshal_value
  float32_payload levels v rest h zero le = absurd (omega arith)
  float32_payload levels v rest h (suc fuel) le =
      rw (read_le_bytes 4 v rest) (ap (λ x. ok (float32 x, rest)) (of_le_bytes-le_bytes 4 v h))

  pub float64_payload :
      (levels v : ℕ) (rest : Bytes)
      → v < 2 ^ 64
      → ReadsValue 1 float64_type levels (le_bytes 8 v) rest (float64 v)
  unfolding unmarshal_value
  float64_payload levels v rest h zero le = absurd (omega arith)
  float64_payload levels v rest h (suc fuel) le =
      rw (read_le_bytes 8 v rest) (ap (λ x. ok (float64 x, rest)) (of_le_bytes-le_bytes 8 v h))

  pub str_payload :
      (levels : ℕ) (t rest : Bytes)
      → length t < 2 ^ 32
      → ReadsValue 1 str_type levels (laws.uvarint (length t) ++ t) rest (text t)
  unfolding unmarshal_value
  str_payload levels t rest h zero le = absurd (omega arith)
  str_payload levels t rest h (suc fuel) le =
      rw
        (
          append_assoc (laws.uvarint (length t)) t rest,
          laws.read_size_eq (length t) (t ++ rest) (omega arith),
          laws.skip_eq t rest,
          ==_refl (length t),
        )
        refl

  pub inline_payload :
      (levels capacity : ℕ) (t rest : Bytes)
      → length t < 2 ^ 32
      → length t ≤ capacity
      → ReadsValue 1 (inline_type capacity) levels (laws.uvarint (length t) ++ t) rest (text t)
  unfolding unmarshal_value
  inline_payload levels capacity t rest h fit zero le = absurd (omega arith)
  inline_payload levels capacity t rest h fit (suc fuel) le =
      rw
        (
          append_assoc (laws.uvarint (length t)) t rest,
          laws.read_size_eq (length t) (t ++ rest) (omega arith),
          le→ltb capacity (length t) fit,
          laws.read_full_eq t rest,
        )
        refl

  pub message_payload :
      (levels c : ℕ) (schema : Schema) (body rest : Bytes) (m : Fields)
      → Reads c schema levels (default_fields schema) (body ++ code end_tag ∷ rest) (m, rest)
      → ReadsValue
          (suc c)
          (message_type schema)
          (suc levels)
          (body ++ code end_tag ∷ [])
          rest
          (message m)
  unfolding unmarshal_value
  message_payload levels c schema body rest m inner zero le = absurd (omega arith)
  message_payload levels c schema body rest m inner (suc fuel) le =
      rw (append_assoc body (code end_tag ∷ []) rest, inner fuel (omega arith)) refl

  pub element_payload :
      (levels c : ℕ) (schema : Schema) (body rest : Bytes) (m : Fields)
      → Reads c schema levels (default_fields schema) (body ++ code end_tag ∷ rest) (m, rest)
      → ReadsValue
          (suc c)
          (repeated_type schema)
          (suc levels)
          (body ++ code end_tag ∷ [])
          rest
          (message m)
  unfolding unmarshal_value
  element_payload levels c schema body rest m inner zero le = absurd (omega arith)
  element_payload levels c schema body rest m inner (suc fuel) le =
      rw (append_assoc body (code end_tag ∷ []) rest, inner fuel (omega arith)) refl
