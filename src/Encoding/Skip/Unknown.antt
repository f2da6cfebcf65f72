-- ===== src/Encoding/Skip/Unknown.antt =====
-- A reader steps over the fields that it does not know.
use serialrpc.Base.{
  ℕ, zero, suc, ◌+◌, ◌/◌, ◌^◌, ◌<◌, ◌≤◌, ◌≡◌, refl, ap, ◌==◌, not, Bool, true, false, [], ◌∷◌, ◌++◌,
  append_assoc, length, is_zero, arith, ℤ, pos, negsuc, Fits,
}
use serialrpc.Io.{Io, Bytes, Source, Result, ok, ◌>>=◌}
use serialrpc.Io.Laws.{Laws}
use serialrpc.Encoding.Tag.{
  TagType, var_int, i64, len, start, end_tag, i32, unknown, Tag, read_tag, tag_of_bits, bits_of_tag,
  code,
}
use serialrpc.Encoding.Tag.RoundTrip.{tag_bytes, IsNamed, bits_mod, tag_type-code, bits_of_tag-lt}
use serialrpc.Encoding.Marshal.{
  le_bytes, float32_is_zero, float64_is_zero, Value, int32, uint32, int64, uint64, bool, float32,
  float64, text, message, repeated, Fields, nil, field, Messages, none, more,
}
use serialrpc.Encoding.Marshal.Encode.{
  InRange, FieldsInRange, MessagesInRange, depth, depth_fields, depth_messages, scalar, wrap,
  encode_value, encode_fields, encode_messages, encode,
}
use serialrpc.Encoding.Skip.{skip_type, skip_message}

-- The rounds that stepping over a message may take.
unfoldable mutual
  pub rounds : Value → ℕ
  rounds (message m) = 3 + rounds_fields m
  rounds (repeated ms) = rounds_messages ms
  rounds _ = 2

  pub rounds_fields : Fields → ℕ
  rounds_fields nil = 1
  rounds_fields (field n v rest) = rounds v + rounds_fields rest

  pub rounds_messages : Messages → ℕ
  rounds_messages none = 0
  rounds_messages (more m ms) = 3 + rounds_fields m + rounds_messages ms

pub le_bytes-length : (n v : ℕ) → length (le_bytes n v) ≡ n
unfolding le_bytes
le_bytes-length zero v = refl
le_bytes-length (suc n) v = ap suc (le_bytes-length n (v / 256))

-- Types whose values are stepped over, and not the End tag.
abbrev pub IsValue : TagType → Type 0
IsValue end_tag = ⊥
IsValue (unknown n) = ⊥
IsValue _ = Unit {0}

Fits-wider : (z : ℤ) → Fits 31 z → Fits 63 z
Fits-wider (pos n) h = omega arith
Fits-wider (negsuc n) h = omega arith

module _ (io : Io) (laws : Laws io) where
  read_tag_type :
      (n : ℕ) (t : TagType) (s : Source)
      → IsNamed t
      → (tag : Tag) × (tag.type ≡ t) × (read_tag io (tag_bytes io laws n t ++ s) ≡ ok (tag, s))
  unfolding read_tag tag_of_bits
  read_tag_type n t s h = (
    tag_of_bits (bits_of_tag n t),
    rw (bits_mod n t h, tag_type-code t h) refl,
    rw (laws.read_uint32_eq (bits_of_tag n t) s (bits_of_tag-lt n t h)) refl,
  )

  -- The loop at an End tag, and at any other.
  abbrev step_over : ℕ → ℕ → TagType → Source → Result Source
  step_over fuel levels end_tag s = ok s
  step_over fuel levels t s = skip_type io fuel t levels s >>= skip_message io fuel levels

  skip_message_step :
      (fuel levels n : ℕ) (t : TagType) (s : Source)
      → IsNamed t
      → skip_message io (suc fuel) levels (tag_bytes io laws n t ++ s) ≡ step_over fuel levels t s
  unfolding skip_message read_tag_type
  skip_message_step fuel levels n t s h =
      let (tag, e, r) = read_tag_type n t s h in rw (r, e) (at_type t h)
    where
      at_type :
          (t : TagType)
          → IsNamed t
          → elim t as (λ _. Result Source) [
            | end_tag ↦ ok s
            | other ↦ skip_type io fuel other levels s >>= skip_message io fuel levels
          ]
            ≡ step_over fuel levels t s
      at_type (unknown n) h = absurd h
      at_type end_tag h = refl
      at_type _ h = refl

  skip_message_value :
      (fuel levels n : ℕ) (t : TagType) (s : Source)
      → IsValue t
      → skip_message io (suc fuel) levels (tag_bytes io laws n t ++ s)
        ≡ (skip_type io fuel t levels s >>= skip_message io fuel levels)
  skip_message_value fuel levels n end_tag s h = absurd h
  skip_message_value fuel levels n (unknown m) s h = absurd h
  skip_message_value fuel levels n var_int s h = skip_message_step fuel levels n var_int s tt
  skip_message_value fuel levels n i64 s h = skip_message_step fuel levels n i64 s tt
  skip_message_value fuel levels n len s h = skip_message_step fuel levels n len s tt
  skip_message_value fuel levels n start s h = skip_message_step fuel levels n start s tt
  skip_message_value fuel levels n i32 s h = skip_message_step fuel levels n i32 s tt

  -- From `rest` on the loop ends at `r`, with `k` rounds or more.
  abbrev Ends : ℕ → ℕ → Source → Source → Type 0
  Ends k levels rest r = (fuel : ℕ) → k ≤ fuel → skip_message io fuel levels rest ≡ ok r

  value_skipped :
      (k levels n : ℕ) (t : TagType) (payload rest r : Bytes) (cost : ℕ)
      → IsValue t
      → ((fuel : ℕ) → cost ≤ fuel → skip_type io fuel t levels (payload ++ rest) ≡ ok rest)
      → Ends k levels rest r
      → Ends (1 + cost + k) levels ((tag_bytes io laws n t ++ payload) ++ rest) r
  value_skipped k levels n t payload rest r cost h skips ends zero le = absurd (omega arith)
  value_skipped k levels n t payload rest r cost h skips ends (suc fuel) le =
      rw
        (
          append_assoc (tag_bytes io laws n t) payload rest,
          skip_message_value fuel levels n t (payload ++ rest) h,
          skips fuel (omega arith),
        )
        (ends fuel (omega arith))

  scalar_skipped :
      (k levels n : ℕ) (t : TagType) (default : Bool) (payload rest r : Bytes)
      → IsValue t
      → ((fuel : ℕ) → 1 ≤ fuel → skip_type io fuel t levels (payload ++ rest) ≡ ok rest)
      → Ends k levels rest r
      → Ends (2 + k) levels (scalar io laws n t default payload ++ rest) r
  scalar_skipped k levels n t true payload rest r h skips ends fuel le = ends fuel (omega arith)
  scalar_skipped k levels n t false payload rest r h skips ends fuel le =
      value_skipped k levels n t payload rest r 1 h skips ends fuel (omega arith)

  at_varint :
      (levels : ℕ) (bs rest : Bytes)
      → io.skip_varint (bs ++ rest) ≡ ok rest
      → (fuel : ℕ) → 1 ≤ fuel
      → skip_type io fuel var_int levels (bs ++ rest) ≡ ok rest
  unfolding skip_type
  at_varint levels bs rest h zero le = absurd (omega arith)
  at_varint levels bs rest h (suc fuel) le = h

  at_i32 :
      (levels v : ℕ) (rest : Bytes) (fuel : ℕ)
      → 1 ≤ fuel
      → skip_type io fuel i32 levels (le_bytes 4 v ++ rest) ≡ ok rest
  unfolding skip_type le_bytes
  at_i32 levels v rest zero le = absurd (omega arith)
  at_i32 levels v rest (suc fuel) le = laws.discard_eq (le_bytes 4 v) rest

  at_i64 :
      (levels v : ℕ) (rest : Bytes) (fuel : ℕ)
      → 1 ≤ fuel
      → skip_type io fuel i64 levels (le_bytes 8 v ++ rest) ≡ ok rest
  unfolding skip_type le_bytes
  at_i64 levels v rest zero le = absurd (omega arith)
  at_i64 levels v rest (suc fuel) le = laws.discard_eq (le_bytes 8 v) rest

  at_text :
      (levels : ℕ) (t rest : Bytes)
      → length t < 2 ^ 32
      → (fuel : ℕ) → 1 ≤ fuel
      → skip_type io fuel len levels ((laws.uvarint (length t) ++ t) ++ rest) ≡ ok rest
  unfolding skip_type
  at_text levels t rest h zero le = absurd (omega arith)
  at_text levels t rest h (suc fuel) le =
      rw
        (
          append_assoc (laws.uvarint (length t)) t rest,
          laws.read_uint32_eq (length t) (t ++ rest) h,
        )
        (laws.discard_eq t rest)

  at_end : (levels : ℕ) (r : Bytes) → Ends 1 levels (code end_tag ∷ r) r
  unfolding bits_of_tag code
  at_end levels r zero le = absurd (omega arith)
  at_end levels r (suc fuel) le =
      rw (laws.uvarint_small 4 (omega arith)) at (skip_message_step fuel levels 0 end_tag r tt)

  at_start :
      (levels : ℕ) (body rest : Bytes) (cost : ℕ)
      → Ends cost levels (body ++ code end_tag ∷ rest) rest
      → (fuel : ℕ) → suc cost ≤ fuel
      → skip_type io fuel start (suc levels) ((body ++ code end_tag ∷ []) ++ rest) ≡ ok rest
  unfolding skip_type
  at_start levels body rest cost ends zero le = absurd (omega arith)
  at_start levels body rest cost ends (suc fuel) le =
      rw (append_assoc body (code end_tag ∷ []) rest) (ends fuel (omega arith))

  -- A message field, written or left out.
  wrap_skipped :
      (k levels n : ℕ) (body rest r : Bytes) (cost : ℕ)
      → Ends cost levels (body ++ code end_tag ∷ rest) rest
      → Ends k (suc levels) rest r
      → Ends (2 + cost + k) (suc levels) (wrap io laws n body ++ rest) r
  wrap_skipped k levels n [] rest r cost inner ends fuel le = ends fuel (omega arith)
  wrap_skipped k levels n (b ∷ body) rest r cost inner ends fuel le =
      value_skipped k (suc levels) n start ((b ∷ body) ++ code end_tag ∷ []) rest r (suc cost) tt
        (at_start levels (b ∷ body) rest cost inner) ends fuel (omega arith)

  mutual
    unfolding encode_value rounds depth InRange

    value-Ends :
        (n : ℕ) (v : Value) (k levels : ℕ) (rest r : Bytes)
        → InRange v
        → depth v ≤ levels
        → Ends k levels rest r
        → Ends (rounds v + k) levels (encode_value io laws n v ++ rest) r
    value-Ends n (int32 v) k levels rest r h d ends fuel le =
        scalar_skipped k levels n var_int (is_zero v) _ rest r tt
          (at_varint levels _ rest (laws.skip_svarint_eq v rest (Fits-wider v h))) ends fuel le
    value-Ends n (int64 v) k levels rest r h d ends fuel le =
        scalar_skipped k levels n var_int (is_zero v) _ rest r tt
          (at_varint levels _ rest (laws.skip_svarint_eq v rest h)) ends fuel le
    value-Ends n (uint32 v) k levels rest r h d ends fuel le =
        scalar_skipped k levels n var_int (v == 0) _ rest r tt
          (at_varint levels _ rest (laws.skip_uvarint_eq v rest (omega arith))) ends fuel le
    value-Ends n (uint64 v) k levels rest r h d ends fuel le =
        scalar_skipped k levels n var_int (v == 0) _ rest r tt
          (at_varint levels _ rest (laws.skip_uvarint_eq v rest h)) ends fuel le
    value-Ends n (bool v) k levels rest r h d ends fuel le =
        scalar_skipped k levels n var_int (not v) (1 ∷ []) rest r tt
          (at_varint levels (1 ∷ []) rest (
            rw (laws.uvarint_small 1 (omega arith)) at (laws.skip_uvarint_eq 1 rest (omega arith))))
          ends fuel le
    value-Ends n (float32 v) k levels rest r h d ends fuel le =
        scalar_skipped k levels n i32 (float32_is_zero v) _ rest r tt (at_i32 levels v rest) ends
          fuel le
    value-Ends n (float64 v) k levels rest r h d ends fuel le =
        scalar_skipped k levels n i64 (float64_is_zero v) _ rest r tt (at_i64 levels v rest) ends
          fuel le
    value-Ends n (text t) k levels rest r h d ends fuel le =
        scalar_skipped k levels n len (length t == 0) _ rest r tt (at_text levels t rest h) ends
          fuel le
    value-Ends n (message m) k zero rest r h d ends fuel le = absurd (omega arith)
    value-Ends n (message m) k (suc levels) rest r h d ends fuel le =
        wrap_skipped k levels n (encode_fields io laws m) rest r (rounds_fields m + 1)
          (fields_end m 1 levels (code end_tag ∷ rest) rest h (omega arith) (at_end levels rest))
          ends fuel (omega arith)
    value-Ends n (repeated ms) k levels rest r h d ends fuel le =
        messages_end n ms k levels rest r h d ends fuel le

    fields_end :
        (m : Fields) (k levels : ℕ) (rest r : Bytes)
        → FieldsInRange m
        → depth_fields m ≤ levels
        → Ends k levels rest r
        → Ends (rounds_fields m + k) levels (encode_fields io laws m ++ rest) r
    fields_end nil k levels rest r h d ends fuel le = ends fuel (omega arith)
    fields_end (field n v m) k levels rest r h d ends fuel le =
        rw (append_assoc (encode_value io laws n v) (encode_fields io laws m) rest) (
          value-Ends n v (rounds_fields m + k) levels (encode_fields io laws m ++ rest) r h.0
            (omega arith) (fields_end m k levels rest r h.1 (omega arith) ends) fuel (omega arith))

    messages_end :
        (n : ℕ) (ms : Messages) (k levels : ℕ) (rest r : Bytes)
        → MessagesInRange ms
        → depth_messages ms ≤ levels
        → Ends k levels rest r
        → Ends (rounds_messages ms + k) levels (encode_messages io laws n ms ++ rest) r
    messages_end n none k levels rest r h d ends fuel le = ends fuel (omega arith)
    messages_end n (more m ms) k zero rest r h d ends fuel le = absurd (omega arith)
    messages_end n (more m ms) k (suc levels) rest r h d ends fuel le =
        rw
          (append_assoc (wrap io laws n (encode_fields io laws m)) (encode_messages io laws n ms)
            rest)
          (wrap_skipped (rounds_messages ms + k) levels n (encode_fields io laws m)
            (encode_messages io laws n ms ++ rest) r (rounds_fields m + 1)
            (fields_end m 1 levels (code end_tag ∷ (encode_messages io laws n ms ++ rest)) _ h.0
              (omega arith) (at_end levels _))
            (messages_end n ms k (suc levels) rest r h.1 (omega arith) ends) fuel (omega arith))

  -- Stepping over the Start case of a written message ends right behind it, for every message with
  -- fields in the range of their types that nests at most as deep as there are levels left, with
  -- fuel for its rounds and two more.
  pub skip-encode :
      (m : Fields) (levels : ℕ) (rest : Bytes) (fuel : ℕ)
      → FieldsInRange m
      → depth_fields m ≤ levels
      → rounds_fields m + 2 ≤ fuel
      → skip_type io fuel start (suc levels) (encode io laws m ++ rest) ≡ ok rest
  unfolding encode
  skip-encode m levels rest fuel h d le =
      at_start levels (encode_fields io laws m) rest (rounds_fields m + 1)
        (fields_end m 1 levels (code end_tag ∷ rest) rest h d (at_end levels rest)) fuel
        (omega arith)
