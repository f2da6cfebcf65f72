-- ===== src/Encoding/Marshal/Refines.antt =====
-- The lazy Start tags of `marshal_field` write the wire format.
use serialrpc.Base.{
  ℕ, ◌+◌, ◌^◌, ◌<◌, ◌≤◌, ◌≡◌, ◌∙◌, refl, sym, ap, ◌==◌, if◌then◌else◌, not, Bool, true, false, List,
  [], ◌∷◌, ◌++◌, append-nil, append_assoc, init-append, length, length-append, is_zero, is_empty,
  is_empty-append, arith,
}
use mathlib.Core.List.{reverse-reverse}
use serialrpc.Io.{Io, Bytes, Sink, Result, ok}
use serialrpc.Io.Laws.{Laws}
use serialrpc.Encoding.Tag.{TagType, var_int, i64, len, start, end_tag, i32, code}
use serialrpc.Encoding.Tag.RoundTrip.{tag_bytes, write_tag_lem, IsNamed}
use serialrpc.Encoding.Stack.{Stack, push, pop, clear, max_nesting}
use serialrpc.Encoding.Marshal.{
  le_bytes, native_bytes, float32_is_zero, float64_is_zero, Value, int32, uint32, int64, uint64,
  bool, float32, float64, text, message, repeated, Fields, nil, field, Messages, none, more,
  write_starts, write_tags, tagged, marshal_int32, marshal_int64, marshal_uint32, marshal_uint64,
  marshal_bool, wire_bytes, marshal_float32, marshal_float64, write_text, marshal_text,
  close_message, marshal_value, marshal_fields, marshal_messages, marshal,
}
use serialrpc.Encoding.Marshal.Encode.{
  InRange, FieldsInRange, MessagesInRange, depth, depth_fields, depth_messages, scalar, wrap,
  encode_value, encode_fields, encode_messages, encode,
}

-- On a machine of either byte order the payload of a float is little-endian.
pub wire_bytes-le_bytes : (io : Io) (big : Bool) (n v : ℕ) → wire_bytes io big n v ≡ le_bytes n v
unfolding wire_bytes native_bytes
wire_bytes-le_bytes io true n v = reverse-reverse (le_bytes n v)
wire_bytes-le_bytes io false n v = refl

-- The stack after something is written: its tags are flushed by the first byte.
abbrev after : Stack → Bytes → Stack
after s body = if is_empty body then s else []

after-le : (s : Stack) (body : Bytes) → length (after s body) ≤ length s
after-le s [] = omega arith
after-le s (b ∷ body) = omega arith

after-after : (s : Stack) (a b : Bytes) → after (after s a) b ≡ after s (a ++ b)
after-after s [] b = refl
after-after s (x ∷ a) [] = refl
after-after s (x ∷ a) (y ∷ b) = refl

module _ (io : Io) (big : Bool) (laws : Laws io) where
  starts : List ℕ → Bytes
  starts [] = []
  starts (e ∷ es) = tag_bytes io laws e start ++ starts es

  starts-append : (xs ys : List ℕ) → starts (xs ++ ys) ≡ starts xs ++ starts ys
  unfolding starts
  starts-append [] ys = refl
  starts-append (x ∷ xs) ys =
      rw (starts-append xs ys)
        (sym (append_assoc (tag_bytes io laws x start) (starts xs) (starts ys)))

  abbrev emitted : Stack → Bytes → Bytes
  emitted s body = if is_empty body then [] else starts s ++ body

  emitted-emitted :
      (s : Stack) (a b : Bytes) → emitted s a ++ emitted (after s a) b ≡ emitted s (a ++ b)
  unfolding starts
  emitted-emitted s [] b = refl
  emitted-emitted s (x ∷ a) [] = simp append-nil
  emitted-emitted s (x ∷ a) (y ∷ b) = append_assoc (starts s) (x ∷ a) (y ∷ b)

  -- What a routine does that stands for the bytes `body`.
  abbrev Writes : Bytes → (Stack → Sink → Result (Stack × Sink)) → ℕ → Type 0
  Writes body act room =
      (s : Stack) (w : Sink)
      → length s + room ≤ max_nesting
      → act s w ≡ ok (after s body, w ++ emitted s body)

  write_starts_lem : (es : List ℕ) (w : Sink) → write_starts io es w ≡ ok (w ++ starts es)
  unfolding write_starts starts
  write_starts_lem [] w = ap ok (sym (append-nil w))
  write_starts_lem (e ∷ es) w =
      rw (write_tag_lem io laws e start w tt)
        (write_starts_lem es _ ∙ ap ok (append_assoc w (tag_bytes io laws e start) (starts es)))

  tagged_lem :
      (n : ℕ) (t : TagType) (payload : Sink → Result Sink) (bs : Bytes)
      → IsNamed t
      → ((w : Sink) → payload w ≡ ok (w ++ bs))
      → Writes (tag_bytes io laws n t ++ bs) (tagged io n t payload) 0
  unfolding tagged write_tags clear
  tagged_lem n t payload bs h p s w room =
      rw
        (
          write_starts_lem s w,
          write_tag_lem io laws n t (w ++ starts s) h,
          p _,
          is_empty-append (tag_bytes io laws n t) bs (laws.uvarint_nonempty _),
          append_assoc,
          append_assoc,
        )
        refl

  -- A scalar is left out if it is the default, and else written behind its tags.
  scalar_lem :
      (n : ℕ) (t : TagType) (default : Bool) (payload : Sink → Result Sink) (bs : Bytes)
      → IsNamed t
      → ((w : Sink) → payload w ≡ ok (w ++ bs))
      → Writes
          (scalar io laws n t default bs)
          (λ s w. if default then ok (s, w) else tagged io n t payload s w)
          0
  scalar_lem n t true payload bs h p s w room = ap (λ (x : Sink). ok (s, x)) (sym (append-nil w))
  scalar_lem n t false payload bs h p s w room = tagged_lem n t payload bs h p s w room

  write_text_lem :
      (s : Bytes)
      → length s < 2 ^ 32
      → (w : Sink) → write_text io s w ≡ ok (w ++ (laws.uvarint (length s) ++ s))
  unfolding write_text
  write_text_lem s h w =
      rw
        (
          laws.write_size_eq (length s) w (omega arith),
          laws.write_eq s (w ++ laws.uvarint (length s)),
        )
        (ap ok (append_assoc w (laws.uvarint (length s)) s))

  open_lem : (n : ℕ) (s : Stack) → length s + 1 ≤ max_nesting → push n s ≡ ok (s ++ n ∷ [])
  unfolding push
  open_lem n s room = ground arith

  length-snoc : (n : ℕ) (s : Stack) → length (s ++ n ∷ []) ≡ length s + 1
  length-snoc n s = omega (arith, length-append s (n ∷ []))

  -- After the body of a message, `close_message` forgets the message or ends it.
  close_message_lem :
      (n : ℕ) (s : Stack) (body : Bytes) (w : Sink)
      → close_message io (after (s ++ n ∷ []) body) (w ++ emitted (s ++ n ∷ []) body)
        ≡ ok (after s (wrap io laws n body), w ++ emitted s (wrap io laws n body))
  unfolding close_message pop
  close_message_lem n s [] w = rw (not_empty, close_message) (rw (init-append s n) refl)
    where
      not_empty : (length (s ++ n ∷ []) == 0) ≡ false
      not_empty = ground (arith, length-snoc n s)
  close_message_lem n s (b ∷ body) w =
      rw
        (
          laws.write_byte_eq (code end_tag) (w ++ (starts (s ++ n ∷ []) ++ b ∷ body)),
          is_empty-append (tag_bytes io laws n start) (b ∷ (body ++ code end_tag ∷ []))
              (laws.uvarint_nonempty _),
          starts-append s (n ∷ []),
        )
        (unfold starts in simp (append_assoc, append-nil))

  -- What follows a step goes on from the stack that it left.
  then_lem :
      (a b : Bytes) (next : Stack → Sink → Result (Stack × Sink)) (room : ℕ) (s : Stack) (w : Sink)
      → Writes b next room
      → length s + room ≤ max_nesting
      → next (after s a) (w ++ emitted s a) ≡ ok (after s (a ++ b), w ++ emitted s (a ++ b))
  then_lem a b next room s w h le =
      rw
        (
          h (after s a) (w ++ emitted s a) (omega (arith, after-le s a)),
          after-after s a b,
          append_assoc,
          emitted-emitted s a b,
        )
        refl

  mutual
    unfolding marshal_value encode_value depth InRange marshal_int32 marshal_int64 marshal_uint32
        marshal_uint64 marshal_bool marshal_float32 marshal_float64 marshal_text float32_is_zero

    value-Writes :
        (n : ℕ) (v : Value)
        → InRange v
        → Writes (encode_value io laws n v) (marshal_value io big n v) (depth v)
    value-Writes n (int32 v) h s w room =
        scalar_lem n var_int (is_zero v) (io.write_sint32 v) _ tt (λ x. laws.write_sint32_eq v x h)
          s w room
    value-Writes n (uint32 v) h s w room =
        scalar_lem n var_int (v == 0) (io.write_uint32 v) _ tt (λ x. laws.write_uint32_eq v x h) s w
          room
    value-Writes n (int64 v) h s w room =
        scalar_lem n var_int (is_zero v) (io.write_sint64 v) _ tt (λ x. laws.write_sint64_eq v x h)
          s w room
    value-Writes n (uint64 v) h s w room =
        scalar_lem n var_int (v == 0) (io.write_uint64 v) _ tt (λ x. laws.write_uint64_eq v x h) s w
          room
    value-Writes n (bool v) h s w room =
        scalar_lem n var_int (not v) (io.write_byte 1) _ tt (λ x. laws.write_byte_eq 1 x) s w room
    value-Writes n (float32 v) h s w room =
        scalar_lem n i32 (float32_is_zero v) (io.write (wire_bytes io big 4 v)) _ tt
          (λ x. rw (wire_bytes-le_bytes io big 4 v) (laws.write_eq _ x)) s w room
    value-Writes n (float64 v) h s w room =
        scalar_lem n i64 (float64_is_zero v) (io.write (wire_bytes io big 8 v)) _ tt
          (λ x. rw (wire_bytes-le_bytes io big 8 v) (laws.write_eq _ x)) s w room
    value-Writes n (text t) h s w room =
        scalar_lem n len (length t == 0) (write_text io t) _ tt (write_text_lem t h) s w room
    value-Writes n (message m) h s w room =
        rw
          (
            open_lem n s (omega arith),
            fields-Writes m h (s ++ n ∷ []) w (omega (arith, length-snoc n s)),
          )
          (close_message_lem n s (encode_fields io laws m) w)
    value-Writes n (repeated ms) h s w room = messages-Writes n ms h s w room

    fields-Writes :
        (m : Fields)
        → FieldsInRange m
        → Writes (encode_fields io laws m) (marshal_fields io big m) (depth_fields m)
    fields-Writes nil h s w room = ap (λ (x : Sink). ok (s, x)) (sym (append-nil w))
    fields-Writes (field n v rest) h s w room = rw (value-Writes n v h.0 s w (omega arith)) (
        then_lem (encode_value io laws n v) (encode_fields io laws rest)
          (marshal_fields io big rest) (depth_fields rest) s w (fields-Writes rest h.1)
          (omega arith))

    messages-Writes :
        (n : ℕ) (ms : Messages)
        → MessagesInRange ms
        → Writes (encode_messages io laws n ms) (marshal_messages io big n ms) (depth_messages ms)
    messages-Writes n none h s w room = ap (λ (x : Sink). ok (s, x)) (sym (append-nil w))
    messages-Writes n (more m ms) h s w room =
        rw
          (
            open_lem n s (omega arith),
            fields-Writes m h.0 (s ++ n ∷ []) w (omega (arith, length-snoc n s)),
            close_message_lem n s (encode_fields io laws m) w,
          )
          (then_lem (wrap io laws n (encode_fields io laws m)) (encode_messages io laws n ms)
            (marshal_messages io big n ms) (depth_messages ms) s w (messages-Writes n ms h.1)
            (omega arith))

  emitted-nil : (body : Bytes) → emitted [] body ≡ body
  unfolding starts
  emitted-nil [] = refl
  emitted-nil (b ∷ body) = refl

  -- `marshal` of a message with fields in the range of their types that nest at most 128 deep
  -- writes the encoding of the message behind whatever has been written before, and neither fails
  -- nor overruns the stack.
  pub marshal-encode :
      (m : Fields) (w : Sink)
      → FieldsInRange m
      → depth_fields m ≤ max_nesting
      → marshal io big m w ≡ ok (w ++ encode io laws m)
  unfolding marshal encode
  marshal-encode m w h d =
      rw
        (
          fields-Writes m h [] w (omega arith),
          emitted-nil (encode_fields io laws m),
          laws.write_byte_eq (code end_tag) (w ++ encode_fields io laws m),
        )
        (ap ok (append_assoc w (encode_fields io laws m) (code end_tag ∷ [])))

  after-nil : (body : Bytes) → after [] body ≡ []
  after-nil [] = refl
  after-nil (b ∷ body) = refl

  -- One field, with no tags waiting.
  pub marshal_value-encode :
      (n : ℕ) (v : Value) (w : Sink)
      → InRange v
      → depth v ≤ max_nesting
      → marshal_value io big n v [] w ≡ ok ([], w ++ encode_value io laws n v)
  marshal_value-encode n v w h d =
      value-Writes n v h [] w (omega arith)
      ∙ rw (after-nil (encode_value io laws n v), emitted-nil (encode_value io laws n v)) refl
