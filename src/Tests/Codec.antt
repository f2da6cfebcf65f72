-- ===== src/Tests/Codec.antt =====
-- The wire format, at a struct with a text, a message and a vector of messages.
use serialrpc.Base.{◌≤◌, ◌+◌, ◌≡◌, refl, false, List, [], ◌∷◌, ◌++◌, length, pos, negsuc, arith}
use serialrpc.Io.{Bytes, ok}
use serialrpc.Io.Leb128.{leb128, leb128_laws, leb128-Progress, leb128-Fills}
use serialrpc.Encoding.Tag.{len, start, read_tag, write_tag}
use serialrpc.Encoding.Tag.RoundTrip.{tag_bytes, read_tag-write_tag}
use serialrpc.Encoding.Marshal.{
  int32, text, message, repeated, Fields, nil, field, none, more, marshal,
}
use serialrpc.Encoding.Marshal.Encode.{FieldsInRange, depth_fields, encode}
use serialrpc.Encoding.Marshal.Refines.{marshal-encode}
use serialrpc.Encoding.Schema.{
  int32_type, str_type, message_type, repeated_type, Schema, end, entry, lookup,
}
use serialrpc.Encoding.Unmarshal.{unmarshal}
use serialrpc.Encoding.Unmarshal.Conforms.{
  Conforms, entry_conforms, end_conforms, int32_has, str_has, message_has, repeated_has,
  more_conform, none_conform, received_fields,
}
use serialrpc.Encoding.Unmarshal.Structs.{Placed, IsSound, cost_fields}
use serialrpc.Encoding.Unmarshal.RoundTrip.{unmarshal-encode}
use serialrpc.Encoding.Skip.{skip_type}
use serialrpc.Encoding.Skip.Unknown.{rounds_fields, skip-encode}
use serialrpc.Encoding.Skip.Fuel.{Ended, skip_type-Ended}
use serialrpc.Encoding.Chunked.{max_string_size, write_chunked, read_chunked}
use serialrpc.Encoding.Chunked.Laws.{read_chunked-write_chunked}
use serialrpc.Encoding.Chunked.Bound.{read_chunked_bounded}

abbrev inner : Schema
inner = entry 1 int32_type end

abbrev outer : Schema
outer = entry 1 str_type (entry 2 (message_type inner) (entry 3 (repeated_type inner) end))

abbrev sample : Fields
sample = field 1 (text (0x68 ∷ 0x69 ∷ [])) (
    field 2 (message (field 1 (int32 (negsuc 2)) nil))
      (field 3 (repeated (more (field 1 (int32 (pos 7)) nil) none)) nil))

sample-Conforms : Conforms outer sample
sample-Conforms = entry_conforms str_has (
    entry_conforms (message_has (entry_conforms int32_has end_conforms)) (
      entry_conforms
        (repeated_has (more_conform (entry_conforms int32_has end_conforms) none_conform))
        end_conforms))

sample-FieldsInRange : FieldsInRange sample
unfolding FieldsInRange
sample-FieldsInRange = (omega arith, ((omega arith, tt), (((omega arith, tt), tt), tt)))

sample_depth : depth_fields sample ≤ 128
unfolding depth_fields
sample_depth = omega arith

sample_rounds : cost_fields sample + 1 ≤ 40
unfolding cost_fields
sample_rounds = omega arith

sample_skip_rounds : rounds_fields sample + 2 ≤ 40
unfolding rounds_fields
sample_skip_rounds = omega arith

outer-Placed : Placed outer [] outer
unfolding Placed lookup
outer-Placed = (refl, refl, omega arith, (refl, refl, omega arith, (refl, refl, omega arith, tt)))

outer-IsSound : IsSound outer
unfolding IsSound Placed lookup
outer-IsSound = (
  tt,
  (((refl, refl, omega arith, tt), (tt, tt)), (((refl, refl, omega arith, tt), (tt, tt)), tt)),
)

unmarshal-encode_example :
    unmarshal leb128 40 outer (encode leb128 leb128_laws sample ++ 9 ∷ [])
    ≡ ok (received_fields sample, 9 ∷ [])
unmarshal-encode_example =
    unmarshal-encode leb128 leb128_laws sample-Conforms (9 ∷ []) 40 sample-FieldsInRange
      sample_depth outer-Placed outer-IsSound sample_rounds

marshal-encode_example :
    marshal leb128 false sample (9 ∷ []) ≡ ok (9 ∷ [] ++ encode leb128 leb128_laws sample)
marshal-encode_example =
    marshal-encode leb128 false leb128_laws sample (9 ∷ []) sample-FieldsInRange sample_depth

skip-encode_example :
    skip_type leb128 40 start 129 (encode leb128 leb128_laws sample ++ 9 ∷ []) ≡ ok (9 ∷ [])
skip-encode_example =
    skip-encode leb128 leb128_laws sample 128 (9 ∷ []) 40 sample-FieldsInRange sample_depth
      sample_skip_rounds

skip_type-Ended_example : Ended 3 (skip_type leb128 8 start 129 (0x0b ∷ 0x08 ∷ 0xff ∷ []))
skip_type-Ended_example =
    skip_type-Ended leb128 leb128-Progress 8 start 129 (0x0b ∷ 0x08 ∷ 0xff ∷ []) (omega arith)

read_tag-write_tag_example :
    (write_tag leb128 300 len [] ≡ ok (tag_bytes leb128 leb128_laws 300 len))
    × (read_tag leb128 (tag_bytes leb128 leb128_laws 300 len ++ 9 ∷ [])
        ≡ ok (record { type = len; field_num = pos 300 }, 9 ∷ []))
read_tag-write_tag_example = read_tag-write_tag leb128 leb128_laws 300 len (9 ∷ []) tt (omega arith)

abbrev pieces : List Bytes
pieces = (1 ∷ 2 ∷ []) ∷ (3 ∷ []) ∷ []

read_chunked-write_chunked_example :
    (sent : Bytes) × (write_chunked leb128 pieces [] ≡ ok sent)
    × (read_chunked leb128 3 (sent ++ 9 ∷ [])
        ≡ record { text = 1 ∷ 2 ∷ 3 ∷ []; failure = ok (9 ∷ []) })
read_chunked-write_chunked_example =
    read_chunked-write_chunked leb128 leb128_laws pieces (9 ∷ []) 3
      ((omega arith, omega arith), ((omega arith, omega arith), tt)) (omega arith) (omega arith)

read_chunked_bounded_example :
    length (read_chunked leb128 3 (1 ∷ 7 ∷ 2 ∷ 8 ∷ [])).text ≤ max_string_size
read_chunked_bounded_example = read_chunked_bounded leb128 leb128-Fills 3 (1 ∷ 7 ∷ 2 ∷ 8 ∷ [])
