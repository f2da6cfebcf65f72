-- ===== src/Encoding/Chunked.antt =====
-- Messages in chunks, and byte strings of a bounded size: `write_chunked`, `read_chunked` and
-- `unmarshal_bytes`.
pub mod Laws
pub mod Bound
use serialrpc.Base.{
  ℕ, zero, suc, ◌+◌, ◌*◌, ◌%◌, ◌^◌, ltb, ◌==◌, true, false, if◌then◌else◌, List, [], ◌∷◌, ◌++◌,
  length,
}
use serialrpc.Io.{
  Io, Bytes, Sink, Source, Result, ok, err, ◌>>=◌, Error, chunked_too_big, data_too_big,
  out_of_fuel,
}

abbrev pub max_string_size : ℕ
max_string_size = 16 * 1024

-- `read_chunked` returns the text read so far also when it reports an error.
pub record Chunked : Type 0 where
  pub text : Bytes
  pub failure : Result Source

module _ (io : Io) where
  -- `Writer::direct_write`, which the inner writer of `write_chunked` calls for each chunk.
  unfoldable pub write_chunk : Bytes → Sink → Result Sink
  write_chunk chunk w = do w ← io.write_uint32 (length chunk % 2 ^ 32) w; io.write chunk w

  unfoldable pub write_chunks : List Bytes → Sink → Result Sink
  unfolding write_chunk
  write_chunks [] w = ok w
  write_chunks (chunk ∷ chunks) w = do w ← write_chunk chunk w; write_chunks chunks w

  -- The message is the list of the pieces that its `write_to` hands to the writer.
  unfoldable pub write_chunked : List Bytes → Sink → Result Sink
  unfolding write_chunks
  write_chunked msg w = do w ← write_chunks msg w; io.write_byte 0 w

  pub read_chunks : ℕ → Bytes → Source → Chunked
  read_chunks zero text s = record { text = text; failure = err out_of_fuel }
  read_chunks (suc fuel) text s = elim (io.read_uint32 s) [
    | err e ↦ record { text = text; failure = err e }
    | ok (n, s) ↦ elim (n == 0) [
      | true ↦ record { text = text; failure = ok s }
      | false ↦ elim (ltb max_string_size (length text + n)) [
        | true ↦ record { text = text; failure = err chunked_too_big }
        | false ↦ elim (io.read_full n s) [
          | err e ↦ record { text = text ++ io.unfilled n s; failure = err e }
          | ok (b, s) ↦ read_chunks fuel (text ++ b) s
        ]
      ]
    ]
  ]

  pub read_chunked : ℕ → Source → Chunked
  unfolding read_chunks
  read_chunked fuel s = read_chunks fuel [] s

  -- The bytes that fill the front of a buffer of `capacity`.
  unfoldable pub unmarshal_bytes : ℕ → Source → Result (Bytes × Source)
  unmarshal_bytes capacity s = do
    (n, s) ← io.read_size s
    if ltb capacity n then err data_too_big else io.read_full n s
