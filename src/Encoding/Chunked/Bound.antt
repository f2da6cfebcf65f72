-- ===== src/Encoding/Chunked/Bound.antt =====
-- The text of a chunked message stays within its limit.
use serialrpc.Base.{
  ℕ, zero, suc, ◌+◌, ◌≤◌, ◌≡◌, ◌==◌, ltb, false, Bool-cases, inl, inr, [], ◌++◌, length,
  length-append, arith,
}
use serialrpc.Io.{Io, Bytes, Source}
use serialrpc.Io.Bind.{Result-cases}
use serialrpc.Io.Laws.{Fills}
use serialrpc.Encoding.Chunked.{max_string_size, read_chunks, read_chunked}

module _ (io : Io) (fills : Fills io) where
  read_chunks_bounded :
      (fuel : ℕ) (text : Bytes) (s : Source)
      → length text ≤ max_string_size
      → length (read_chunks io fuel text s).text ≤ max_string_size
  unfolding read_chunks
  read_chunks_bounded zero text s le = le
  read_chunks_bounded (suc fuel) text s le = elim (Result-cases (io.read_uint32 s)) [
    | inl (e, failed) ↦ rw (read_chunks, failed) le
    | inr ((n, s'), read) ↦ elim (Bool-cases (n == 0)) [
      | inl last ↦ rw (read_chunks, read, last) le
      | inr more ↦ elim (Bool-cases (ltb max_string_size (length text + n))) [
        | inl big ↦ rw (read_chunks, read, more, big) le
        | inr small ↦ elim (Result-cases (io.read_full n s')) [
          | inl (e, failed) ↦
              rw (read_chunks, read, more, small, failed)
                (omega (
                  arith,
                  length-append text (io.unfilled n s'),
                  fills.unfilled_within n s',
                  fits n text small,
                ))
          | inr ((b, r), filled) ↦
              rw (read_chunks, read, more, small, filled)
                (read_chunks_bounded fuel (text ++ b) r (
                  omega (
                    arith,
                    length-append text b,
                    fills.read_full_fills n s' b r filled,
                    fits n text small,
                  )))
        ]
      ]
    ]
  ]
    where
      fits :
          (n : ℕ) (text : Bytes)
          → ltb max_string_size (length text + n) ≡ false
          → length text + n ≤ max_string_size
      fits n text e = ground (arith, e)

  -- The text that `read_chunked` returns has 16 KiB at most, whatever the source holds, and at an error
  -- too, where reads fill no more than their buffer.
  pub read_chunked_bounded :
      (fuel : ℕ) (s : Source) → length (read_chunked io fuel s).text ≤ max_string_size
  unfolding read_chunked
  read_chunked_bounded fuel s = read_chunks_bounded fuel [] s (omega arith)
