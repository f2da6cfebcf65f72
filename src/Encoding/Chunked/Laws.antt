-- ===== src/Encoding/Chunked/Laws.antt =====
-- Chunked text is read back, up to the limit on its size.
use serialrpc.Base.{
  ℕ, zero, suc, ◌+◌, ◌%◌, ◌^◌, ◌<◌, ◌≤◌, ◌≡◌, ◌∙◌, refl, sym, ap, ltb, ◌==◌, false, List, [], ◌∷◌,
  ◌++◌, append_assoc, append-nil, length, length-append, All, arith, le→ltb, lt→ltb,
}
use serialrpc.Io.{Io, Bytes, Sink, Source, ok, err, chunked_too_big}
use serialrpc.Io.Laws.{Laws}
use serialrpc.Encoding.Chunked.{
  max_string_size, write_chunk, write_chunks, write_chunked, read_chunks, read_chunked,
}

-- A piece as the writer of a chunk takes it: some bytes, fewer than 2^32.
abbrev pub IsChunk : Bytes → Type 0
IsChunk c = (0 < length c) × (length c < 2 ^ 32)

-- The text of the pieces.
abbrev pub joined : List Bytes → Bytes
joined [] = []
joined (c ∷ cs) = c ++ joined cs

module _ (io : Io) (laws : Laws io) where
  abbrev pub chunk_bytes : List Bytes → Bytes
  chunk_bytes [] = []
  chunk_bytes (c ∷ cs) = laws.uvarint (length c) ++ (c ++ chunk_bytes cs)

  write_chunks_lem :
      (cs : List Bytes) (w : Sink)
      → All IsChunk cs
      → write_chunks io cs w ≡ ok (w ++ chunk_bytes cs)
  unfolding write_chunks write_chunk
  write_chunks_lem [] w h = ap ok (sym (append-nil w))
  write_chunks_lem (c ∷ cs) w (hc, h) =
      rw
        (
          small,
          laws.write_uint32_eq (length c) w hc.1,
          laws.write_eq c (w ++ laws.uvarint (length c)),
          write_chunks_lem cs ((w ++ laws.uvarint (length c)) ++ c) h,
        )
        (simp append_assoc)
    where
      small : length c % 2 ^ 32 ≡ length c
      small = omega arith

  -- One round of the loop of `read_chunked`.
  read_chunk_lem :
      (fuel : ℕ) (text c rest : Bytes)
      → IsChunk c
      → length text + length c ≤ max_string_size
      → read_chunks io (suc fuel) text (laws.uvarint (length c) ++ (c ++ rest))
        ≡ read_chunks io fuel (text ++ c) rest
  unfolding read_chunks
  read_chunk_lem fuel text c rest h le =
      rw
        (
          laws.read_uint32_eq (length c) (c ++ rest) h.1,
          nonempty,
          fits,
          laws.read_full_eq c rest,
          read_chunks,
        )
        refl
    where
      nonempty : (length c == 0) ≡ false
      nonempty = ground arith

      fits : ltb max_string_size (length text + length c) ≡ false
      fits = le→ltb _ _ le

  read_chunks_lem :
      (cs : List Bytes) (fuel : ℕ) (text rest : Bytes)
      → All IsChunk cs
      → length cs < fuel
      → length text + length (joined cs) ≤ max_string_size
      → read_chunks io fuel text (chunk_bytes cs ++ 0 ∷ rest)
        ≡ record { text = text ++ joined cs; failure = ok rest }
  unfolding read_chunks
  read_chunks_lem cs zero text rest h lt le = absurd (omega arith)
  read_chunks_lem [] (suc fuel) text rest h lt le =
      rw
        (
          rw (laws.uvarint_small 0 (omega arith)) at (laws.read_uint32_eq 0 rest (omega arith)),
          append-nil text,
          read_chunks,
        )
        refl
  read_chunks_lem (c ∷ cs) (suc fuel) text rest (hc, h) lt le =
      rw
        (
          append_assoc (laws.uvarint (length c)) (c ++ chunk_bytes cs) (0 ∷ rest),
          append_assoc c (chunk_bytes cs) (0 ∷ rest),
        )
        (read_chunk_lem fuel text c (chunk_bytes cs ++ 0 ∷ rest) hc
            (omega (arith, length-append c (joined cs)))
          ∙ read_chunks_lem cs fuel (text ++ c) rest h (omega arith)
              (omega (arith, length-append c (joined cs), length-append text c))
          ∙ rw (append_assoc text c (joined cs)) refl)

  pub write_chunked_lem :
      (cs : List Bytes) (w : Sink)
      → All IsChunk cs
      → write_chunked io cs w ≡ ok (w ++ (chunk_bytes cs ++ 0 ∷ []))
  unfolding write_chunked
  write_chunked_lem cs w h =
      rw (write_chunks_lem cs w h, laws.write_byte_eq 0 (w ++ chunk_bytes cs))
        (ap ok (append_assoc w (chunk_bytes cs) (0 ∷ [])))

  pub read_chunked_lem :
      (cs : List Bytes) (fuel : ℕ) (rest : Source)
      → All IsChunk cs
      → length cs < fuel
      → length (joined cs) ≤ max_string_size
      → read_chunked io fuel (chunk_bytes cs ++ 0 ∷ rest)
        ≡ record { text = joined cs; failure = ok rest }
  unfolding read_chunked
  read_chunked_lem cs fuel rest h lt le = read_chunks_lem cs fuel [] rest h lt (omega arith)

  -- Whatever pieces, none empty, a message hands to the writer of `write_chunked`: `read_chunked`
  -- joins them again and leaves what follows, if they have 16 KiB at most.
  pub read_chunked-write_chunked :
      (cs : List Bytes) (rest : Source) (fuel : ℕ)
      → All IsChunk cs
      → length (joined cs) ≤ max_string_size
      → length cs < fuel
      → (sent : Bytes) × (write_chunked io cs [] ≡ ok sent)
        × (read_chunked io fuel (sent ++ rest) ≡ record { text = joined cs; failure = ok rest })
  read_chunked-write_chunked cs rest fuel h le lt = (
    chunk_bytes cs ++ 0 ∷ [],
    write_chunked_lem cs [] h,
    rw (append_assoc (chunk_bytes cs) (0 ∷ []) rest) (read_chunked_lem cs fuel rest h lt le),
  )

  -- A chunk that would take the text over 16 KiB is refused before a byte of it is read.
  pub read_chunks_too_big :
      (fuel n : ℕ) (text rest : Bytes)
      → 0 < n
      → n < 2 ^ 32
      → max_string_size < length text + n
      → read_chunks io (suc fuel) text (laws.uvarint n ++ rest)
        ≡ record { text = text; failure = err chunked_too_big }
  unfolding read_chunks
  read_chunks_too_big fuel n text rest pos small big =
      rw
        (
          laws.read_uint32_eq n rest small,
          nonempty,
          lt→ltb max_string_size (length text + n) big,
          read_chunks,
        )
        refl
    where
      nonempty : (n == 0) ≡ false
      nonempty = ground arith
