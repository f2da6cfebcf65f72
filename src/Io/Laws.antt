-- ===== src/Io/Laws.antt =====
-- What the program relies on of lib.io and lib.varint: a sink that takes what is written, sources
-- that hand out their bytes in order, and the varint codec read back by its reader.
use serialrpc.Base.{ℕ, ◌^◌, ◌≤◌, ◌<◌, ◌≡◌, [], ◌∷◌, ◌++◌, ℤ, length, Fits, is_empty, false, ◌⊎◌}
use serialrpc.Io.{Io, Bytes, Sink, Source, Result, ok, err, io_error}

pub record Laws (io : Io) : Type 0 where
  -- The bytes of an unsigned and of a signed varint.
  pub uvarint : ℕ → Bytes
  pub svarint : ℤ → Bytes
  pub write_eq : (bs : Bytes) (w : Sink) → io.write bs w ≡ ok (w ++ bs)
  pub write_byte_eq : (b : ℕ) (w : Sink) → io.write_byte b w ≡ ok (w ++ b ∷ [])
  pub flush_eq : (w : Sink) → io.flush w ≡ ok w
  pub write_uint32_eq : (n : ℕ) (w : Sink) → n < 2 ^ 32 → io.write_uint32 n w ≡ ok (w ++ uvarint n)
  pub write_uint64_eq : (n : ℕ) (w : Sink) → n < 2 ^ 64 → io.write_uint64 n w ≡ ok (w ++ uvarint n)
  pub write_size_eq : (n : ℕ) (w : Sink) → n < 2 ^ 63 → io.write_size n w ≡ ok (w ++ uvarint n)
  pub write_sint32_eq : (z : ℤ) (w : Sink) → Fits 31 z → io.write_sint32 z w ≡ ok (w ++ svarint z)
  pub write_sint64_eq : (z : ℤ) (w : Sink) → Fits 63 z → io.write_sint64 z w ≡ ok (w ++ svarint z)
  pub read_byte_eq : (b : ℕ) (r : Source) → io.read_byte (b ∷ r) ≡ ok (b, r)
  pub read_full_eq : (bs : Bytes) (r : Source) → io.read_full (length bs) (bs ++ r) ≡ ok (bs, r)
  pub skip_eq : (bs : Bytes) (r : Source) → io.skip (length bs) (bs ++ r) ≡ ok (bs, r)
  pub discard_eq : (bs : Bytes) (r : Source) → io.discard (length bs) (bs ++ r) ≡ ok r
  pub read_uint32_eq :
      (n : ℕ) (r : Source) → n < 2 ^ 32 → io.read_uint32 (uvarint n ++ r) ≡ ok (n, r)
  pub read_uint64_eq :
      (n : ℕ) (r : Source) → n < 2 ^ 64 → io.read_uint64 (uvarint n ++ r) ≡ ok (n, r)
  pub read_size_eq : (n : ℕ) (r : Source) → n < 2 ^ 63 → io.read_size (uvarint n ++ r) ≡ ok (n, r)
  pub read_sint32_eq :
      (z : ℤ) (r : Source) → Fits 31 z → io.read_sint32 (svarint z ++ r) ≡ ok (z, r)
  pub read_sint64_eq :
      (z : ℤ) (r : Source) → Fits 63 z → io.read_sint64 (svarint z ++ r) ≡ ok (z, r)
  pub skip_uvarint_eq : (n : ℕ) (r : Source) → n < 2 ^ 64 → io.skip_varint (uvarint n ++ r) ≡ ok r
  pub skip_svarint_eq : (z : ℤ) (r : Source) → Fits 63 z → io.skip_varint (svarint z ++ r) ≡ ok r
  -- A varint has a byte at least, and a number below 128 is one byte, itself.
  pub uvarint_nonempty : (n : ℕ) → is_empty (uvarint n) ≡ false
  pub uvarint_small : (n : ℕ) → n < 128 → uvarint n ≡ n ∷ []

-- What a read leaves behind is no more than what it was given, and it fails by an error of its own.
abbrev pub Within : ℕ → Result Source → Type 0
Within n res = ((r : Source) × (res ≡ ok r) × (length r ≤ n)) ⊎ (res ≡ err io_error)

-- Holds for every source, well formed or not; a varint takes a byte at least.
pub record Progress (io : Io) : Type 0 where
  pub read_uint32_within :
      (s : Source)
      → ((n : ℕ) × (r : Source) × (io.read_uint32 s ≡ ok (n, r)) × (length r < length s))
        ⊎ (io.read_uint32 s ≡ err io_error)
  pub skip_varint_within : (s : Source) → Within (length s) (io.skip_varint s)
  pub discard_within : (n : ℕ) (s : Source) → Within (length s) (io.discard n s)

-- A buffer of `n` bytes is filled with `n` bytes, or with no more than that at an error.
pub record Fills (io : Io) : Type 0 where
  pub read_full_fills :
      (n : ℕ) (s : Source) (bs : Bytes) (r : Source) → io.read_full n s ≡ ok (bs, r) → length bs ≡ n
  pub unfilled_within : (n : ℕ) (s : Source) → length (io.unfilled n s) ≤ n
