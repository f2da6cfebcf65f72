-- ===== src/Encoding/Skip/Fuel.antt =====
-- The loop of `skip` ends on every input.
use serialrpc.Base.{ℕ, zero, suc, ◌+◌, ◌*◌, ◌≤◌, ◌<◌, ◌≡◌, ◌≢◌, ◌⊎◌, inl, inr, refl, length, arith}
use serialrpc.Io.{
  Io, Source, Result, Error, ok, err, ◌>>=◌, out_of_fuel, io_error, excessive_nesting, invalid_tag,
}
use serialrpc.Io.Laws.{Progress, Within}
use serialrpc.Encoding.Tag.{
  TagType, var_int, i64, len, start, end_tag, i32, unknown, read_tag, tag_of_bits,
}
use serialrpc.Encoding.Skip.{skip_type, skip_message}

-- A source no longer than `n` bytes is left, or an error that is not want of fuel.
abbrev pub Ended : ℕ → Result Source → Type 0
Ended n res =
    ((r : Source) × (res ≡ ok r) × (length r ≤ n))
    ⊎ ((e : Error) × (res ≡ err e) × (e ≢ out_of_fuel))

Within-Ended : (n : ℕ) (res : Result Source) → Within n res → Ended n res
Within-Ended n res (inl h) = inl h
Within-Ended n res (inr e) = inr (io_error, e, λ x. cc)

Ended-bind :
    (m n : ℕ) (res : Result Source) (f : Source → Result Source)
    → Ended m res
    → ((r : Source) → length r ≤ m → Ended n (f r))
    → Ended n (res >>= f)
Ended-bind m n res f (inl (r, e, le)) h = rw e (h r le)
Ended-bind m n res f (inr (x, e, ne)) h = rw e (inr (x, refl, ne))

Ended-weaken : (m n : ℕ) (res : Result Source) → Ended m res → m ≤ n → Ended n res
Ended-weaken m n res (inl (r, e, le)) h = inl (r, e, omega arith)
Ended-weaken m n res (inr x) h = inr x

module _ (io : Io) (p : Progress io) where
  mutual
    unfolding skip_type read_tag

    type-Ended :
        (fuel : ℕ) (t : TagType) (levels : ℕ) (s : Source)
        → 2 * length s + 2 ≤ fuel
        → Ended (length s) (skip_type io fuel t levels s)
    type-Ended zero t levels s le = absurd (omega arith)
    type-Ended (suc fuel) var_int levels s le = Within-Ended _ _ (p.skip_varint_within s)
    type-Ended (suc fuel) i64 levels s le = Within-Ended _ _ (p.discard_within 8 s)
    type-Ended (suc fuel) len levels s le = elim (p.read_uint32_within s) [
      | inl (n, r, e, lt) ↦ rw e (elim (p.discard_within n r) [
        | inl (q, d, ql) ↦ inl (q, d, omega arith)
        | inr d ↦ inr (io_error, d, λ x. cc)
      ])
      | inr e ↦ rw e (inr (io_error, refl, λ x. cc))
    ]
    type-Ended (suc fuel) start zero s le = inr (excessive_nesting, refl, λ x. cc)
    type-Ended (suc fuel) start (suc levels) s le = message-Ended fuel levels s (omega arith)
    type-Ended (suc fuel) end_tag levels s le = inl (s, refl, omega arith)
    type-Ended (suc fuel) i32 levels s le = Within-Ended _ _ (p.discard_within 4 s)
    type-Ended (suc fuel) (unknown n) levels s le = inr (invalid_tag, refl, λ x. cc)

    message-Ended :
        (fuel levels : ℕ) (s : Source)
        → 2 * length s + 1 ≤ fuel
        → Ended (length s) (skip_message io fuel levels s)
    message-Ended zero levels s le = absurd (omega arith)
    message-Ended (suc fuel) levels s le = elim (p.read_uint32_within s) [
      | inl (n, r, e, lt) ↦ rw e (
          at_tag (tag_of_bits n).type r lt (λ t. type-Ended fuel t levels r (omega arith))
            (λ q. message-Ended fuel levels q))
      | inr e ↦ rw e (inr (io_error, refl, λ x. cc))
    ]
      where
        at_tag :
            (t : TagType) (r : Source)
            → length r < length s
            → ((t : TagType) → Ended (length r) (skip_type io fuel t levels r))
            → ((q : Source)
                → 2 * length q + 1 ≤ fuel
                → Ended (length q) (skip_message io fuel levels q))
            → Ended (length s) (elim t as (λ _. Result Source) [
              | end_tag ↦ ok r
              | other ↦ skip_type io fuel other levels r >>= skip_message io fuel levels
            ])
        at_tag end_tag r lt h k = inl (r, refl, omega arith)
        at_tag t r lt h k =
            Ended-bind (length r) (length s) _ (skip_message io fuel levels) (h t)
              (λ q qr. Ended-weaken (length q) (length s) _ (k q (omega arith)) (omega arith))

  -- `skip` ends on every source, well formed or not, with fuel of two more than twice its
  -- length: it reports an error of its own or of the reader, or leaves a source that is no longer.
  pub skip_type-Ended :
      (fuel : ℕ) (t : TagType) (levels : ℕ) (s : Source)
      → 2 * length s + 2 ≤ fuel
      → Ended (length s) (skip_type io fuel t levels s)
  skip_type-Ended fuel t levels s le = type-Ended fuel t levels s le
