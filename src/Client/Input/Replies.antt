-- ===== src/Client/Input/Replies.antt =====
-- Replies reach the calls that wait for them.
use serialrpc.Base.{
  ℕ, ◌<◌, ◌≤◌, ◌≡◌, ◌==◌, refl, ap, ==_refl, ==_iff, Bool-cases, ◌⊎◌, inl, inr, true, false, Option,
  some, none, List, [], ◌∷◌, ◌++◌, length, All, append_assoc, arith, if◌then◌else◌,
}
use serialrpc.Io.{Io, Bytes, Source, Error, ok, err}
use serialrpc.Io.Laws.{Laws}
use serialrpc.Rpc.{reply, error_reply, server_byte}
use serialrpc.Encoding.Chunked.{Chunked, max_string_size, read_chunked}
use serialrpc.Encoding.Chunked.Laws.{IsChunk, joined, chunk_bytes, read_chunked_lem}
use serialrpc.Server.Messages.{handle_error}
use serialrpc.Server.Messages.Laws.{error_bytes, handle_error_lem}
use serialrpc.Client.Queue.{CallData, Calls, update, pop_call_data, failed_call}
use serialrpc.Client.Queue.Order.{Holds, Absent, Chain-update, pop_call_data-cons}
use serialrpc.Client.Queue.Failure.{All-waits, waits, Absent-waits, fail_pending_calls_lem}
use serialrpc.Client.State.{Client, running, failing, closed, failed, input_error, input_error_from}
use serialrpc.Client.Calls.{result_of}
use serialrpc.Client.Input.{
  goes_on, ends, blocked, tell, run_left, raised, raise, woken_in, resume, message_type, read_reply,
  notify, replied, reply_to, handle_reply, error_replied, error_reply_to,
  handle_chunked_error_reply, handle_message, handle_byte, input_from, input_step,
}

waits_other : (x y : ℕ) (xs : List ℕ) → Absent x xs → waits y xs ≡ true → (x == y) ≡ false
waits_other x y xs a w = elim (Bool-cases (x == y)) [
  | inr differ ↦ differ
  | inl same ↦
      let e : x ≡ y = (==_iff x y).0 same in let never = Absent-waits x xs a in ground (arith, e)
]

module _ {R : Type 0} (io : Io) (stringify : Error → Bytes) (fuel : ℕ) where
  handle_reply_pops :
      (c : Client R) (x : ℕ) (xs : List ℕ)
      → Holds c.calls (x ∷ xs)
      → let c' = record c { calls = (pop_call_data c.calls).0 } in
        handle_reply io stringify fuel c
        ≡ replied io stringify fuel x c' (read_reply (c.calls.cell x) c.source)
  unfolding handle_reply reply_to
  handle_reply_pops c x xs h =
      let (popped, rest, same) = pop_call_data-cons c.calls x xs h in
      rw (popped, handle_reply, reply_to, same) refl

  -- The calls after the first is notified.
  held_by_rest :
      (c : Calls R) (x : ℕ) (xs : List ℕ) (d : CallData R)
      → Holds c (x ∷ xs)
      → Holds (record (pop_call_data c).0 { cell = update (pop_call_data c).0.cell x d }) xs
  held_by_rest c x xs d h =
      let (popped, rest, same) = pop_call_data-cons c x xs h in
      record {
        chain =
            Chain-update (pop_call_data c).0.cell x d (pop_call_data c).0.head xs h.distinct.0
              rest.chain;
        last = rest.last;
        distinct = rest.distinct;
      }

  -- A reply that the call that has waited longest can read, if no error was noted for it before: that
  -- call has the result and no error, the others wait on in their order with their cells untouched,
  -- and the loop reads on behind the reply.
  pub handle_reply_lem :
      (c : Client R) (x : ℕ) (xs : List ℕ) (r : Option R) (rest : Source)
      → Holds c.calls (x ∷ xs)
      → (c.calls.cell x).has_error ≡ false
      → read_reply (c.calls.cell x) c.source ≡ ok (r, rest)
      → let after = handle_reply io stringify fuel c in
        (after.1 ≡ goes_on)
        × (after.0.source ≡ rest)
        × (result_of (after.0.calls.cell x) ≡ some (ok r))
        × Holds after.0.calls xs
        × ((y : ℕ)
            → after.0.calls.cell y ≡ (if x == y then after.0.calls.cell x else c.calls.cell y))
  unfolding replied notify result_of
  handle_reply_lem c x xs r rest h clean e =
      let (popped, held, same) = pop_call_data-cons c.calls x xs h in
      rw (handle_reply_pops c x xs h, e)
        (
          refl,
          refl,
          rw (==_refl x, same, clean) refl,
          held_by_rest c.calls x xs _ h,
          λ y. rw (==_refl x, same) refl,
        )

  told :
      (c : Client R) (x : ℕ)
      → (c.state ≡ closed) ⊎ (c.state ≡ failed)
      → (c.calls.cell x).has_error ≡ false
      → let after = resume io stringify fuel (tell x) c in
        (after.1 ≡ ends)
        × (after.0.error ≡ none)
        × (result_of (after.0.calls.cell x) ≡ some (ok (c.calls.cell x).resp))
  unfolding resume woken_in run_left notify result_of
  told c x (inl e) clean = rw (e) (refl, refl, rw (==_refl x, clean) refl)
  told c x (inr e) clean = rw (e) (refl, refl, rw (==_refl x, clean) refl)

  -- On a running client, with fuel for the calls that wait, a reply that cannot be read makes the
  -- client Failing with the error, fails every call behind the one it was for, and blocks, with that
  -- one told of nothing. When the input thread wakes, in whatever client whose state is Closed or
  -- Failed, the error is cleared, the loop ends, and the call, if no error is noted for it then, is told
  -- of no error, with what `*resp` holds.
  pub handle_reply-undecoded :
      (c woken : Client R) (x : ℕ) (xs : List ℕ) (e : Error)
      → c.state ≡ running
      → Holds c.calls (x ∷ xs)
      → (c.calls.cell x).response_received ≡ false
      → read_reply (c.calls.cell x) c.source ≡ err e
      → length xs < fuel
      → (woken.state ≡ closed) ⊎ (woken.state ≡ failed)
      → (woken.calls.cell x).has_error ≡ false
      → let waiting = handle_reply io stringify fuel c in
        let after = resume io stringify fuel (tell x) woken in
        (waiting.1 ≡ blocked (tell x))
        × (waiting.0.state ≡ failing)
        × (waiting.0.error ≡ some e)
        × (result_of (waiting.0.calls.cell x) ≡ none)
        × All
            (λ y. result_of (waiting.0.calls.cell y) ≡ some (err (Error.error_reply (stringify e))))
            xs
        × (after.1 ≡ ends)
        × (after.0.error ≡ none)
        × (result_of (after.0.calls.cell x) ≡ some (ok (woken.calls.cell x).resp))
  unfolding replied notify result_of input_error input_error_from raise raised
  handle_reply-undecoded c woken x xs e s h waits_on bad lt gone clean =
      let (popped, held, same) = pop_call_data-cons c.calls x xs h in
      let (empty, cells) =
        fail_pending_calls_lem (stringify e) fuel (pop_call_data c.calls).0 xs held lt in
      let (over, cleared, result) = told woken x gone clean in
      rw (handle_reply_pops c x xs h, bad, s)
        (
          refl,
          refl,
          refl,
          rw (cells x, Absent-waits x xs h.distinct.0, same, waits_on) refl,
          All-waits _ xs (λ y. λ w. rw (cells y, w) refl),
          over,
          cleared,
          result,
        )

  -- A reply's type byte leads to the reply.
  pub input_step-reply :
      (laws : Laws io) (c : Client R) (bytes : Source)
      → c.source ≡ server_byte reply ∷ bytes
      → input_step io stringify fuel c
        ≡ handle_reply io stringify fuel (record c { source = bytes })
  unfolding input_step input_from handle_byte handle_message message_type
  input_step-reply laws c bytes e = rw (e, laws.read_byte_eq (server_byte reply) bytes) refl

  read_error_reply :
      (laws : Laws io) (c : Client R) (bytes : Source)
      → c.source ≡ server_byte error_reply ∷ bytes
      → input_step io stringify fuel c
        ≡ handle_chunked_error_reply io stringify fuel (record c { source = bytes })
  unfolding input_step input_from handle_byte handle_message message_type
  read_error_reply laws c bytes e = rw (e, laws.read_byte_eq (server_byte error_reply) bytes) refl

  error_reply_pops :
      (c : Client R) (x : ℕ) (xs : List ℕ) (t : Bytes) (rest : Source)
      → Holds c.calls (x ∷ xs)
      → read_chunked io fuel c.source ≡ record { text = t; failure = ok rest }
      → let c' = record c { calls = (pop_call_data c.calls).0; source = rest } in
        handle_chunked_error_reply io stringify fuel c ≡ (notify x (failed_call t) c', goes_on)
  unfolding handle_chunked_error_reply error_reply_to error_replied
  error_reply_pops c x xs t rest h e =
      let (popped, held, same) = pop_call_data-cons c.calls x xs h in
      let c' = record c { calls = (pop_call_data c.calls).0 } in
      rw (popped, handle_chunked_error_reply, error_reply_to)
        (ap (λ (r : Chunked). error_replied io stringify fuel x c' r.text r.failure) e)

  -- The error that a server's error handler writes, in any pieces that are not empty and have 16 KiB
  -- together at most, becomes the result of the call that has waited longest, with fuel for the pieces;
  -- the others wait on in their order, and the loop reads on behind it.
  pub input_step-handle_error :
      (laws : Laws io) (cs : List Bytes) (c : Client R) (x : ℕ) (xs : List ℕ) (rest : Source)
      (sent : Bytes)
      → All IsChunk cs
      → length (joined cs) ≤ max_string_size
      → length cs < fuel
      → Holds c.calls (x ∷ xs)
      → handle_error io cs [] ≡ ok sent
      → c.source ≡ sent ++ rest
      → let after = input_step io stringify fuel c in
        (after.1 ≡ goes_on)
        × (after.0.source ≡ rest)
        × (result_of (after.0.calls.cell x) ≡ some (err (Error.error_reply (joined cs))))
        × Holds after.0.calls xs
  unfolding notify result_of
  input_step-handle_error laws cs c x xs rest sent h le lt held s e =
      let bytes = chunk_bytes io laws cs ++ 0 ∷ rest in
      let written = handle_error_lem io laws cs [] h in
      let same : sent ≡ error_bytes io laws cs = cc in
      let source : c.source ≡ server_byte error_reply ∷ bytes =
        rw (e, same, append_assoc (chunk_bytes io laws cs) (0 ∷ []) rest) refl in
      let read = read_chunked_lem io laws cs fuel rest h lt le in
      let (popped, later, same_cells) = pop_call_data-cons c.calls x xs held in
      rw
        (
          read_error_reply laws c bytes source,
          error_reply_pops (record c { source = bytes }) x xs (joined cs) rest held read,
        )
        (refl, refl, rw (==_refl x) refl, held_by_rest c.calls x xs _ held)
