-- ===== src/Client/Calls/Sending.antt =====
-- What a request does to a client that runs, and to one that does not.
use serialrpc.Base.{
  ℕ, ◌<◌, ◌≤◌, ◌^◌, ◌≡◌, refl, Bool, some, none, List, [], ◌∷◌, ◌++◌, append_assoc, ==_refl,
}
use serialrpc.Io.{Io, Bytes, Sink, Result, Error, ok, err, connection_closed, panic_null}
use serialrpc.Io.Laws.{Laws}
use serialrpc.Encoding.Marshal.{Fields}
use serialrpc.Encoding.Marshal.Encode.{encode, FieldsInRange, depth_fields}
use serialrpc.Encoding.Marshal.Refines.{marshal-encode}
use serialrpc.Client.Queue.{CallData, Calls, push_call_data}
use serialrpc.Client.Queue.Order.{Absent, Chain-update, Holds, push_call_data_lem}
use serialrpc.Client.State.{
  State, closed, failed, Client, check_state, check_running, fail_from, fail, wait,
}
use serialrpc.Client.Calls.{
  place, start_request, finish_request, write_body, or_fail, after_start, send_request, call_body,
}

module _ {R : Type 0} (io : Io) (stringify : Error → Bytes) where
  starts_not :
      (rpc_id p : ℕ) (c : Client R) (e : Error)
      → check_running c ≡ err e
      → start_request io stringify rpc_id p c ≡ err e
  unfolding start_request
  starts_not rpc_id p c e h = rw (h) refl

  refused_lem :
      (body : Sink → Result Sink) (fuel rpc_id p : ℕ) (d : CallData R) (c : Client R) (e : Error)
      → check_running c ≡ err e
      → send_request io stringify body fuel rpc_id p d c
        ≡ (fail stringify fuel (place io stringify p d c), err e)
  unfolding send_request check_running place
  refused_lem body fuel rpc_id p d c e h =
      rw (starts_not rpc_id p (place io stringify p d c) e h, send_request) refl

  -- A request of a closed client with no error makes it Failing with no error, and the next `wait`
  -- reads the error it does not have.
  pub wait-send_request-closed :
      (body : Sink → Result Sink) (fuel rpc_id p : ℕ) (d : CallData R) (c : Client R)
      → c.state ≡ closed
      → c.error ≡ none
      → let c' = (send_request io stringify body fuel rpc_id p d c).0 in
        (check_running c ≡ err connection_closed)
        × (wait c' ≡ some (record c' { state = failed }, err panic_null))
  unfolding check_running fail place fail_from wait check_state
  wait-send_request-closed body fuel rpc_id p d c s e =
      let h : check_running c ≡ err connection_closed = rw (s) refl in
      (h, rw (refused_lem body fuel rpc_id p d c connection_closed h, s, e) refl)

  -- The calls that wait, when the new one is in its place.
  place-Holds :
      (p : ℕ) (d : CallData R) (c : Client R) (xs : List ℕ)
      → Holds c.calls xs
      → Absent p xs
      → Holds (place io stringify p d c).calls xs
  unfolding place
  place-Holds p d c xs h a = record {
    chain = Chain-update c.calls.cell p d c.calls.head xs a h.chain;
    last = h.last;
    distinct = h.distinct;
  }

  -- The client when its request is on the wire.
  abbrev pub sent_by : Bytes → ℕ → CallData R → Client R → Client R
  sent_by bytes p d c = record c {
    sink = c.sink ++ bytes;
    calls = push_call_data p (place io stringify p d c).calls;
  }

  pub sent_lem :
      (laws : Laws io) (body : Sink → Result Sink) (bytes : Bytes) (fuel rpc_id p : ℕ)
      (d : CallData R) (c : Client R)
      → ((w : Sink) → body w ≡ ok (w ++ bytes))
      → check_running c ≡ ok tt
      → rpc_id < 2 ^ 32
      → send_request io stringify body fuel rpc_id p d c
        ≡ (sent_by (laws.uvarint rpc_id ++ bytes) p d c, ok tt)
  unfolding send_request place start_request after_start write_body finish_request or_fail
      check_running
  sent_lem laws body bytes fuel rpc_id p d c writes run lt =
      rw
        (
          run,
          laws.write_uint32_eq rpc_id c.sink lt,
          send_request,
          start_request,
          after_start,
          writes (c.sink ++ laws.uvarint rpc_id),
          laws.flush_eq ((c.sink ++ laws.uvarint rpc_id) ++ bytes),
          append_assoc c.sink (laws.uvarint rpc_id) bytes,
        )
        refl

  pub held_after :
      (p : ℕ) (d : CallData R) (c : Client R) (xs : List ℕ)
      → Holds c.calls xs
      → Absent p xs
      → d.next ≡ none
      → Holds (push_call_data p (place io stringify p d c).calls) (xs ++ p ∷ [])
  unfolding place
  held_after p d c xs h a unlinked =
      push_call_data_lem p (place io stringify p d c).calls xs (place-Holds p d c xs h a) a
        (rw (==_refl p) unlinked)

  -- A request of a running client, with an endpoint number below 2^32, fields in the range of their
  -- types that nest at most 128 deep, and a fresh `CallData` at an address that no waiting call has:
  -- on the wire are the number and the encoded request, the state is as before, and the call stands
  -- behind the calls that wait.
  pub send_request_sent :
      (big : Bool) (laws : Laws io) (req : Fields) (fuel rpc_id p : ℕ) (d : CallData R)
      (c : Client R) (xs : List ℕ)
      → check_running c ≡ ok tt
      → rpc_id < 2 ^ 32
      → FieldsInRange req
      → depth_fields req ≤ 128
      → Holds c.calls xs
      → Absent p xs
      → d.next ≡ none
      → let sent = send_request io stringify (call_body io big req) fuel rpc_id p d c in
        (sent.1 ≡ ok tt)
        × (sent.0.sink ≡ c.sink ++ (laws.uvarint rpc_id ++ encode io laws req))
        × (sent.0.state ≡ c.state)
        × Holds sent.0.calls (xs ++ p ∷ [])
  unfolding call_body
  send_request_sent big laws req fuel rpc_id p d c xs run lt fits deep h a unlinked =
      let writes = λ (w : Sink). marshal-encode io big laws req w fits deep in
      rw (sent_lem laws (call_body io big req) (encode io laws req) fuel rpc_id p d c writes run lt)
        (refl, refl, refl, held_after p d c xs h a unlinked)
