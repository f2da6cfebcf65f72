-- ===== src/Server/Accept/Session.antt =====
-- A whole session: hello, any number of requests, goodbye.
use serialrpc.Base.{
  ℕ, zero, suc, ◌+◌, ◌-◌, ◌^◌, ◌<◌, ◌≡◌, ◌∙◌, refl, ◌==◌, false, Bool, List, [], ◌∷◌, ◌++◌, map,
  length, append_assoc, append-nil, All, arith, ap, get_elem?, some,
}
use serialrpc.Io.{Io, Bytes, Source, Sink, Error, ok, err}
use serialrpc.Io.Laws.{Laws}
use serialrpc.Rpc.{client_hello, client_byte, server_hello, server_goodbye, server_byte}
use serialrpc.Server.Dispatch.{Service, DispatchFunc, handle_request, unsubscribe_all}
use serialrpc.Server.Dispatch.Table.{endpoints, endpoint_inside, handle_request_dispatches}
use serialrpc.Server.Messages.Laws.{InfoInRange, hello_fields, server_hello_lem, goodbye_lem}
use serialrpc.Server.Accept.{serve_requests, handle_goodbye, stop_accept, accept}

-- A request on the wire: its endpoint, counted from 0, and the bytes behind the number.
pub record Request : Type 0 where
  pub endpoint : ℕ
  pub body : Bytes

module _ {S : Type 0} (io : Io) (laws : Laws io) (services : List (Service S)) where
  abbrev pub request_bytes : List Request → Bytes
  request_bytes [] = []
  request_bytes (r ∷ rs) = laws.uvarint (r.endpoint + 1) ++ (r.body ++ request_bytes rs)

  -- The services take a request in the state `s`: the handler reads its body and no more, and
  -- answers `answer`, whatever follows and whatever has been sent.
  abbrev pub Answers : S → Request → S → Bytes → Type 0
  Answers s r s' answer =
      (rest : Source) (w : Sink)
      → handle_request io services r.endpoint s (record { source = r.body ++ rest; sink = w })
        ≡ (s', ok (record { source = rest; sink = w ++ answer }))

  -- The services take the requests one after another.
  pub data Session : S → List Request → S → Bytes → Type 0 where
    idle : {s : S} → Session s [] s []
    next :
        {s s' s'' : S} {r : Request} {rs : List Request} {answer answers : Bytes}
        → r.endpoint + 1 < 2 ^ 32
        → Answers s r s' answer
        → Session s' rs s'' answers
        → Session s (r ∷ rs) s'' (answer ++ answers)

  -- The loop answers the requests and goes on behind them, with the fuel that is left.
  session_lem :
      {s s' : S} {rs : List Request} {answers : Bytes}
      → Session s rs s' answers
      → (fuel k : ℕ) (tail : Source) (w : Sink) → fuel ≡ length rs + k
      → serve_requests io fuel services s (record { source = request_bytes rs ++ tail; sink = w })
        ≡ serve_requests io k services s' (record { source = tail; sink = w ++ answers })
  unfolding serve_requests
  session_lem (idle {s = s}) fuel k tail w e =
      let same : fuel ≡ k = omega arith in rw (same, append-nil w) refl
  session_lem (next small a session) zero k tail w e = absurd (omega arith)
  session_lem {s = s} {s' = s''}
        (next {s' = t} {r = r} {rs = rs} {answer = answer} {answers = answers} small a session)
        (suc fuel) k tail w e =
      rw
        (
          append_assoc (laws.uvarint (r.endpoint + 1)) (r.body ++ request_bytes rs) tail,
          append_assoc r.body (request_bytes rs) tail,
          laws.read_uint32_eq (r.endpoint + 1) (r.body ++ (request_bytes rs ++ tail)) small,
          nonzero,
          pred_lem,
          a (request_bytes rs ++ tail) w,
          serve_requests,
        )
        (rw (pred_lem, a (request_bytes rs ++ tail) w)
          (session_lem {s = t} session fuel k tail (w ++ answer) (omega arith)
            ∙ rw (append_assoc w answer answers) refl))
    where
      nonzero : (r.endpoint + 1 == 0) ≡ false
      nonzero = ground arith

      pred_lem : r.endpoint + 1 - 1 ≡ r.endpoint
      pred_lem = omega arith

  goodbye_served :
      (k : ℕ) (s : S) (rest : Source) (w : Sink)
      → serve_requests io (suc k) services s (record { source = laws.uvarint 0 ++ rest; sink = w })
        ≡ (
          unsubscribe_all services s,
          ok (record { source = rest; sink = w ++ server_byte server_goodbye ∷ [] }),
        )
  unfolding serve_requests handle_goodbye stop_accept
  goodbye_served k s rest w =
      rw (laws.read_uint32_eq 0 rest (omega arith), serve_requests)
        (rw (goodbye_lem io laws w, handle_goodbye) refl)

  serve_requests_lem :
      {s s' : S} {rs : List Request} {answers : Bytes}
      → Session s rs s' answers
      → (fuel : ℕ) (rest : Source) (w : Sink) → length rs < fuel
      → serve_requests io fuel services s
          (record { source = request_bytes rs ++ (laws.uvarint 0 ++ rest); sink = w })
        ≡ (
          unsubscribe_all services s',
          ok (record { source = rest; sink = w ++ (answers ++ server_byte server_goodbye ∷ []) }),
        )
  serve_requests_lem {s = s} {s' = s'} {rs = rs} {answers = answers} session fuel rest w lt =
      let k = fuel - length rs - 1 in
      session_lem session fuel (suc k) (laws.uvarint 0 ++ rest) w (omega arith)
      ∙ goodbye_served k s' rest (w ++ answers)
      ∙ rw (append_assoc w answers (server_byte server_goodbye ∷ [])) refl

  -- `accept` on a client that says hello, makes requests that the services take, and says goodbye,
  -- with services whose numbers are in range and more fuel than requests: it sends its hello, the
  -- answers in the order of the requests and a goodbye, leaves what follows unread, and ends every
  -- subscription.
  pub accept-Session :
      {s s' : S} {rs : List Request} {answers : Bytes}
      → Session s rs s' answers
      → (big : Bool) (refusal : Bytes) (fuel : ℕ) (rest : Source) (w : Sink)
      → All InfoInRange (map (λ service. service.info) services)
      → length rs < fuel
      → accept io big refusal fuel services s (record {
        source = client_byte client_hello ∷ (request_bytes rs ++ (laws.uvarint 0 ++ rest));
        sink = w;
      })
        ≡ (
          unsubscribe_all services s',
          ok (record {
            source = rest;
            sink =
                w
                ++ (server_byte server_hello
                    ∷ (hello_fields io big laws (map (λ service. service.info) services)
                        ++ (answers ++ server_byte server_goodbye ∷ [])));
          }),
        )
  unfolding accept
  accept-Session {s} {s'} {rs} {answers} session big refusal fuel rest w h lt =
      rw
        (
          laws.read_byte_eq (client_byte client_hello)
              (request_bytes rs ++ (laws.uvarint 0 ++ rest)),
          server_hello_lem io big laws (map (λ (service : Service S). service.info) services) w h,
          serve_requests_lem session fuel rest _ lt,
          accept,
        )
        (simp append_assoc)

  fails_at :
      (k : ℕ) (s s' : S) (endpoint : ℕ) (rest : Source) (w : Sink) (e : Error)
      → endpoint + 1 < 2 ^ 32
      → handle_request io services endpoint s (record { source = rest; sink = w }) ≡ (s', err e)
      → serve_requests io
          (suc k)
          services
          s
          (record { source = laws.uvarint (endpoint + 1) ++ rest; sink = w })
        ≡ (unsubscribe_all services s', err e)
  unfolding serve_requests stop_accept
  fails_at k s s' endpoint rest w e small h =
      rw (laws.read_uint32_eq (endpoint + 1) rest small, nonzero, pred_lem, h, serve_requests)
        (rw (pred_lem, h) refl)
    where
      nonzero : (endpoint + 1 == 0) ≡ false
      nonzero = ground arith

      pred_lem : endpoint + 1 - 1 ≡ endpoint
      pred_lem = omega arith

unsubscribe_all-append :
    {S : Type 0} (before after : List (Service S)) (s : S)
    → unsubscribe_all (before ++ after) s ≡ unsubscribe_all after (unsubscribe_all before s)
unfolding unsubscribe_all
unsubscribe_all-append [] after s = refl
unsubscribe_all-append (service ∷ before) after s =
    unsubscribe_all-append before after (service.unsubscribe s)

module _ {S : Type 0} (io : Io) (laws : Laws io) (before after : List (Service S))
    (service : Service S) where
  -- A client makes requests that the services take and then one for method `j` of a service, whose
  -- dispatch function fails after any answers, with fewer than 2^32 - 1 endpoints and more fuel than
  -- requests: the loop ends with that error, and from the state that the function left every service
  -- ends its subscriptions, the one that failed between those in front of it and those behind.
  pub serve_requests_fails :
      {s s' : S} {rs : List Request} {answers : Bytes}
      → Session io laws (before ++ service ∷ after) s rs s' answers
      → (fuel j : ℕ) (dispatch : DispatchFunc S) (s'' : S) (rest : Source) (w : Sink) (e : Error)
      → length rs < fuel
      → endpoints (before ++ service ∷ after) + 1 < 2 ^ 32
      → get_elem? service.dispatch_table j ≡ some dispatch
      → dispatch (endpoints before + j) s' (record { source = rest; sink = w ++ answers })
        ≡ (s'', err e)
      → serve_requests io fuel (before ++ service ∷ after) s (record {
        source =
            request_bytes io laws (before ++ service ∷ after) rs
            ++ (laws.uvarint (endpoints before + j + 1) ++ rest);
        sink = w;
      })
        ≡ (unsubscribe_all after (service.unsubscribe (unsubscribe_all before s'')), err e)
  unfolding unsubscribe_all
  serve_requests_fails {s = s} {s' = s'} {rs = rs} {answers = answers} session fuel j dispatch s''
        rest w e lt small entry fails =
      let services = before ++ service ∷ after in
      let k = fuel - length rs - 1 in
      let inside = endpoint_inside before after service j dispatch entry in
      let reached =
        handle_request_dispatches io before after service j dispatch s'
          (record { source = rest; sink = w ++ answers }) (omega arith) entry in
      session_lem io laws services session fuel (suc k)
        (laws.uvarint (endpoints before + j + 1) ++ rest) w (omega arith)
      ∙ fails_at io laws services k s' s'' (endpoints before + j) rest (w ++ answers) e
          (omega arith) (reached ∙ fails)
      ∙ ap (λ (t : S). (t, err e)) (unsubscribe_all-append before (service ∷ after) s'')
