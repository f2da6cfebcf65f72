-- ===== src/Server/Accept.antt =====
-- `accept`: the handshake and the loop that serves a connection.
pub mod Session
use serialrpc.Base.{
  ℕ, zero, suc, ◌-◌, ◌==◌, not, true, false, if◌then◌else◌, Bool, List, [], ◌∷◌, map,
}
use serialrpc.Io.{Io, Bytes, Source, Result, ok, err, ◌>>=◌, out_of_fuel}
use serialrpc.Rpc.{ServiceInfo, client_hello, client_byte}
use serialrpc.Server.Dispatch.{Conn, Handler, Service, handle_request, unsubscribe_all}
use serialrpc.Server.Messages.{write_server_hello, write_goodbye}

module _ {S : Type 0} (io : Io) where
  unfoldable pub stop_accept : List (Service S) → S → S
  unfolding unsubscribe_all
  stop_accept services s = unsubscribe_all services s

  unfoldable pub handle_goodbye : List (Service S) → Handler S
  unfolding stop_accept write_goodbye
  handle_goodbye services s c = elim (write_goodbye io c.sink) [
    | err e ↦ (s, err e)
    | ok w ↦ (stop_accept services s, ok (record c { sink = w }))
  ]

  -- The loop of `accept`.
  pub serve_requests : ℕ → List (Service S) → Handler S
  unfolding stop_accept handle_goodbye
  serve_requests zero services s c = (s, err out_of_fuel)
  serve_requests (suc fuel) services s c = elim (io.read_uint32 c.source) [
    | err e ↦ (stop_accept services s, err e)
    | ok (rpc_id, r) ↦ elim (rpc_id == 0) [
      | true ↦ handle_goodbye services s (record c { source = r })
      | false ↦
          let (s', result) = handle_request io services (rpc_id - 1) s (record c { source = r }) in
          elim result [
            | err e ↦ (stop_accept services s', err e)
            | ok c' ↦ serve_requests fuel services s' c'
          ]
    ]
  ]

  unfoldable pub refuse : Bytes → Handler S
  refuse text s c = (s, (do w ← io.write text c.sink; w ← io.flush w; ok (record c { sink = w })))

  -- `big` is the machine's byte order, and `refusal` the text for a client that does not say hello.
  unfoldable pub accept : Bool → Bytes → ℕ → List (Service S) → Handler S
  unfolding refuse serve_requests
  accept big refusal fuel services s c = elim (io.read_byte c.source) [
    | err e ↦ (s, err e)
    | ok (b, r) ↦ elim (b == client_byte client_hello) [
      | false ↦ refuse refusal s (record c { source = r })
      | true ↦ elim (write_server_hello io big (map (λ service. service.info) services) c.sink) [
        | err e ↦ (s, err e)
        | ok w ↦ serve_requests fuel services s (record { source = r; sink = w })
      ]
    ]
  ]

  -- `send_goodbye`: the server ends the connection by itself.
  unfoldable pub send_goodbye : List (Service S) → Handler S
  unfolding unsubscribe_all
  send_goodbye services s c =
      (unsubscribe_all services s, (do w ← write_goodbye io c.sink; ok (record c { sink = w })))

  -- `serve` on the connections that the listener accepts, until it fails; an error of a connection is
  -- printed. Each connection with what became of it.
  pub serve : Bool → Bytes → ℕ → List (Service S) → S → List Conn → S × List (Result Conn)
  unfolding accept
  serve big refusal fuel services s [] = (s, [])
  serve big refusal fuel services s (c ∷ cs) =
      let (s', result) = accept big refusal fuel services s c in
      let (s'', results) = serve big refusal fuel services s' cs in (s'', result ∷ results)
