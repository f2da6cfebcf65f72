-- ===== src/Server/Generated.antt =====
-- The service base that `generate_service_server_base` writes for a service: a dispatch function for
-- each method, the table of them, `send_<method>` and `unsubscribe_all`.
--
-- The implementation behind a base is a parameter: the state `I` and what each method does to it. It
-- reports at most one error, and sends no event while it is called.
pub mod Answering
use serialrpc.Base.{
  ℕ, zero, suc, ◌+◌, ◌%◌, ◌^◌, ◌==◌, if◌then◌else◌, Bool, true, false, not, Option, some, none,
  List, [], ◌∷◌,
}
use serialrpc.Io.{Io, Bytes, Source, Sink, Result, ok, err, ◌>>=◌, panic_null}
use serialrpc.Rpc.{ServiceInfo, reply}
use serialrpc.Encoding.Marshal.{Fields, nil}
use serialrpc.Encoding.Schema.{Schema}
use serialrpc.Encoding.Unmarshal.{unmarshal}
use serialrpc.Server.Dispatch.{Conn, Handler, DispatchFunc, Service, send_code}
use serialrpc.Server.Messages.{
  send_reply_msg, send_reply_void, send_event, send_event_void, handle_error,
}

-- What a method of the implementation ends with: a result, or the pieces of the error that it gives
-- its `handler_err`.
pub data Answer : Type 0 where
  returned : Fields → Answer
  failed : List Bytes → Answer

-- A method as the generator sees it: `parameter` and `has_result` for its types.
pub record Unary (I : Type 0) : Type 0 where
  pub parameter : Option Schema
  pub has_result : Bool
  pub run : Fields → I → I × Answer

pub record Streaming (I : Type 0) : Type 0 where
  pub parameter : Option Schema
  pub has_result : Bool
  pub subscribe : Fields → I → I × Option (List Bytes)
  pub unsubscribe : I → I × Option (List Bytes)

pub data Method (I : Type 0) : Type 0 where
  unary : Unary I → Method I
  streaming : Streaming I → Method I

-- The members of a base: `event_conn` is null or the connection, and `ids` has the number of the
-- endpoint of each streaming method, by the method's place in the service; -1 is 2^32 - 1.
pub record Base (I : Type 0) : Type 0 where
  pub implementation : I
  pub event_conn : Bool
  pub ids : ℕ → ℕ

-- How a base stands in the state of the server: `static_cast<Base*>(service)`.
pub record Place (S I : Type 0) : Type 0 where
  pub base : S → Base I
  pub put_base : Base I → S → S

unfoldable pub set_id : ℕ → ℕ → (ℕ → ℕ) → ℕ → ℕ
set_id k id ids j = if k == j then id else ids j

module _ (io : Io) (big : Bool) where
  -- `T msg = serialrpc::unmarshal<T>(conn, err)`, if the method has a parameter.
  unfoldable pub read_parameter : ℕ → Option Schema → Source → Result (Fields × Source)
  read_parameter fuel none s = ok (nil, s)
  read_parameter fuel (some schema) s = unmarshal io fuel schema s

  unfoldable pub with_sink : Result Sink → Conn → Result Conn
  with_sink (err e) c = err e
  with_sink (ok w) c = ok (record c { sink = w })

  -- An error has been sent when the method returns; the dispatch function returns then.
  unfoldable pub answer_call : Bool → Answer → Conn → Result Conn
  unfolding with_sink
  answer_call has_result (failed pieces) c = with_sink (handle_error io pieces c.sink) c
  answer_call true (returned resp) c = with_sink (send_reply_msg io big resp c.sink) c
  answer_call false (returned resp) c = with_sink (send_reply_void io c.sink) c

  unfoldable pub answer_subscribe : Option (List Bytes) → Conn → Result Conn
  unfolding with_sink
  answer_subscribe (some pieces) c = with_sink (handle_error io pieces c.sink) c
  answer_subscribe none c = send_code io reply c

  module _ {S I : Type 0} (fuel : ℕ) (at : Place S I) where
    unfoldable pub dispatch_unary : Unary I → DispatchFunc S
    unfolding read_parameter answer_call
    dispatch_unary method rpc_id s c = elim (read_parameter fuel method.parameter c.source) [
      | err e ↦ (s, err e)
      | ok (msg, source) ↦
          let b = at.base s in
          let (i, answer) = method.run msg b.implementation in
          (
            at.put_base (record b { implementation = i }) s,
            answer_call method.has_result answer (record c { source = source }),
          )
    ]

    unfoldable pub subscribe_method : Streaming I → ℕ → DispatchFunc S
    unfolding read_parameter answer_subscribe set_id
    subscribe_method method k rpc_id s c = elim (read_parameter fuel method.parameter c.source) [
      | err e ↦ (s, err e)
      | ok (msg, source) ↦
          let b = at.base s in
          let (i, error) = method.subscribe msg b.implementation in
          (
            at.put_base
                (record b {
                  implementation = i;
                  event_conn = true;
                  ids = set_id k (rpc_id % 2 ^ 32) b.ids;
                })
                s,
            answer_subscribe error (record c { source = source }),
          )
    ]

    unfoldable pub unsubscribe_method : Streaming I → Handler S
    unfolding answer_subscribe
    unsubscribe_method method s c =
        let b = at.base s in
        let (i, error) = method.unsubscribe b.implementation in
        (at.put_base (record b { implementation = i }) s, answer_subscribe error c)

    -- `k` is the place of the method in its service.
    unfoldable pub dispatch_streaming : Streaming I → ℕ → DispatchFunc S
    unfolding subscribe_method unsubscribe_method
    dispatch_streaming method k rpc_id s c = elim (io.read_byte c.source) [
      | err e ↦ (s, err e)
      | ok (enabled, source) ↦
          let c' = record c { source = source } in
          if enabled == 0
          then unsubscribe_method method s c'
          else subscribe_method method k rpc_id s c'
    ]

    unfoldable pub dispatch_method : ℕ → Method I → DispatchFunc S
    unfolding dispatch_unary dispatch_streaming
    dispatch_method k (unary method) = dispatch_unary method
    dispatch_method k (streaming method) = dispatch_streaming method k

    -- The initializer of `dispatch_table`: an entry for each method, in their order.
    unfoldable pub entries : ℕ → List (Method I) → List (DispatchFunc S)
    unfolding dispatch_method
    entries k [] = []
    entries k (method ∷ methods) = dispatch_method k method ∷ entries (suc k) methods

-- `send_<method>` of method `k`, on a connection with `w` sent. `err panic_null` is a call before
-- any subscription. The errors of the write itself are ignored.
unfoldable pub send_method :
    {I : Type 0} → Io → Bool → Streaming I → ℕ → Base I → Fields → Sink → Result Sink
send_method io big method k b msg w =
    if b.event_conn
    then if method.has_result
      then send_event io big (b.ids k) msg w
      else send_event_void io (b.ids k) w
    else err panic_null

module _ {I : Type 0} where
  -- `unsubscribe_<method>(error::ignore)` of every streaming method.
  unfoldable pub unsubscribe_methods : List (Method I) → I → I
  unsubscribe_methods [] i = i
  unsubscribe_methods (unary method ∷ methods) i = unsubscribe_methods methods i
  unsubscribe_methods (streaming method ∷ methods) i =
      unsubscribe_methods methods (method.unsubscribe i).0

  unfoldable pub unsubscribe_base : List (Method I) → Base I → Base I
  unfolding unsubscribe_methods
  unsubscribe_base methods b = record b {
    implementation = unsubscribe_methods methods b.implementation;
    event_conn = false;
  }

-- The base of a service with its methods, as an entry of a server.
unfoldable pub service_base :
    {S I : Type 0} → Io → Bool → ℕ → Place S I → ServiceInfo → List (Method I) → Service S
unfolding entries unsubscribe_base
service_base io big fuel at info methods = record {
  info = info;
  dispatch_table = entries io big fuel at 0 methods;
  unsubscribe = λ s. at.put_base (unsubscribe_base methods (at.base s)) s;
}
