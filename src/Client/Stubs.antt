-- ===== src/Client/Stubs.antt =====
-- The stub that `generate_client` writes for a service: a function for each method, and for a streaming
-- method `subscribe_<method>`, `unsubscribe_<method>` and `handle_<method>`.
use serialrpc.Base.{
  ℕ, ◌+◌, ◌-◌, ◌%◌, ◌^◌, ◌==◌, if◌then◌else◌, Bool, true, false, ℤ, pos, negsuc, Option, some, none,
}
use serialrpc.Io.{Io, Bytes, Source, Result, Error, ok, err, ◌>>=◌}
use serialrpc.Encoding.Marshal.{Fields, nil}
use serialrpc.Encoding.Schema.{Schema, default_fields}
use serialrpc.Encoding.Unmarshal.{unmarshal}
use serialrpc.Client.State.{Callback, Client, Unit'}
use serialrpc.Client.Calls.{
  call, call_without_request, call_void, call_void_without_request, subscribe, subscribe_void,
  unsubscribe,
}
use serialrpc.Client.Hello.{Stub}
use serialrpc.Client.Input.{register_event_callback, unregister_event_callback}

-- A method as the generator sees it.
pub record Signature : Type 0 where
  pub name : Bytes
  pub has_parameter : Bool
  pub result : Option Schema

-- The stub of a service, with whether `<method>_cb` is set for the method at each place.
pub record ServiceStub : Type 0 where
  pub stub : Stub
  pub has_callback : ℕ → Bool

-- `id + this->rpc_offset`, as a uint32.
unfoldable pub endpoint_number : ℕ → ℤ → ℕ
endpoint_number id (pos n) = (id + n) % 2 ^ 32
endpoint_number id (negsuc n) = (id + (2 ^ 32 - (n + 1) % 2 ^ 32)) % 2 ^ 32

unfoldable pub set_callback : ℕ → Bool → ServiceStub → ServiceStub
set_callback id is_set s = record s {
  has_callback = λ j. if id == j then is_set else s.has_callback j;
}

-- `T msg = serialrpc::unmarshal<T>(conn, err)`, if the method has a result.
unfoldable pub read_message : Io → ℕ → Option Schema → Source → Result (Fields × Source)
read_message io fuel none s = ok (nil, s)
read_message io fuel (some schema) s = unmarshal io fuel schema s

-- `handle_<method>`: what is left to read, and what the callback is called with.
unfoldable pub handle_method :
    Io → ℕ → ℕ → Signature → ServiceStub → Source → Result (Option Fields × Source)
unfolding read_message
handle_method io fuel id method s source = do
  (msg, source) ← read_message io fuel method.result source
  ok (if s.has_callback id then some msg else none, source)

-- It as the client's input calls it.
unfoldable pub event_handler : Io → ℕ → ℕ → Signature → ServiceStub → Callback
unfolding handle_method
event_handler io fuel id method s source = do
  (called, source) ← handle_method io fuel id method s source
  ok source

-- `id` is the place of the method among those of its service, and `p` where the call's `CallData`
-- stands.
module _ (io : Io) (stringify : Error → Bytes) (big : Bool) (fuel p id : ℕ)
    (method : Signature) where
  unfoldable pub call_method : Fields → ServiceStub → Client Fields → Client Fields × Result Unit'
  unfolding endpoint_number call call_without_request call_void call_void_without_request
  call_method req s c =
      let number = endpoint_number id s.stub.rpc_offset in
      let service = s.stub.info.name in
      elim method.result [
        | some schema ↦
            let read = unmarshal io fuel schema in
            let initial = default_fields schema in
            if method.has_parameter
            then call io stringify big fuel number p service method.name read initial req c
            else call_without_request io stringify big fuel number p service method.name read
                initial c
        | none ↦
            if method.has_parameter
            then call_void io stringify big fuel number p service method.name req c
            else call_void_without_request io stringify big fuel number p service method.name c
      ]

  unfoldable pub subscribe_request :
      ℕ → Fields → ServiceStub → Client Fields → Client Fields × Result Unit'
  unfolding subscribe subscribe_void
  subscribe_request number req s c =
      if method.has_parameter
      then subscribe io stringify big fuel number p s.stub.info.name method.name req c
      else subscribe_void io stringify big fuel number p s.stub.info.name method.name c

  unfoldable pub subscribe_method :
      Fields → ServiceStub → Client Fields → ServiceStub × (Client Fields × Result Unit')
  unfolding endpoint_number set_callback subscribe_request event_handler
  subscribe_method req s c =
      let event_id = endpoint_number id s.stub.rpc_offset in
      let s' = set_callback id true s in
      let c' = register_event_callback event_id (event_handler io fuel id method s') c in
      (s', subscribe_request event_id req s' c')

  -- What `unsubscribe_<method>` does when its request has been answered.
  unfoldable pub unsubscribed :
      Result Unit' → ServiceStub → Client Fields → ServiceStub × Client Fields
  unfolding endpoint_number set_callback
  unsubscribed (err e) s c = (s, c)
  unsubscribed (ok u) s c =
      (set_callback id false s, unregister_event_callback (endpoint_number id s.stub.rpc_offset) c)

  unfoldable pub unsubscribe_request : ServiceStub → Client Fields → Client Fields × Result Unit'
  unfolding endpoint_number unsubscribe
  unsubscribe_request s c =
      unsubscribe io stringify big fuel (endpoint_number id s.stub.rpc_offset) p s.stub.info.name
        method.name c
