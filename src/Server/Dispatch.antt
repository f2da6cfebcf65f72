-- ===== src/Server/Dispatch.antt =====
-- The dispatch table of a `Server`: the methods of its services, one service after another.
pub mod Table
use serialrpc.Base.{
  ℕ, zero, suc, ◌+◌, ◌%◌, ◌^◌, ltb, leb, if◌then◌else◌, List, [], ◌∷◌, ◌++◌, map, length, set,
  replicate, get_elem?, Option, none, some,
}
use serialrpc.Io.{Io, Source, Sink, Result, ok, err, ◌>>=◌}
use serialrpc.Rpc.{ServiceInfo, ServerMessageType, unknown, server_byte}

-- What has been received and not read, and what has been sent.
pub record Conn : Type 0 where
  pub source : Source
  pub sink : Sink

-- A handler changes the state `S` of the services, also when it fails.
abbrev pub Handler : Type 0 → Type 0
Handler S = S → Conn → S × Result Conn

-- The function of an entry has the entry's number too.
abbrev pub DispatchFunc : Type 0 → Type 0
DispatchFunc S = ℕ → Handler S

-- A service base of the generator, with the implementation behind it.
pub record Service (S : Type 0) : Type 0 where
  pub info : ServiceInfo
  pub dispatch_table : List (DispatchFunc S)
  pub unsubscribe : S → S

module _ {ℓ} {A : Type ℓ} where
  unfoldable pub sizes : List (List A) → ℕ
  sizes [] = 0
  sizes (array ∷ arrays) = length array + sizes arrays

  -- `for (value : array) result[offset++] = value;`
  unfoldable pub append_array : List A → ℕ → List A → List A × ℕ
  append_array result offset [] = (result, offset)
  append_array result offset (value ∷ array) =
      append_array (set result offset value) (suc offset) array

  unfoldable pub append_arrays : List A → ℕ → List (List A) → List A
  unfolding append_array
  append_arrays result offset [] = result
  append_arrays result offset (array ∷ arrays) =
      let (result', offset') = append_array result offset array in
      append_arrays result' offset' arrays

  -- `empty` is what `std::array<T, N> result{}` holds.
  unfoldable pub concatenate_arrays : A → List (List A) → List A
  unfolding sizes append_arrays
  concatenate_arrays empty arrays = append_arrays (replicate (sizes arrays) empty) 0 arrays

module _ (io : Io) where
  unfoldable pub send_code : ServerMessageType → Conn → Result Conn
  send_code type c = do
    w ← io.write_byte (server_byte type) c.sink
    w ← io.flush w
    ok (record c { sink = w })

module _ {S : Type 0} where
  -- A null entry, which no table of a server has.
  abbrev pub no_handler : DispatchFunc S
  no_handler rpc_id s c = (s, ok c)

  unfoldable pub dispatch_table : List (Service S) → List (DispatchFunc S)
  unfolding concatenate_arrays
  dispatch_table services = concatenate_arrays no_handler (map (λ s. s.dispatch_table) services)

  unfoldable pub call_entry : Option (DispatchFunc S) → DispatchFunc S
  call_entry none = no_handler
  call_entry (some dispatch) = dispatch

  unfoldable pub unsubscribe_all : List (Service S) → S → S
  unsubscribe_all [] s = s
  unsubscribe_all (service ∷ services) s = unsubscribe_all services (service.unsubscribe s)

  -- `rpc_id` counts from 0 here.
  unfoldable pub handle_request : Io → List (Service S) → DispatchFunc S
  unfolding dispatch_table call_entry send_code
  handle_request io services rpc_id s c =
      let table = dispatch_table services in
      if leb (length table % 2 ^ 32) rpc_id
      then (s, send_code io unknown c)
      else call_entry (get_elem? table rpc_id) rpc_id s c
