-- ===== src/Server/Dispatch/Table.antt =====
-- Which function an endpoint number reaches.
use native.Mathlib.Nat.{zero-add}
use Prim.Native.Nat.add
use serialrpc.Base.{
  ℕ, zero, suc, ◌+◌, ◌%◌, ◌^◌, ◌<◌, ◌≤◌, ◌≡◌, refl, sym, ap, leb, List, [], ◌∷◌, ◌++◌, map, length,
  length-append, set, replicate, flatten, append_assoc, get_elem?, get_elem?-append_left,
  get_elem?-append_right, some, arith, true, false, lt→leb, le→leb,
}
use serialrpc.Io.{Io, ok}
use serialrpc.Io.Laws.{Laws}
use serialrpc.Rpc.{unknown, server_byte}
use serialrpc.Server.Dispatch.{
  Conn, DispatchFunc, Service, sizes, append_array, append_arrays, concatenate_arrays,
  dispatch_table, handle_request, no_handler,
}

module _ {ℓ} {A : Type ℓ} where
  -- A write behind a filled front.
  set_front :
      (front back : List A) (x y : A) → set (front ++ x ∷ back) (length front) y ≡ front ++ y ∷ back
  set_front [] back x y = refl
  set_front (z ∷ front) back x y = ap (◌∷◌ z) (set_front front back x y)

  length-snoc : (front : List A) (x : A) → length (front ++ x ∷ []) ≡ suc (length front)
  length-snoc front x = omega (arith, length-append front (x ∷ []))

  append_array_lem :
      (front array back : List A) (empty : A)
      → append_array (front ++ (replicate (length array) empty ++ back)) (length front) array
        ≡ (front ++ (array ++ back), length front + length array)
  unfolding append_array
  append_array_lem front [] back empty = ap (λ (n : ℕ). (front ++ back, n)) (omega arith)
  append_array_lem front (x ∷ array) back empty =
      rw
        (
          set_front front (replicate (length array) empty ++ back) empty x,
          ← length-snoc front x,
          ← append_assoc front (x ∷ []) (replicate (length array) empty ++ back),
          append_array_lem (front ++ x ∷ []) array back empty,
          append_assoc,
        )
        (ap (λ (n : ℕ). (front ++ (x ∷ (array ++ back)), n)) (omega (arith, length-snoc front x)))

  replicate-add : (m n : ℕ) (x : A) → replicate (m + n) x ≡ replicate m x ++ replicate n x
  replicate-add zero n x = rw zero-add refl
  replicate-add (suc m) n x = rw (add.suc m n) (ap (◌∷◌ x) (replicate-add m n x))

  append_arrays_lem :
      (front : List A) (arrays : List (List A)) (empty : A)
      → append_arrays (front ++ replicate (sizes arrays) empty) (length front) arrays
        ≡ front ++ flatten arrays
  unfolding append_arrays sizes
  append_arrays_lem front [] empty = refl
  append_arrays_lem front (array ∷ arrays) empty =
      rw
        (
          replicate-add (length array) (sizes arrays) empty,
          append_array_lem front array (replicate (sizes arrays) empty) empty,
          ← length-append front array,
          ← append_assoc front array (replicate (sizes arrays) empty),
          append_arrays_lem (front ++ array) arrays empty,
        )
        (append_assoc front array (flatten arrays))

  -- The array that `concatenate_arrays` fills entry by entry is the given arrays one behind another.
  pub concatenate_arrays-flatten :
      (empty : A) (arrays : List (List A)) → concatenate_arrays empty arrays ≡ flatten arrays
  unfolding concatenate_arrays
  concatenate_arrays-flatten empty arrays = append_arrays_lem [] arrays empty

  get_elem?_lt : (xs : List A) (i : ℕ) (x : A) → get_elem? xs i ≡ some x → i < length xs
  get_elem?_lt [] i x e = cc
  get_elem?_lt (y ∷ xs) zero x e = omega arith
  get_elem?_lt (y ∷ xs) (suc i) x e = omega (arith, get_elem?_lt xs i x e)

flatten-append {ℓ} :
    {A : Type ℓ} (xs ys : List (List A)) → flatten (xs ++ ys) ≡ flatten xs ++ flatten ys
flatten-append [] ys = refl
flatten-append (x ∷ xs) ys =
    rw (flatten-append xs ys) (sym (append_assoc x (flatten xs) (flatten ys)))

map-append' {ℓ κ} :
    {A : Type ℓ} {B : Type κ} (f : A → B) (xs ys : List A) → map f (xs ++ ys) ≡ map f xs ++ map f ys
map-append' f [] ys = refl
map-append' f (x ∷ xs) ys = ap (◌∷◌ (f x)) (map-append' f xs ys)

module _ {S : Type 0} where
  -- The endpoints of the services in front.
  abbrev pub endpoints : List (Service S) → ℕ
  endpoints services = length (flatten (map (λ s. s.dispatch_table) services))

  pub endpoints-cons :
      (service : Service S) (services : List (Service S))
      → endpoints (service ∷ services) ≡ length service.dispatch_table + endpoints services
  endpoints-cons service services =
      length-append service.dispatch_table (flatten (map (λ s. s.dispatch_table) services))

  table_lem :
      (services : List (Service S))
      → dispatch_table services ≡ flatten (map (λ s. s.dispatch_table) services)
  unfolding dispatch_table
  table_lem services = concatenate_arrays-flatten no_handler (map (λ s. s.dispatch_table) services)

  pub table_entry :
      (before after : List (Service S)) (service : Service S) (j : ℕ) (dispatch : DispatchFunc S)
      → get_elem? service.dispatch_table j ≡ some dispatch
      → get_elem? (dispatch_table (before ++ service ∷ after)) (endpoints before + j)
        ≡ some dispatch
  table_entry before after service j dispatch e =
      rw
        (
          table_lem (before ++ service ∷ after),
          map-append' (λ (s : Service S). s.dispatch_table) before (service ∷ after),
          flatten-append (map (λ (s : Service S). s.dispatch_table) before)
              (map (λ (s : Service S). s.dispatch_table) (service ∷ after)),
          get_elem?-append_right (flatten (map (λ (s : Service S). s.dispatch_table) before))
              (service.dispatch_table ++ flatten (map (λ (s : Service S). s.dispatch_table) after))
              j,
          get_elem?-append_left service.dispatch_table
              (flatten (map (λ (s : Service S). s.dispatch_table) after)) j
              (get_elem?_lt _ j dispatch e),
        )
        e

  length-dispatch_table :
      (services : List (Service S)) → length (dispatch_table services) ≡ endpoints services
  length-dispatch_table services = ap length (table_lem services)

  pub endpoint_inside :
      (before after : List (Service S)) (service : Service S) (j : ℕ) (dispatch : DispatchFunc S)
      → get_elem? service.dispatch_table j ≡ some dispatch
      → endpoints before + j < endpoints (before ++ service ∷ after)
  endpoint_inside before after service j dispatch e = omega (
    arith,
    get_elem?_lt (dispatch_table (before ++ service ∷ after)) (endpoints before + j) dispatch
        (table_entry before after service j dispatch e),
    length-dispatch_table (before ++ service ∷ after),
  )

  -- The endpoint with the number of the endpoints in front plus `j` is method `j` of the service,
  -- in a table of fewer than 2^32 entries.
  pub handle_request_dispatches :
      (io : Io) (before after : List (Service S)) (service : Service S) (j : ℕ)
      (dispatch : DispatchFunc S) (s : S) (c : Conn)
      → endpoints (before ++ service ∷ after) < 2 ^ 32
      → get_elem? service.dispatch_table j ≡ some dispatch
      → handle_request io (before ++ service ∷ after) (endpoints before + j) s c
        ≡ dispatch (endpoints before + j) s c
  unfolding handle_request
  handle_request_dispatches io before after service j dispatch s c small e =
      rw (inside, table_entry before after service j dispatch e) refl
    where
      services : List (Service S)
      services = before ++ service ∷ after

      inside : leb (length (dispatch_table services) % 2 ^ 32) (endpoints before + j) ≡ false
      inside = rw (length-dispatch_table services) (
          lt→leb (endpoints before + j) (endpoints services % 2 ^ 32) (
            omega (
              arith,
              get_elem?_lt (dispatch_table services) (endpoints before + j) dispatch
                  (table_entry before after service j dispatch e),
              length-dispatch_table services,
            )))

  -- A number beyond the table is answered by one byte, and changes nothing in the services.
  pub handle_request_unknown :
      (io : Io) (laws : Laws io) (services : List (Service S)) (rpc_id : ℕ) (s : S) (c : Conn)
      → endpoints services < 2 ^ 32
      → endpoints services ≤ rpc_id
      → handle_request io services rpc_id s c
        ≡ (s, ok (record c { sink = c.sink ++ server_byte unknown ∷ [] }))
  unfolding handle_request
  handle_request_unknown io laws services rpc_id s c small beyond =
      rw
        (
          outside,
          laws.write_byte_eq (server_byte unknown) c.sink,
          laws.flush_eq (c.sink ++ server_byte unknown ∷ []),
        )
        refl
    where
      outside : leb (length (dispatch_table services) % 2 ^ 32) rpc_id ≡ true
      outside =
          rw (length-dispatch_table services)
            (le→leb (endpoints services % 2 ^ 32) rpc_id (omega arith))
