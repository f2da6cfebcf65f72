-- ===== src/Client/Hello/Offsets.antt =====
-- The endpoint number that a stub takes from the hello of a server.
use serialrpc.Base.{
  ℕ, ◌+◌, ◌<◌, ◌≤◌, ◌^◌, ◌≡◌, ◌∙◌, refl, true, false, Bool, none, List, [], ◌∷◌, ◌++◌, length, All,
  pos, ltb_ℤ, eqb_ℤ, arith,
}
use serialrpc.Io.{Io, Source, ok}
use serialrpc.Io.Laws.{Laws}
use serialrpc.Rpc.{ServiceInfo}
use serialrpc.Server.Messages.Laws.{InfoInRange, hello_fields}
use serialrpc.Client.Hello.{Stub, read_services_def}
use serialrpc.Client.Hello.Services.{endpoints_before}
use serialrpc.Client.Hello.Learned.{
  is_for, mismatch, mismatch_of, first_mismatch, learned, read_services_def-hello,
}

learned_nothing :
    (offset : ℕ) (infos : List ServiceInfo) (stub : Stub)
    → All (λ info. is_for info stub ≡ false) infos
    → (first_mismatch infos (stub ∷ []) ≡ none) × (learned offset infos stub ≡ stub)
learned_nothing offset [] stub h = (refl, refl)
learned_nothing offset (info ∷ infos) stub (other, h) =
    let (fits, same) = learned_nothing (offset + info.num_endpoints) infos stub h in
    let fine : mismatch info stub ≡ none = rw (other) refl in
    (rw (fine, first_mismatch, mismatch_of) fits, rw (other) same)

add_nothing : (a : ℕ) → a + 0 ≡ a
add_nothing a = omega arith

add_in_front : (a b c : ℕ) → a + (b + c) ≡ a + b + c
add_in_front a b c = omega arith

learned_once :
    (before after : List ServiceInfo) (info : ServiceInfo) (offset : ℕ) (stub : Stub)
    → All (λ info. is_for info stub ≡ false) before
    → All (λ info. is_for info stub ≡ false) after
    → is_for info stub ≡ true
    → mismatch info stub ≡ none
    → (first_mismatch (before ++ info ∷ after) (stub ∷ []) ≡ none)
      × (learned offset (before ++ info ∷ after) stub
          ≡ record stub { connected = true; rpc_offset = pos (offset + endpoints_before before) })
learned_once [] after info offset stub hb ha same fits =
    let met = record stub { connected = true; rpc_offset = pos offset } in
    (
      rw (fits, first_mismatch, mismatch_of) (learned_nothing offset after stub ha).0,
      rw (learned, same, add_nothing offset)
          (learned_nothing (offset + info.num_endpoints) after met ha).1,
    )
learned_once (next ∷ before) after info offset stub (other, hb) ha same fits =
    let (later, there) =
      learned_once before after info (offset + next.num_endpoints) stub hb ha same fits in
    let fine : mismatch next stub ≡ none = rw (other) refl in
    (
      rw (fine, first_mismatch, mismatch_of) later,
      rw (learned, other, add_in_front offset next.num_endpoints (endpoints_before before)) there,
    )

module _ (io : Io) (laws : Laws io) where
  -- A client with one stub reads the hello of a server that has one service with the stub's uuid, in
  -- the same major version and no smaller minor version, all numbers being in range, with fewer than
  -- 2^31 - 1 endpoints and fuel of twelve more than the services: the stub is connected, at one more
  -- than the endpoints of the services in front.
  pub read_services_def-connects :
      (big : Bool) (before after : List ServiceInfo) (info : ServiceInfo) (fuel : ℕ) (stub : Stub)
      (rest : Source)
      → let infos = before ++ info ∷ after in
        All InfoInRange infos
        → length infos + 12 ≤ fuel
        → 1 + endpoints_before infos < 2 ^ 31
        → All (λ info. is_for info stub ≡ false) before
        → All (λ info. is_for info stub ≡ false) after
        → is_for info stub ≡ true
        → eqb_ℤ stub.info.major_version info.major_version ≡ true
        → ltb_ℤ info.minor_version stub.info.minor_version ≡ false
        → read_services_def io fuel (stub ∷ []) (hello_fields io big laws infos ++ rest)
          ≡ ok (
            record stub { connected = true; rpc_offset = pos (1 + endpoints_before before) } ∷ [],
            rest,
          )
  read_services_def-connects big before after info fuel stub rest h le lt hb ha same major minor =
      let fits : mismatch info stub ≡ none = rw (same, major, minor) refl in
      let (fine, there) = learned_once before after info 1 stub hb ha same fits in
      read_services_def-hello io laws big (before ++ info ∷ after) fuel (stub ∷ []) rest h le lt
        (tt, tt)
      ∙ rw (fine, there) refl
