-- ===== src/Client/Hello/Learned.antt =====
-- What each stub of a client has from the hello of a server.
use serialrpc.Base.{
  ℕ, ◌+◌, ◌<◌, ◌≤◌, ◌^◌, ◌≡◌, ◌∙◌, refl, ap, subst, true, false, Bool, Bool-cases, Option-cases,
  Option, some, none, inl, inr, List, [], ◌∷◌, ◌++◌, map, length, All, pos, ltb_ℤ, eqb_ℤ,
  if◌then◌else◌,
}
use serialrpc.Io.{Io, Source, Error, Result, ok, err, major_mismatch, minor_too_low}
use serialrpc.Io.Laws.{Laws}
use serialrpc.Rpc.{ServiceInfo}
use serialrpc.Server.Messages.{to_service_def}
use serialrpc.Server.Messages.Laws.{InfoInRange, hello_fields}
use serialrpc.Client.Hello.{
  Stub, same_bytes, full_name, match_stub, handle_service_def, read_services_def,
}
use serialrpc.Client.Hello.SameBytes.{same_bytes→≡}
use serialrpc.Client.Hello.Services.{agree, endpoints_before, read_services_def-agree}

abbrev pub is_for : ServiceInfo → Stub → Bool
is_for info stub = same_bytes stub.info.uuid info.uuid

-- Why a stub cannot use a service that it is for: another major version, or a minor version below its
-- own.
abbrev pub mismatch : ServiceInfo → Stub → Option Error
mismatch info stub =
    if is_for info stub
    then (if eqb_ℤ stub.info.major_version info.major_version
        then (if ltb_ℤ info.minor_version stub.info.minor_version
            then some (minor_too_low (full_name stub.info))
            else none)
        else some (major_mismatch (full_name stub.info)))
    else none

abbrev pub mismatch_of : ServiceInfo → List Stub → Option Error
mismatch_of info [] = none
mismatch_of info (stub ∷ stubs) = elim (mismatch info stub) [
  | some e ↦ some e
  | none ↦ mismatch_of info stubs
]

-- The first in the order of the services.
abbrev pub first_mismatch : List ServiceInfo → List Stub → Option Error
first_mismatch [] stubs = none
first_mismatch (info ∷ infos) stubs = elim (mismatch_of info stubs) [
  | some e ↦ some e
  | none ↦ first_mismatch infos stubs
]

-- What a stub has from a service whose first endpoint has the number `offset`.
abbrev pub learn : ℕ → ServiceInfo → Stub → Stub
learn offset info stub = record stub {
  connected = if is_for info stub then true else stub.connected;
  rpc_offset = if is_for info stub then pos offset else stub.rpc_offset;
}

-- From the last of the services that it is for, if there is one.
abbrev pub learned : ℕ → List ServiceInfo → Stub → Stub
learned offset [] stub = stub
learned offset (info ∷ infos) stub =
    learned (offset + info.num_endpoints) infos (learn offset info stub)

abbrev pub DistinctUuids : List Stub → Type 0
DistinctUuids [] = Unit {0}
DistinctUuids (stub ∷ stubs) =
    All (λ other. same_bytes other.info.uuid stub.info.uuid ≡ false) stubs × DistinctUuids stubs

-- The result of reading.
abbrev pub result : {A : Type 0} → Option Error → A → Result A
result (some e) a = err e
result none a = ok a

not_for :
    (offset : ℕ) (info : ServiceInfo) (stubs : List Stub)
    → All (λ stub. is_for info stub ≡ false) stubs
    → (mismatch_of info stubs ≡ none) × (map (learn offset info) stubs ≡ stubs)
not_for offset info [] h = (refl, refl)
not_for offset info (stub ∷ stubs) (other, h) =
    let (none_of, same) = not_for offset info stubs h in
    let fits : mismatch info stub ≡ none = rw (other) refl in
    (rw (fits, mismatch_of) none_of, rw (other) (ap (◌∷◌ stub) same))

match_lem :
    (offset : ℕ) (info : ServiceInfo) (stub : Stub)
    → is_for info stub ≡ true
    → match_stub (to_service_def info) (pos offset) stub
      ≡ result (mismatch info stub) (learn offset info stub)
unfolding match_stub to_service_def
match_lem offset info stub same =
    elim (Bool-cases (eqb_ℤ stub.info.major_version info.major_version)) [
      | inr other ↦ rw (same, other) refl
      | inl major ↦ elim (Bool-cases (ltb_ℤ info.minor_version stub.info.minor_version)) [
        | inl low ↦ rw (same, major, low) refl
        | inr fits ↦ rw (same, major, fits) refl
      ]
    ]

handle_service_def_lem :
    (offset : ℕ) (info : ServiceInfo) (stubs : List Stub)
    → DistinctUuids stubs
    → handle_service_def (to_service_def info) (pos offset) stubs
      ≡ result (mismatch_of info stubs) (map (learn offset info) stubs)
unfolding handle_service_def to_service_def
handle_service_def_lem offset info [] d = refl
handle_service_def_lem offset info (stub ∷ stubs) (others, d) =
    elim (Bool-cases (is_for info stub)) [
      | inr other ↦
          let rest = handle_service_def_lem offset info stubs d in
          let fine : mismatch info stub ≡ none = rw (other) refl in
          elim (Option-cases (mismatch_of info stubs)) [
            | inl fits ↦ rw (fine, mismatch_of, other, rest, fits) refl
            | inr (e, bad) ↦ rw (fine, mismatch_of, other, rest, bad) refl
          ]
      | inl same ↦
          let uuid = same_bytes→≡ stub.info.uuid info.uuid same in
          let unconcerned : All (λ other. is_for info other ≡ false) stubs =
            subst (λ u. All (λ other. same_bytes other.info.uuid u ≡ false) stubs) uuid others in
          let (none_of, kept) = not_for offset info stubs unconcerned in
          elim (Option-cases (mismatch info stub)) [
            | inl fits ↦
                rw (match_lem offset info stub same, fits, mismatch_of, same, none_of, kept) refl
            | inr (e, bad) ↦ rw (match_lem offset info stub same, bad, mismatch_of, same) refl
          ]
    ]

kept_infos :
    (offset : ℕ) (info next : ServiceInfo) (stubs : List Stub)
    → mismatch_of next (map (learn offset info) stubs) ≡ mismatch_of next stubs
kept_infos offset info next [] = refl
kept_infos offset info next (stub ∷ stubs) =
    let rest = kept_infos offset info next stubs in
    elim (Option-cases (mismatch next stub)) [
      | inl fits ↦ rw (fits, mismatch_of) rest
      | inr (e, bad) ↦ rw (bad, mismatch_of) refl
    ]

first_mismatch-map :
    (offset : ℕ) (info : ServiceInfo) (infos : List ServiceInfo) (stubs : List Stub)
    → first_mismatch infos (map (learn offset info) stubs) ≡ first_mismatch infos stubs
first_mismatch-map offset info [] stubs = refl
first_mismatch-map offset info (next ∷ infos) stubs =
    let rest = first_mismatch-map offset info infos stubs in
    elim (Option-cases (mismatch_of next stubs)) [
      | inl fits ↦ rw (first_mismatch, kept_infos offset info next stubs, fits) rest
      | inr (e, bad) ↦ rw (first_mismatch, kept_infos offset info next stubs, bad) refl
    ]

DistinctUuids-map :
    (offset : ℕ) (info : ServiceInfo) (stubs : List Stub)
    → DistinctUuids stubs
    → DistinctUuids (map (learn offset info) stubs)
DistinctUuids-map offset info [] d = tt
DistinctUuids-map offset info (stub ∷ stubs) (others, d) =
    (All-map stub.info.uuid stubs others, DistinctUuids-map offset info stubs d)
  where
    All-map :
        (uuid : List ℕ) (stubs : List Stub)
        → All (λ other. same_bytes other.info.uuid uuid ≡ false) stubs
        → All (λ other. same_bytes other.info.uuid uuid ≡ false) (map (learn offset info) stubs)
    All-map uuid [] h = tt
    All-map uuid (other ∷ stubs) (differs, h) = (differs, All-map uuid stubs h)

learned_after :
    (offset : ℕ) (info : ServiceInfo) (infos : List ServiceInfo) (stubs : List Stub)
    → map (learned (offset + info.num_endpoints) infos) (map (learn offset info) stubs)
      ≡ map (learned offset (info ∷ infos)) stubs
learned_after offset info infos [] = refl
learned_after offset info infos (stub ∷ stubs) =
    ap (◌∷◌ (learned offset (info ∷ infos) stub)) (learned_after offset info infos stubs)

agree_lem :
    (offset : ℕ) (infos : List ServiceInfo) (stubs : List Stub)
    → DistinctUuids stubs
    → agree offset infos stubs
      ≡ result (first_mismatch infos stubs) (map (learned offset infos) stubs)
unfolding agree
agree_lem offset [] stubs d = ap ok (map_nothing stubs)
  where
    map_nothing : (stubs : List Stub) → stubs ≡ map (learned offset []) stubs
    map_nothing [] = refl
    map_nothing (stub ∷ stubs) = ap (◌∷◌ stub) (map_nothing stubs)
agree_lem offset (info ∷ infos) stubs d = elim (Option-cases (mismatch_of info stubs)) [
  | inr (e, bad) ↦ rw (handle_service_def_lem offset info stubs d, bad, first_mismatch) refl
  | inl fits ↦
      let learners = map (learn offset info) stubs in
      let rest =
        agree_lem (offset + info.num_endpoints) infos learners
          (DistinctUuids-map offset info stubs d) in
      rw
        (
          handle_service_def_lem offset info stubs d,
          fits,
          first_mismatch,
          rest,
          first_mismatch-map offset info infos stubs,
          learned_after offset info infos stubs,
        )
        refl
]

module _ (io : Io) (laws : Laws io) where
  -- A client with stubs of different uuids reads the hello of a server with any services whose numbers
  -- are in range, with fewer than 2^31 - 1 endpoints together and fuel of twelve more than the services.
  -- If a stub that is for a service has another major version or a greater minor version, the first
  -- such mismatch, in the order of the services, is the error. Else every stub that is for a service is
  -- connected, at one more than the endpoints in front of the last such service, the other stubs stay
  -- as they are, and what follows is left unread.
  pub read_services_def-hello :
      (big : Bool) (infos : List ServiceInfo) (fuel : ℕ) (stubs : List Stub) (rest : Source)
      → All InfoInRange infos
      → length infos + 12 ≤ fuel
      → 1 + endpoints_before infos < 2 ^ 31
      → DistinctUuids stubs
      → read_services_def io fuel stubs (hello_fields io big laws infos ++ rest)
        ≡ result (first_mismatch infos stubs) (map (learned 1 infos) stubs, rest)
  read_services_def-hello big infos fuel stubs rest h le lt d =
      read_services_def-agree io laws big infos fuel stubs rest h le lt
      ∙ elim (Option-cases (first_mismatch infos stubs)) [
        | inl fits ↦ rw (agree_lem 1 infos stubs d, fits) refl
        | inr (e, bad) ↦ rw (agree_lem 1 infos stubs d, bad) refl
      ]
