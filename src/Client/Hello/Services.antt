-- ===== src/Client/Hello/Services.antt =====
-- What a client learns from the hello of a server.
use serialrpc.Base.{
  ℕ, zero, suc, ◌+◌, ◌%◌, ◌<◌, ◌≤◌, ◌^◌, ◌≡◌, ◌==◌, ◌∙◌, refl, sym, lt→ltb, Bool, false, List, [],
  ◌∷◌, ◌++◌, append_assoc, All, length, ℤ, pos, ◌+ℤ◌, arith, if◌then◌else◌, Bool-cases, inl, inr,
}
use serialrpc.Io.{Io, Source, Result, ok, err, ◌>>=◌, protocol_mismatch}
use serialrpc.Io.Bind.{bind_assoc, bind_ext}
use serialrpc.Io.Laws.{Laws}
use serialrpc.Rpc.{ServiceInfo, protocol_version}
use serialrpc.Encoding.Tag.{TagType, var_int, start, end_tag, code, bits_of_tag, read_tag}
use serialrpc.Encoding.Tag.RoundTrip.{IsNamed, tag_bytes, read_tag-write_tag}
use serialrpc.Encoding.Marshal.Encode.{
  encode, encode_fields, FieldsInRange, InRange, depth_fields, wrap,
}
use serialrpc.Encoding.Schema.{lookup}
use serialrpc.Encoding.Unmarshal.{unmarshal}
use serialrpc.Encoding.Unmarshal.Conforms.{
  Conforms, entry_conforms, end_conforms, int32_has, inline_has, received_fields,
  encode_fields_empty, fields_blank, is_blank,
}
use serialrpc.Encoding.Unmarshal.Structs.{Placed, IsSound, cost_fields}
use serialrpc.Encoding.Unmarshal.RoundTrip.{unmarshal-encode}
use serialrpc.Server.Messages.{ServiceDef, to_int32, to_service_def, service_def_fields}
use serialrpc.Server.Messages.Laws.{InfoInRange, def-InRange, description_bytes, hello_fields}
use serialrpc.Client.Hello.{
  Stub, wrap_int32, service_def_schema, int32_of, text_of, to_def, handle_service_def, read_version,
  read_service, read_services, read_services_def,
}

-- What the services of a server, in their order, tell the stubs of a client. `offset` is the number of
-- the first endpoint.
unfoldable pub agree : ℕ → List ServiceInfo → List Stub → Result (List Stub)
agree offset [] stubs = ok stubs
agree offset (info ∷ infos) stubs = do
  stubs ← handle_service_def (to_service_def info) (pos offset) stubs
  agree (offset + info.num_endpoints) infos stubs

-- The endpoints of the services in front.
abbrev pub endpoints_before : List ServiceInfo → ℕ
endpoints_before [] = 0
endpoints_before (info ∷ infos) = info.num_endpoints + endpoints_before infos

def-Conforms :
    (def : ServiceDef) → length def.uuid ≤ 16 → Conforms service_def_schema (service_def_fields def)
def-Conforms def le =
    entry_conforms (inline_has le)
      (entry_conforms int32_has (entry_conforms int32_has (entry_conforms int32_has end_conforms)))

to_def_lem : (def : ServiceDef) → to_def (service_def_fields def) ≡ def
unfolding to_def int32_of text_of
to_def_lem def = refl

endpoints_lem :
    (info : ServiceInfo)
    → InfoInRange info
    → (to_service_def info).num_endpoints ≡ pos info.num_endpoints
unfolding to_service_def to_int32
endpoints_lem info h = rw (lt→ltb info.num_endpoints (2 ^ 31) h.endpoints_fit) refl

pos_add : (a b : ℕ) → a + b < 2 ^ 31 → wrap_int32 (pos a +ℤ pos b) ≡ pos (a + b)
unfolding wrap_int32 to_int32
pos_add a b lt =
    let sum : pos a +ℤ pos b ≡ pos (a + b) = ground arith in
    let small : (a + b) % 2 ^ 32 ≡ a + b = omega arith in
    rw (sum, small, lt→ltb (a + b) (2 ^ 31) lt) refl

module _ (io : Io) (laws : Laws io) where
  def_read :
      (info : ServiceInfo) (fuel : ℕ) (rest : Source)
      → InfoInRange info
      → 10 ≤ fuel
      → unmarshal io fuel service_def_schema
          (encode io laws (service_def_fields (to_service_def info)) ++ rest)
        ≡ ok (service_def_fields (to_service_def info), rest)
  unfolding received_fields Placed IsSound cost_fields FieldsInRange InRange depth_fields
      to_service_def lookup
  def_read info fuel rest h le =
      unmarshal-encode io laws (def-Conforms (to_service_def info) (omega (arith, h.uuid_length)))
        rest fuel (def-InRange info h) (omega arith)
        (
          refl,
          refl,
          omega arith,
          (refl, refl, omega arith, (refl, refl, omega arith, (refl, refl, omega arith, tt))),
        )
        (tt, (tt, (tt, (tt, tt)))) (omega arith)

  not_blank :
      (def : ServiceDef) → length def.uuid ≡ 16 → fields_blank (service_def_fields def) ≡ false
  unfolding fields_blank is_blank
  not_blank def e = rw (e) refl

  -- A description is a `ServiceDef` as `marshal` writes it, in a field with the number 2.
  description_split :
      (info : ServiceInfo) (rest : Source)
      → InfoInRange info
      → wrap io laws 2 (encode_fields io laws (service_def_fields (to_service_def info))) ++ rest
        ≡ tag_bytes io laws 2 start
          ++ (encode io laws (service_def_fields (to_service_def info)) ++ rest)
  unfolding encode to_service_def
  description_split info rest h =
      rw
        (
          encode_fields_empty io laws (service_def_fields (to_service_def info)),
          not_blank (to_service_def info) h.uuid_length,
        )
        (append_assoc (tag_bytes io laws 2 start) _ rest)

  service_read :
      (fuel offset : ℕ) (info : ServiceInfo) (stubs : List Stub) (rest : Source)
      → InfoInRange info
      → 10 ≤ fuel
      → offset + info.num_endpoints < 2 ^ 31
      → read_service io fuel
          (pos offset)
          stubs
          (encode io laws (service_def_fields (to_service_def info)) ++ rest)
        ≡ (handle_service_def (to_service_def info) (pos offset) stubs >>= λ stubs.
            ok (pos (offset + info.num_endpoints), stubs, rest))
  unfolding read_service
  service_read fuel offset info stubs rest h le lt =
      rw
        (
          def_read info fuel rest h le,
          to_def_lem (to_service_def info),
          endpoints_lem info h,
          pos_add offset info.num_endpoints lt,
        )
        refl

  tag_of :
      (f : ℕ) (t : TagType) (r : Source)
      → IsNamed t
      → f < 2 ^ 28
      → read_tag io (tag_bytes io laws f t ++ r) ≡ ok (record { type = t; field_num = pos f }, r)
  tag_of f t r h lt =
      rw (lt→ltb f (2 ^ 28) lt) at (read_tag-write_tag io laws f t r h (omega arith)).1

  one_service :
      (fuel offset : ℕ) (info : ServiceInfo) (stubs : List Stub) (rest : Source)
      → InfoInRange info
      → 10 ≤ fuel
      → offset + info.num_endpoints < 2 ^ 31
      → read_services io (suc fuel) (pos offset) stubs (
          wrap io laws 2 (encode_fields io laws (service_def_fields (to_service_def info))) ++ rest)
        ≡ (handle_service_def (to_service_def info) (pos offset) stubs >>= λ stubs.
            read_services io fuel (pos (offset + info.num_endpoints)) stubs rest)
  unfolding read_services
  one_service fuel offset info stubs rest h le lt =
      rw
        (
          description_split info rest h,
          tag_of 2 start (encode io laws (service_def_fields (to_service_def info)) ++ rest) tt
              (omega arith),
          read_services,
          service_read fuel offset info stubs rest h le lt,
        )
        (bind_assoc (handle_service_def (to_service_def info) (pos offset) stubs) _ _)

  hello_ends :
      (fuel : ℕ) (offset : ℤ) (stubs : List Stub) (rest : Source)
      → read_services io (suc fuel) offset stubs (code end_tag ∷ rest) ≡ ok (stubs, rest)
  unfolding read_services bits_of_tag
  hello_ends fuel offset stubs rest =
      rw
        (
          rw (laws.uvarint_small 4 (omega arith)) at (tag_of 0 end_tag rest tt (omega arith)),
          read_services,
        )
        refl

  descriptions_read :
      (big : Bool) (infos : List ServiceInfo) (fuel offset : ℕ) (stubs : List Stub) (rest : Source)
      → All InfoInRange infos
      → length infos + 11 ≤ fuel
      → offset + endpoints_before infos < 2 ^ 31
      → read_services io fuel
          (pos offset)
          stubs
          (description_bytes io big laws infos ++ code end_tag ∷ rest)
        ≡ (agree offset infos stubs >>= λ stubs. ok (stubs, rest))
  unfolding agree
  descriptions_read big infos zero offset stubs rest h le lt = absurd (omega arith)
  descriptions_read big [] (suc fuel) offset stubs rest h le lt =
      hello_ends fuel (pos offset) stubs rest
  descriptions_read big (info ∷ infos) (suc fuel) offset stubs rest (h, hs) le lt =
      rw
        (
          append_assoc
              (wrap io laws 2 (encode_fields io laws (service_def_fields (to_service_def info))))
              (description_bytes io big laws infos) (code end_tag ∷ rest),
          one_service fuel offset info stubs
              (description_bytes io big laws infos ++ code end_tag ∷ rest) h (omega arith)
              (omega arith),
        )
        (bind_ext (handle_service_def (to_service_def info) (pos offset) stubs) _ _ (λ stubs.
            descriptions_read big infos fuel (offset + info.num_endpoints) stubs rest hs
              (omega arith) (omega arith))
          ∙ sym (bind_assoc (handle_service_def (to_service_def info) (pos offset) stubs) _ _))

  -- Reading the version field.
  version_read :
      (fuel version : ℕ) (offset : ℤ) (stubs : List Stub) (rest : Source)
      → version < 2 ^ 32
      → read_services io
          (suc fuel)
          offset
          stubs
          (tag_bytes io laws 1 var_int ++ (laws.uvarint version ++ rest))
        ≡ (if version == protocol_version
            then read_services io fuel offset stubs rest
            else err (protocol_mismatch version))
  unfolding read_services read_version
  version_read fuel version offset stubs rest h =
      rw
        (
          tag_of 1 var_int (laws.uvarint version ++ rest) tt (omega arith),
          read_services,
          laws.read_uint32_eq version rest h,
        )
        (elim (Bool-cases (version == protocol_version)) [
          | inl e ↦ rw (e) refl
          | inr e ↦ rw (e) refl
        ])

  pub read_services_def-agree :
      (big : Bool) (infos : List ServiceInfo) (fuel : ℕ) (stubs : List Stub) (rest : Source)
      → All InfoInRange infos
      → length infos + 12 ≤ fuel
      → 1 + endpoints_before infos < 2 ^ 31
      → read_services_def io fuel stubs (hello_fields io big laws infos ++ rest)
        ≡ (agree 1 infos stubs >>= λ stubs. ok (stubs, rest))
  unfolding read_services_def
  read_services_def-agree big infos zero stubs rest h le lt = absurd (omega arith)
  read_services_def-agree big infos (suc fuel) stubs rest h le lt =
      let tail = description_bytes io big laws infos ++ code end_tag ∷ [] in
      rw
        (
          append_assoc (tag_bytes io laws 1 var_int) (laws.uvarint protocol_version ++ tail) rest,
          append_assoc (laws.uvarint protocol_version) tail rest,
          append_assoc (description_bytes io big laws infos) (code end_tag ∷ []) rest,
          version_read fuel protocol_version (pos 1) stubs
              (description_bytes io big laws infos ++ code end_tag ∷ rest) (omega arith),
        )
        (descriptions_read big infos fuel 1 stubs rest h (omega arith) lt)

  -- A hello with another protocol version is refused, whatever follows the version.
  pub read_services_def-mismatch :
      (fuel version : ℕ) (stubs : List Stub) (rest : Source)
      → version < 2 ^ 32
      → (version == protocol_version) ≡ false
      → read_services_def io
          (suc fuel)
          stubs
          (tag_bytes io laws 1 var_int ++ (laws.uvarint version ++ rest))
        ≡ err (protocol_mismatch version)
  unfolding read_services_def
  read_services_def-mismatch fuel version stubs rest h e =
      rw (version_read fuel version (pos 1) stubs rest h, e) refl
