-- ===== src/Cli/Schema/Resolved.antt =====
-- In a descriptor that is built, every type name is one of a listed type.
use serialrpc.Base.{
  ℕ, zero, suc, ◌==◌, ◌≡◌, refl, sym, ap, subst, ◌∙◌, Bool, true, Bool-cases, Option-cases, inl,
  inr, eqb_ℤ, some, List, [], ◌∷◌, ◌++◌, get_elem?, set, All, if◌then◌else◌,
}
use serialrpc.Io.{Bytes, ok, err, schema_not_loaded}
use serialrpc.Io.Bind.{bind_ok, Result-cases}
use serialrpc.Cli.Method.{ListedType, ListedMethod, ListedService}
use serialrpc.Cli.Schema.{
  type_message, type_enum, EnumProto, contains_id, FieldProto, MessageProto, FileProto, Names,
  no_names, find_key, at_key, add_message, add_enum, add_type, add_types, field_protos, set_fields,
  set_enum, fill_type, fill_types, method_type, supports_discovery, build_method_descriptor,
}
use serialrpc.Cli.Schema.Fields.{
  FieldResolves, MessageResolves, err_not_ok, ok-injective, field_protos-FieldResolves,
}

All-set :
    (P : MessageProto → Type 0) (ms : List MessageProto) (i : ℕ) (m : MessageProto)
    → All P ms
    → P m
    → All P (set ms i m)
All-set P [] i m h p = tt
All-set P (x ∷ ms) zero m (q, h) p = (p, h)
All-set P (x ∷ ms) (suc i) m (q, h) p = (q, All-set P ms i m h p)

All-get :
    (P : MessageProto → Type 0) (ms : List MessageProto) (i : ℕ) (m : MessageProto)
    → All P ms
    → get_elem? ms i ≡ some m
    → P m
All-get P [] i m h e = absurd cc
All-get P (x ∷ ms) zero m (p, h) e = let same : x ≡ m = cc in subst P same p
All-get P (x ∷ ms) (suc i) m (p, h) e = All-get P ms i m h e

set_fields-MessageResolves :
    (n : Names) (i : ℕ) (ps : List FieldProto) (ms : List MessageProto)
    → All (FieldResolves n) ps
    → All (MessageResolves n) ms
    → All (MessageResolves n) (set_fields i ps ms)
unfolding set_fields
set_fields-MessageResolves n i ps ms h all = elim (Option-cases (get_elem? ms i)) [
  | inl outside ↦ rw (set_fields, outside) all
  | inr (m, there) ↦
      rw (set_fields, there) (All-set (MessageResolves n) ms i (record m { fields = ps }) all h)
]

set_enum-MessageResolves :
    (n : Names) (i : ℕ) (value : EnumProto) (ms : List MessageProto)
    → All (MessageResolves n) ms
    → All (MessageResolves n) (set_enum i value ms)
unfolding set_enum
set_enum-MessageResolves n i value ms all = elim (Option-cases (get_elem? ms i)) [
  | inl outside ↦ rw (set_enum, outside) all
  | inr (m, there) ↦
      rw (set_enum, there)
        (All-set (MessageResolves n) ms i (record m { enums = value ∷ [] }) all
          (All-get (MessageResolves n) ms i m all there))
]

fill_type-MessageResolves :
    (n : Names) (t : ListedType) (ms made : List MessageProto)
    → All (MessageResolves n) ms
    → fill_type n t ms ≡ ok made
    → All (MessageResolves n) made
unfolding fill_type
fill_type-MessageResolves n t ms made all e = elim (Bool-cases (eqb_ℤ t.type type_enum)) [
  | inl enum ↦ elim (Result-cases (at_key t.id n.enum_container_indexes)) [
    | inl (x, bad) ↦ absurd (err_not_ok _ _ (rw (fill_type, enum, bad) at e))
    | inr (i, there) ↦
        subst (All (MessageResolves n)) (ok-injective _ _ (rw (fill_type, enum, there) at e))
          (set_enum-MessageResolves n i _ ms all)
  ]
  | inr message ↦ elim (Result-cases (at_key t.id n.message_indexes)) [
    | inl (x, bad) ↦ absurd (err_not_ok _ _ (rw (fill_type, message, bad) at e))
    | inr (i, there) ↦ elim (Result-cases (field_protos n t.fields)) [
      | inl (x, bad) ↦ absurd (err_not_ok _ _ (rw (fill_type, message, there, bad) at e))
      | inr (ps, fields) ↦
          subst (All (MessageResolves n))
            (ok-injective _ _ (rw (fill_type, message, there, fields) at e))
            (set_fields-MessageResolves n i ps ms (field_protos-FieldResolves n t.fields ps fields)
              all)
    ]
  ]
]

fill_types-MessageResolves :
    (n : Names) (types : List ListedType) (ms made : List MessageProto)
    → All (MessageResolves n) ms
    → fill_types n types ms ≡ ok made
    → All (MessageResolves n) made
unfolding fill_types
fill_types-MessageResolves n [] ms made all e =
    subst (All (MessageResolves n)) (ok-injective _ _ e) all
fill_types-MessageResolves n (t ∷ types) ms made all e = elim (Result-cases (fill_type n t ms)) [
  | inl (x, bad) ↦ absurd (err_not_ok _ _ (rw (fill_types, bad) at e))
  | inr (next, filled) ↦
      fill_types-MessageResolves n types next made
        (fill_type-MessageResolves n t ms next all filled) (rw (fill_types, filled) at e)
]

-- The messages have no fields yet.
Blank : MessageProto → Type 0
Blank m = m.fields ≡ []

snoc-Blank :
    (ms : List MessageProto) (m : MessageProto) → All Blank ms → Blank m → All Blank (ms ++ m ∷ [])
snoc-Blank [] m h b = (b, tt)
snoc-Blank (x ∷ ms) m (p, h) b = (p, snoc-Blank ms m h b)

All-Blank : (n : Names) (ms : List MessageProto) → All Blank ms → All (MessageResolves n) ms
unfolding Blank
All-Blank n [] h = tt
All-Blank n (m ∷ ms) (b, h) = (subst (All (FieldResolves n)) (sym b) tt, All-Blank n ms h)

method_type_lem :
    (id : ℕ) (n : Names) (name : Bytes)
    → method_type id n ≡ ok name
    → find_key id n.message_names ≡ some name
unfolding method_type
method_type_lem id n name e = elim (Option-cases (find_key id n.message_names)) [
  | inl missing ↦ absurd (err_not_ok _ _ (rw (method_type, missing) at e))
  | inr (found, there) ↦
      let same : found ≡ name = ok-injective _ _ (rw (method_type, there) at e) in
      there ∙ ap some same
]

taken_file :
    (build_file : FileProto → Bool) (made file : FileProto)
    → (if build_file made then ok made else err schema_not_loaded) ≡ ok file
    → (made ≡ file) × (build_file file ≡ true)
taken_file build_file made file e = elim (Bool-cases (build_file made)) [
  | inl taken ↦
      let same : made ≡ file = ok-injective _ _ (rw (taken) at e) in
      (same, subst (λ (f : FileProto). build_file f ≡ true) same taken)
  | inr refused ↦ absurd (err_not_ok _ _ (rw (refused) at e))
]

module _ (to_string : ℕ → Bytes) where
  add_type-Blank :
      (t : ListedType) (n made : Names)
      → All Blank n.messages
      → add_type to_string t n ≡ ok made
      → All Blank made.messages
  unfolding add_type add_message add_enum Blank
  add_type-Blank t n made h e = elim (Bool-cases (t.id == 0)) [
    | inl bad ↦ absurd (err_not_ok _ _ (rw (add_type, bad) at e))
    | inr given ↦ elim (Bool-cases (contains_id t.id n.type_ids)) [
      | inl bad ↦ absurd (err_not_ok _ _ (rw (add_type, given, bad) at e))
      | inr fresh ↦ elim (Bool-cases (eqb_ℤ t.type type_message)) [
        | inl message ↦
            subst (λ (n : Names). All Blank n.messages)
              (ok-injective _ _ (rw (add_type, given, fresh, message) at e))
              (snoc-Blank n.messages _ h refl)
        | inr other ↦ elim (Bool-cases (eqb_ℤ t.type type_enum)) [
          | inl enum ↦
              subst (λ (n : Names). All Blank n.messages)
                (ok-injective _ _ (rw (add_type, given, fresh, other, enum) at e))
                (snoc-Blank n.messages _ h refl)
          | inr bad ↦ absurd (err_not_ok _ _ (rw (add_type, given, fresh, other, bad) at e))
        ]
      ]
    ]
  ]

  add_types-Blank :
      (types : List ListedType) (n made : Names)
      → All Blank n.messages
      → add_types to_string types n ≡ ok made
      → All Blank made.messages
  unfolding add_types
  add_types-Blank [] n made h e = subst (λ (n : Names). All Blank n.messages) (ok-injective _ _ e) h
  add_types-Blank (t ∷ types) n made h e = elim (Result-cases (add_type to_string t n)) [
    | inl (x, bad) ↦ absurd (err_not_ok _ _ (rw (add_types, bad) at e))
    | inr (next, added) ↦
        add_types-Blank types next made (add_type-Blank t n next h added)
          (rw (add_types, added) at e)
  ]

  -- A descriptor that is built of a listed service names its types: with the names that the listed types
  -- are given, every field of every message has a type that there is, and if it is a message or an enum
  -- the name of a listed one; the method's request and response are listed messages.
  pub build_method_descriptor-resolves :
      (build_file : FileProto → Bool) (service : ListedService) (method : ListedMethod)
      (file : FileProto)
      → build_method_descriptor to_string build_file service method ≡ ok file
      → (n : Names) × (add_types to_string service.types no_names ≡ ok n)
        × All (MessageResolves n) file.messages
        × (find_key method.request_type n.message_names ≡ some file.method.input_type)
        × (find_key method.response_type n.message_names ≡ some file.method.output_type)
        × (build_file file ≡ true)
  unfolding build_method_descriptor
  build_method_descriptor-resolves build_file service method file e =
      elim (Bool-cases (supports_discovery service method)) [
        | inr bad ↦ absurd (err_not_ok _ _ (rw (build_method_descriptor, bad) at e))
        | inl supported ↦
            let (n, added, e₁) =
              bind_ok (add_types to_string service.types no_names) _ file
                (rw (build_method_descriptor, supported) at e) in
            let (messages, filled, e₂) =
              bind_ok (fill_types n service.types n.messages) _ file e₁ in
            let (request, input, e₃) = bind_ok (method_type method.request_type n) _ file e₂ in
            let (response, output, e₄) = bind_ok (method_type method.response_type n) _ file e₃ in
            let (same, taken) = taken_file build_file _ file e₄ in
            let blank = add_types-Blank service.types no_names n tt added in
            let resolved =
              fill_types-MessageResolves n service.types n.messages messages
                (All-Blank n n.messages blank) filled in
            (
              n,
              added,
              subst (λ (f : FileProto). All (MessageResolves n) f.messages) same resolved,
              method_type_lem method.request_type n request input
                  ∙ ap (λ (f : FileProto). some f.method.input_type) same,
              method_type_lem method.response_type n response output
                  ∙ ap (λ (f : FileProto). some f.method.output_type) same,
              taken,
            )
      ]
