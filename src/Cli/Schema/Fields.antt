-- ===== src/Cli/Schema/Fields.antt =====
-- The types of fields, resolved.
use serialrpc.Base.{
  ℕ, ◌≡◌, subst, true, false, Bool-cases, Option-cases, inl, inr, ℤ, eqb_ℤ, some, List, [], ◌∷◌,
  All,
}
use serialrpc.Io.{Bytes, Error, ok, err}
use serialrpc.Io.Bind.{Result-cases}
use serialrpc.Cli.Method.{ListedField}
use serialrpc.Cli.Schema.{
  type_message, type_enum, FieldProto, MessageProto, Names, find_key, is_field_type, type_name_of,
  field_proto, field_protos,
}

-- A field's type with its type name: a listed message, a listed enum, or a type with no name.
pub data ResolvesTo (n : Names) : ℤ → Bytes → Type 0 where
  to_message :
      (t : ℤ) (id : ℕ) (name : Bytes)
      → eqb_ℤ t type_message ≡ true
      → find_key id n.message_names ≡ some name
      → ResolvesTo n t name
  to_enum :
      (t : ℤ) (id : ℕ) (name : Bytes)
      → eqb_ℤ t type_enum ≡ true
      → find_key id n.enum_names ≡ some name
      → ResolvesTo n t name
  to_nothing :
      (t : ℤ) → eqb_ℤ t type_message ≡ false → eqb_ℤ t type_enum ≡ false → ResolvesTo n t []

pub err_not_ok {ℓ} : {A : Type ℓ} (e : Error) (a : A) → err e ≡ ok a → ⊥
err_not_ok e a h = cc

-- The type of a field is one that there is, and its name resolves.
abbrev pub FieldResolves : Names → FieldProto → Type 0
FieldResolves n f = (is_field_type f.type ≡ true) × ResolvesTo n f.type f.type_name

abbrev pub MessageResolves : Names → MessageProto → Type 0
MessageResolves n m = All (FieldResolves n) m.fields

pub ok-injective {ℓ} : {A : Type ℓ} (a b : A) → ok a ≡ ok b → a ≡ b
ok-injective a b h = cc

type_name_of-ResolvesTo :
    (n : Names) (f : ListedField) (name : Bytes)
    → type_name_of n f ≡ ok name
    → ResolvesTo n f.type name
unfolding type_name_of
type_name_of-ResolvesTo n f name e = elim (Bool-cases (eqb_ℤ f.type type_message)) [
  | inl message ↦ elim (Option-cases (find_key f.type_id n.message_names)) [
    | inl missing ↦ absurd (err_not_ok _ _ (rw (type_name_of, message, missing) at e))
    | inr (found, there) ↦
        let same : found ≡ name = ok-injective _ _ (rw (type_name_of, message, there) at e) in
        to_message f.type f.type_id name message (rw (← same) there)
  ]
  | inr other ↦ elim (Bool-cases (eqb_ℤ f.type type_enum)) [
    | inl enum ↦ elim (Option-cases (find_key f.type_id n.enum_names)) [
      | inl missing ↦ absurd (err_not_ok _ _ (rw (type_name_of, other, enum, missing) at e))
      | inr (found, there) ↦
          let same : found ≡ name = ok-injective _ _ (rw (type_name_of, other, enum, there) at e) in
          to_enum f.type f.type_id name enum (rw (← same) there)
    ]
    | inr scalar ↦
        let same : [] ≡ name = ok-injective _ _ (rw (type_name_of, other, scalar) at e) in
        subst (ResolvesTo n f.type) same (to_nothing f.type other scalar)
  ]
]

field_proto-FieldResolves :
    (n : Names) (f : ListedField) (p : FieldProto) → field_proto n f ≡ ok p → FieldResolves n p
unfolding field_proto
field_proto-FieldResolves n f p e = elim (Bool-cases (is_field_type f.type)) [
  | inr bad ↦ absurd (err_not_ok _ _ (rw (field_proto, bad) at e))
  | inl good ↦ elim (Result-cases (type_name_of n f)) [
    | inl (x, bad) ↦ absurd (err_not_ok _ _ (rw (field_proto, good, bad) at e))
    | inr (name, named) ↦
        subst (FieldResolves n) (ok-injective _ _ (rw (field_proto, good, named) at e))
          (good, type_name_of-ResolvesTo n f name named)
  ]
]

pub field_protos-FieldResolves :
    (n : Names) (fields : List ListedField) (ps : List FieldProto)
    → field_protos n fields ≡ ok ps
    → All (FieldResolves n) ps
unfolding field_protos
field_protos-FieldResolves n [] ps e = subst (All (FieldResolves n)) (ok-injective _ _ e) tt
field_protos-FieldResolves n (f ∷ fields) ps e = elim (Result-cases (field_proto n f)) [
  | inl (x, bad) ↦ absurd (err_not_ok _ _ (rw (field_protos, bad) at e))
  | inr (p, made) ↦ elim (Result-cases (field_protos n fields)) [
    | inl (x, bad) ↦ absurd (err_not_ok _ _ (rw (field_protos, made, bad) at e))
    | inr (rest, others) ↦
        subst (All (FieldResolves n)) (ok-injective _ _ (rw (field_protos, made, others) at e))
          (field_proto-FieldResolves n f p made, field_protos-FieldResolves n fields rest others)
  ]
]
