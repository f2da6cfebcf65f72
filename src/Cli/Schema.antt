-- ===== src/Cli/Schema.antt =====
-- `build_method_descriptor_impl`: the file descriptor that is made of a listed service, so that
-- google::protobuf can make messages of its types.
pub mod Fields
pub mod Resolved
use serialrpc.Base.{
  ℕ, zero, suc, ◌+◌, ◌==◌, if◌then◌else◌, ◌||◌, Bool, true, false, ℤ, pos, negsuc, ltb_ℤ, eqb_ℤ,
  Option, some, none, List, [], ◌∷◌, ◌++◌, length, get_elem?, set,
}
use serialrpc.Io.{
  Bytes, Result, ok, err, ◌>>=◌, unsupported_discovery, type_id_zero, duplicate_type_id,
  not_message_or_enum, invalid_field_type, unknown_message_type, unknown_enum_type,
  unknown_method_type, schema_not_loaded, panic_out_of_range,
}
use serialrpc.Server.Messages.{to_int32}
use serialrpc.Cli.Method.{ListedField, ListedEnumValue, ListedType, ListedMethod, ListedService}

-- The numbers of `FieldDescriptorProto::Type` and `serialrpcpb::FieldType`.
abbrev pub type_double : ℤ
type_double = pos 1

abbrev pub type_group : ℤ
type_group = pos 10

abbrev pub type_message : ℤ
type_message = pos 11

abbrev pub type_enum : ℤ
type_enum = pos 14

abbrev pub type_sint64 : ℤ
type_sint64 = pos 18

-- The descriptors of google::protobuf, as far as they are set.
pub record FieldProto : Type 0 where
  pub name : Bytes
  pub number : ℤ
  pub repeated : Bool
  pub type : ℤ
  pub type_name : Bytes

pub record EnumProto : Type 0 where
  pub values : List ListedEnumValue
  pub allow_alias : Bool

pub record MessageProto : Type 0 where
  pub name : Bytes
  pub fields : List FieldProto
  pub enums : List EnumProto

pub record MethodProto : Type 0 where
  pub input_type : Bytes
  pub output_type : Bytes
  pub client_streaming : Bool
  pub server_streaming : Bool

pub record FileProto : Type 0 where
  pub messages : List MessageProto
  pub method : MethodProto

-- The maps of the function, and the file's messages.
pub record Names : Type 0 where
  pub message_names : List (ℕ × Bytes)
  pub message_indexes : List (ℕ × ℕ)
  pub enum_names : List (ℕ × Bytes)
  pub enum_container_indexes : List (ℕ × ℕ)
  pub type_ids : List ℕ
  pub messages : List MessageProto

abbrev pub no_names : Names
no_names = record {
  message_names = [];
  message_indexes = [];
  enum_names = [];
  enum_container_indexes = [];
  type_ids = [];
  messages = [];
}

unfoldable pub find_key {ℓ} : {A : Type ℓ} → ℕ → List (ℕ × A) → Option A
find_key id [] = none
find_key id ((key, a) ∷ rest) = let later = find_key id rest in if key == id then some a else later

-- `map.at(id)`.
unfoldable pub at_key {ℓ} : {A : Type ℓ} → ℕ → List (ℕ × A) → Result A
unfolding find_key
at_key id map = elim (find_key id map) [ none ↦ err panic_out_of_range | some a ↦ ok a ]

unfoldable pub contains_id : ℕ → List ℕ → Bool
contains_id id [] = false
contains_id id (x ∷ ids) = let later = contains_id id ids in if x == id then true else later

-- "Message", "Enum", ".serialrpc_dynamic." and ".Value".
abbrev pub message_text : Bytes
message_text = 0x4d ∷ 0x65 ∷ 0x73 ∷ 0x73 ∷ 0x61 ∷ 0x67 ∷ 0x65 ∷ []

abbrev pub enum_text : Bytes
enum_text = 0x45 ∷ 0x6e ∷ 0x75 ∷ 0x6d ∷ []

abbrev pub package_text : Bytes
package_text =
    0x2e ∷ 0x73 ∷ 0x65 ∷ 0x72 ∷ 0x69 ∷ 0x61 ∷ 0x6c ∷ 0x72 ∷ 0x70 ∷ 0x63 ∷ 0x5f ∷ 0x64 ∷ 0x79 ∷ 0x6e
    ∷ 0x61 ∷ 0x6d ∷ 0x69 ∷ 0x63 ∷ 0x2e ∷ []

abbrev pub value_text : Bytes
value_text = 0x2e ∷ 0x56 ∷ 0x61 ∷ 0x6c ∷ 0x75 ∷ 0x65 ∷ []

-- `to_string` is `std::to_string`.
module _ (to_string : ℕ → Bytes) where
  unfoldable pub add_message : ListedType → Names → Names
  add_message type n =
      let generated = message_text ++ to_string type.id in
      record n {
        type_ids = type.id ∷ n.type_ids;
        message_names = n.message_names ++ (type.id, package_text ++ generated) ∷ [];
        message_indexes = n.message_indexes ++ (type.id, length n.messages) ∷ [];
        messages = n.messages ++ record { name = generated; fields = []; enums = [] } ∷ [];
      }

  unfoldable pub add_enum : ListedType → Names → Names
  add_enum type n =
      let generated = enum_text ++ to_string type.id in
      let value : EnumProto = record { values = []; allow_alias = false } in
      record n {
        type_ids = type.id ∷ n.type_ids;
        enum_names = n.enum_names ++ (type.id, package_text ++ (generated ++ value_text)) ∷ [];
        enum_container_indexes = n.enum_container_indexes ++ (type.id, length n.messages) ∷ [];
        messages = n.messages ++ record { name = generated; fields = []; enums = value ∷ [] } ∷ [];
      }

  -- A round of the first loop.
  unfoldable pub add_type : ListedType → Names → Result Names
  unfolding add_message add_enum contains_id
  add_type type n =
      if type.id == 0
      then err type_id_zero
      else if contains_id type.id n.type_ids
      then err (duplicate_type_id type.id)
      else if eqb_ℤ type.type type_message
      then ok (add_message type n)
      else if eqb_ℤ type.type type_enum
      then ok (add_enum type n)
      else err (not_message_or_enum type.id)

  unfoldable pub add_types : List ListedType → Names → Result Names
  unfolding add_type
  add_types [] n = ok n
  add_types (type ∷ types) n = do n ← add_type type n; add_types types n

unfoldable pub is_field_type : ℤ → Bool
is_field_type t =
    if ltb_ℤ t type_double || ltb_ℤ type_sint64 t || eqb_ℤ t type_group then false else true

-- `field->set_type_name(…)`, which is left out for the other types.
unfoldable pub type_name_of : Names → ListedField → Result Bytes
unfolding find_key
type_name_of n f =
    if eqb_ℤ f.type type_message
    then elim (find_key f.type_id n.message_names) [
      | none ↦ err (unknown_message_type f.type_id)
      | some name ↦ ok name
    ]
    else if eqb_ℤ f.type type_enum
    then elim (find_key f.type_id n.enum_names) [
      | none ↦ err (unknown_enum_type f.type_id)
      | some name ↦ ok name
    ]
    else ok []

unfoldable pub field_proto : Names → ListedField → Result FieldProto
unfolding is_field_type type_name_of to_int32
field_proto n f =
    if is_field_type f.type
    then (do
      type_name ← type_name_of n f
      ok (record {
        name = f.name;
        number = to_int32 f.number;
        repeated = f.repeated;
        type = f.type;
        type_name = type_name;
      }))
    else err (invalid_field_type f.type)

unfoldable pub field_protos : Names → List ListedField → Result (List FieldProto)
unfolding field_proto
field_protos n [] = ok []
field_protos n (f ∷ fields) = do
  proto ← field_proto n f
  protos ← field_protos n fields
  ok (proto ∷ protos)

unfoldable pub same_value : ℤ → List ListedEnumValue → Bool
same_value number [] = false
same_value number (v ∷ values) =
    let later = same_value number values in if eqb_ℤ v.number number then true else later

-- Whether two values have the same number.
unfoldable pub has_alias : List ListedEnumValue → Bool
unfolding same_value
has_alias [] = false
has_alias (v ∷ values) = same_value v.number values || has_alias values

-- `file.mutable_message_type(i)` with its fields or its enum set.
unfoldable pub set_fields : ℕ → List FieldProto → List MessageProto → List MessageProto
set_fields i fields messages = elim (get_elem? messages i) [
  | none ↦ messages
  | some message ↦ set messages i (record message { fields = fields })
]

unfoldable pub set_enum : ℕ → EnumProto → List MessageProto → List MessageProto
set_enum i value messages = elim (get_elem? messages i) [
  | none ↦ messages
  | some message ↦ set messages i (record message { enums = value ∷ [] })
]

-- A round of the second loop.
unfoldable pub fill_type : Names → ListedType → List MessageProto → Result (List MessageProto)
unfolding at_key has_alias set_fields set_enum field_protos
fill_type n type messages =
    if eqb_ℤ type.type type_enum
    then (do
      i ← at_key type.id n.enum_container_indexes
      ok (
          set_enum i
            (record { values = type.enum_values; allow_alias = has_alias type.enum_values })
            messages))
    else (do
      i ← at_key type.id n.message_indexes
      fields ← field_protos n type.fields
      ok (set_fields i fields messages))

unfoldable pub fill_types : Names → List ListedType → List MessageProto → Result (List MessageProto)
unfolding fill_type
fill_types n [] messages = ok messages
fill_types n (type ∷ types) messages = do
  messages ← fill_type n type messages
  fill_types n types messages

unfoldable pub method_type : ℕ → Names → Result Bytes
unfolding find_key
method_type id n = elim (find_key id n.message_names) [
  | none ↦ err unknown_method_type
  | some name ↦ ok name
]

unfoldable pub supports_discovery : ListedService → ListedMethod → Bool
supports_discovery service method =
    if method.request_type == 0 || method.response_type == 0 || length service.types == 0
    then false
    else true

-- `build_file` is `pool.BuildFile`: whether google::protobuf takes the file.
unfoldable pub build_method_descriptor :
    (ℕ → Bytes) → (FileProto → Bool) → ListedService → ListedMethod → Result FileProto
unfolding supports_discovery add_types fill_types method_type
build_method_descriptor to_string build_file service method =
    if supports_discovery service method
    then (do
      n ← add_types to_string service.types no_names
      messages ← fill_types n service.types n.messages
      request ← method_type method.request_type n
      response ← method_type method.response_type n
      let file : FileProto = record {
        messages = messages;
        method = record {
          input_type = request;
          output_type = response;
          client_streaming = method.client_streaming;
          server_streaming = method.server_streaming;
        };
      }
      if build_file file then ok file else err schema_not_loaded)
    else err unsupported_discovery
