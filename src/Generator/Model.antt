-- ===== src/Generator/Model.antt =====
-- The model that serialrpc_objects.cc makes of a .proto file's fields, methods and services, and the
-- order that `EchoGenerator` brings the methods into.
pub mod MethodIds
use serialrpc.Base.{
  ℕ, zero, suc, ◌+◌, ◌%◌, ◌^◌, ◌==◌, if◌then◌else◌, Bool, true, false, not, ℤ, Option, some, none,
  List, [], ◌∷◌, ◌++◌,
}
use serialrpc.Io.{Bytes}
use serialrpc.Client.Hello.{same_bytes}
use serialrpc.Generator.Uuid.{uuid_string_to_bytes}

-- `google::protobuf::FieldDescriptor::Type`.
pub data DescriptorType : Type 0 where
  type_double type_float type_int64 type_uint64 type_int32 type_fixed64 : DescriptorType
  type_fixed32 type_bool type_string type_group type_message type_bytes : DescriptorType
  type_uint32 type_enum type_sfixed32 type_sfixed64 type_sint32 type_sint64 : DescriptorType

-- The descriptor of a message or an enum. It stands at `address`, and descriptors are told apart by that.
pub record TypeDescriptor : Type 0 where
  pub address : ℕ
  pub full_name : Bytes
  pub name : Bytes

-- `EchoRoot`: the descriptors of the messages and enums that have been added.
pub record EchoRoot : Type 0 where
  pub messages : List TypeDescriptor
  pub enums : List TypeDescriptor

-- What the generator asks of a field's descriptor. The sizes are options, 0 if not given, and
-- `type_descriptor` is that of a message's or an enum's type.
pub record FieldDescriptor : Type 0 where
  pub name : Bytes
  pub number : ℕ
  pub type : DescriptorType
  pub type_descriptor : TypeDescriptor
  pub has_proto3_optional : Bool
  pub is_repeated : Bool
  pub string_size : ℕ
  pub bytes_size : ℕ
  pub array_size : ℕ

-- The classes derived from `EchoField`, with what each adds.
pub data EchoField : Type 0 where
  int64_field uint64_field int32_field fixed64_field fixed32_field bool_field : EchoField
  uint32_field sfixed64_field sfixed32_field float_field double_field : EchoField
  string_field bytes_field : ℕ → EchoField
  unbounded_string_field unbounded_bytes_field : EchoField
  message_field enum_field : TypeDescriptor → EchoField
  optional_field unbounded_repeated_field : EchoField → EchoField
  repeated_field : ℕ → EchoField → EchoField

pub data GeneratorError : Type 0 where
  message_not_found enum_not_found : Bytes → GeneratorError
  unsupported_field_type : Bytes → DescriptorType → GeneratorError
  invalid_service_uuid : Bytes → Bytes → GeneratorError
  unspecified_method_id : Bytes → Bytes → GeneratorError
  duplicate_method_id : Bytes → Bytes → Bytes → ℕ → GeneratorError

pub data Checked (A : Type 0) : Type 0 where
  accepted : A → Checked A
  thrown : GeneratorError → Checked A

unfoldable pub has_type : ℕ → List TypeDescriptor → Bool
has_type address [] = false
has_type address (type ∷ types) =
    let later = has_type address types in if type.address == address then true else later

unfoldable pub get_message : EchoRoot → TypeDescriptor → Checked TypeDescriptor
unfolding has_type
get_message root type =
    if has_type type.address root.messages
    then accepted type
    else thrown (message_not_found type.name)

unfoldable pub get_enum : EchoRoot → TypeDescriptor → Checked TypeDescriptor
unfolding has_type
get_enum root type =
    if has_type type.address root.enums then accepted type else thrown (enum_not_found type.name)

unfoldable pub as_checked : {A B : Type 0} → (A → B) → Checked A → Checked B
as_checked f (accepted a) = accepted (f a)
as_checked f (thrown e) = thrown e

-- The switch that `GenerateField` has four times.
unfoldable pub field_of_type : EchoRoot → FieldDescriptor → DescriptorType → Checked EchoField
unfolding get_message get_enum as_checked
field_of_type root d type_int64 = accepted int64_field
field_of_type root d type_uint64 = accepted uint64_field
field_of_type root d type_int32 = accepted int32_field
field_of_type root d type_fixed64 = accepted fixed64_field
field_of_type root d type_fixed32 = accepted fixed32_field
field_of_type root d type_bool = accepted bool_field
field_of_type root d type_string =
    accepted (if d.string_size == 0 then unbounded_string_field else string_field d.string_size)
field_of_type root d type_message = as_checked message_field (get_message root d.type_descriptor)
field_of_type root d type_bytes =
    accepted (if d.bytes_size == 0 then unbounded_bytes_field else bytes_field d.bytes_size)
field_of_type root d type_uint32 = accepted uint32_field
field_of_type root d type_enum = as_checked enum_field (get_enum root d.type_descriptor)
field_of_type root d type_sfixed64 = accepted sfixed64_field
field_of_type root d type_sfixed32 = accepted sfixed32_field
field_of_type root d type_float = accepted float_field
field_of_type root d type_double = accepted double_field
field_of_type root d other = thrown (unsupported_field_type d.name other)

unfoldable pub generate_field : EchoRoot → FieldDescriptor → Checked EchoField
unfolding field_of_type as_checked
generate_field root d =
    let field = field_of_type root d d.type in
    if d.has_proto3_optional
    then as_checked optional_field field
    else if not d.is_repeated
    then field
    else if d.array_size == 0
    then as_checked unbounded_repeated_field field
    else as_checked (repeated_field d.array_size) field

-- A method's descriptor.
pub record MethodDescriptor : Type 0 where
  pub name : Bytes
  pub method_id : ℕ
  pub input_type : TypeDescriptor
  pub output_type : TypeDescriptor
  pub server_streaming : Bool

pub record EchoMethod : Type 0 where
  pub name : Bytes
  pub method_id : ℕ
  pub parameter : Option TypeDescriptor
  pub result : Option TypeDescriptor
  pub server_streaming : Bool

-- `EchoMethod::EchoMethod`, called by the service `service`; `void` is the full name of the empty type.
unfoldable pub unless_void : Bytes → EchoRoot → TypeDescriptor → Checked (Option TypeDescriptor)
unfolding same_bytes get_message as_checked
unless_void void root type =
    if same_bytes type.full_name void
    then accepted none
    else as_checked (λ found. some found) (get_message root type)

unfoldable pub method_with :
    MethodDescriptor
    → Checked (Option TypeDescriptor)
    → Checked (Option TypeDescriptor)
    → Checked EchoMethod
method_with d (thrown e) result = thrown e
method_with d (accepted parameter) (thrown e) = thrown e
method_with d (accepted parameter) (accepted result) = accepted (record {
  name = d.name;
  method_id = d.method_id;
  parameter = parameter;
  result = result;
  server_streaming = d.server_streaming;
})

unfoldable pub echo_method : Bytes → EchoRoot → Bytes → MethodDescriptor → Checked EchoMethod
unfolding unless_void method_with
echo_method void root service d =
    if d.method_id == 0
    then thrown (unspecified_method_id service d.name)
    else method_with d (unless_void void root d.input_type) (unless_void void root d.output_type)

-- The first of the methods with the ID.
unfoldable pub with_id : ℕ → List EchoMethod → Option EchoMethod
with_id id [] = none
with_id id (previous ∷ methods) =
    let later = with_id id methods in if previous.method_id == id then some previous else later

-- `methods` are those that have been made.
unfoldable pub echo_methods :
    Bytes → EchoRoot → Bytes → List EchoMethod → List MethodDescriptor → Checked (List EchoMethod)
unfolding echo_method with_id
echo_methods void root service methods [] = accepted methods
echo_methods void root service methods (d ∷ descriptors) = elim (echo_method void root service d) [
  | thrown e ↦ thrown e
  | accepted method ↦ elim (with_id method.method_id methods) [
    | some previous ↦
        thrown (duplicate_method_id service previous.name method.name method.method_id)
    | none ↦ echo_methods void root service (methods ++ method ∷ []) descriptors
  ]
]

pub record ServiceDescriptor : Type 0 where
  pub name : Bytes
  pub uuid : Bytes
  pub major_version : ℤ
  pub minor_version : ℤ
  pub methods : List MethodDescriptor

pub record EchoService : Type 0 where
  pub name : Bytes
  pub uuid : Bytes
  pub major_version : ℤ
  pub minor_version : ℤ
  pub methods : List EchoMethod

unfoldable pub with_methods :
    ServiceDescriptor → Bytes → Checked (List EchoMethod) → Checked EchoService
with_methods d uuid (thrown e) = thrown e
with_methods d uuid (accepted methods) = accepted (record {
  name = d.name;
  uuid = uuid;
  major_version = d.major_version;
  minor_version = d.minor_version;
  methods = methods;
})

unfoldable pub echo_service : Bytes → EchoRoot → ServiceDescriptor → Checked EchoService
unfolding uuid_string_to_bytes echo_methods with_methods
echo_service void root d = elim (uuid_string_to_bytes d.uuid) [
  | none ↦ thrown (invalid_service_uuid d.name d.uuid)
  | some uuid ↦ with_methods d uuid (echo_methods void root d.name [] d.methods)
]

-- `method.methodId = id++` for the methods of a service, in their order by `std::sort`.
unfoldable pub number_methods : ℕ → List EchoMethod → List EchoMethod
number_methods id [] = []
number_methods id (method ∷ methods) =
    record method { method_id = id } ∷ number_methods ((id + 1) % 2 ^ 32) methods
