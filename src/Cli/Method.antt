-- ===== src/Cli/Method.antt =====
-- The name of the method to call, and the number of its endpoint among the services that the server
-- lists.
pub mod Name
pub mod Endpoint
use serialrpc.Base.{
  ℕ, zero, suc, ◌+◌, ◌%◌, ◌^◌, ◌==◌, if◌then◌else◌, ◌||◌, ltb, Bool, ℤ, Option, some, none, List,
  [], ◌∷◌, length, take, drop,
}
use serialrpc.Io.{Bytes}
use serialrpc.Client.Hello.{same_bytes}

-- serialrpcpb::FieldInfo and EnumValueInfo, as the discovery service sends them.
pub record ListedField : Type 0 where
  pub name : Bytes
  pub number : ℕ
  pub type : ℤ
  pub repeated : Bool
  pub type_id : ℕ

pub record ListedEnumValue : Type 0 where
  pub name : Bytes
  pub number : ℤ

-- serialrpcpb::TypeInfo.
pub record ListedType : Type 0 where
  pub id : ℕ
  pub name : Bytes
  pub type : ℤ
  pub fields : List ListedField
  pub enum_values : List ListedEnumValue

-- serialrpcpb::MethodInfo.
pub record ListedMethod : Type 0 where
  pub id : ℕ
  pub name : Bytes
  pub request_type : ℕ
  pub response_type : ℕ
  pub client_streaming : Bool
  pub server_streaming : Bool

-- serialrpcpb::ServiceInfo.
pub record ListedService : Type 0 where
  pub name : Bytes
  pub methods : List ListedMethod
  pub types : List ListedType

-- `name.rfind(c)`.
unfoldable pub rfind : ℕ → Bytes → Option ℕ
rfind c [] = none
rfind c (x ∷ xs) = elim (rfind c xs) [
  | some i ↦ some (suc i)
  | none ↦ if x == c then some 0 else none
]

unfoldable pub split_at : Bytes → Option ℕ → Option (Bytes × Bytes)
split_at name none = none
split_at name (some separator) =
    if separator == 0 || separator + 1 == length name
    then none
    else some (take separator name, drop (separator + 1) name)

unfoldable pub separator_of : Bytes → Option ℕ → Option ℕ
unfolding rfind
separator_of name (some i) = some i
separator_of name none = rfind 0x2e name

-- The service and the method, if the name has the form of one.
unfoldable pub split_method : Bytes → Option (Bytes × Bytes)
unfolding rfind split_at separator_of
split_method name = split_at name (separator_of name (rfind 0x2f name))

-- The first method with the name.
unfoldable pub find_target : Bytes → List ListedMethod → Option ListedMethod
unfolding same_bytes
find_target name [] = none
find_target name (method ∷ methods) =
    let later = find_target name methods in
    if same_bytes method.name name then some method else later

-- `++endpoint_id` for each method with a smaller ID.
unfoldable pub count_before : ℕ → List ListedMethod → ℕ → ℕ
count_before target [] endpoint_id = endpoint_id
count_before target (method ∷ methods) endpoint_id =
    count_before target methods
      (if ltb method.id target then (endpoint_id + 1) % 2 ^ 32 else endpoint_id)

unfoldable pub found_in :
    ListedService → ℕ → Option ListedMethod → Option (ℕ × ListedService × ListedMethod)
unfolding count_before
found_in service endpoint_id none = none
found_in service endpoint_id (some target) =
    some (count_before target.id service.methods endpoint_id, service, target)

-- The loop over the services, which ends at the first one with the name.
unfoldable pub find_method :
    Bytes → Bytes → ℕ → List ListedService → Option (ℕ × ListedService × ListedMethod)
unfolding same_bytes find_target found_in
find_method service_name method_name endpoint_id [] = none
find_method service_name method_name endpoint_id (service ∷ services) =
    let later =
      find_method service_name method_name
        ((endpoint_id + length service.methods % 2 ^ 32) % 2 ^ 32) services in
    if same_bytes service.name service_name
    then found_in service endpoint_id (find_target method_name service.methods)
    else later

-- The name of the listed type with the ID, empty if there is none.
unfoldable pub type_name : ℕ → List ListedType → Bytes
type_name id [] = []
type_name id (type ∷ types) =
    let later = type_name id types in if type.id == id then type.name else later
