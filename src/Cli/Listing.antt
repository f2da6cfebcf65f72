-- ===== src/Cli/Listing.antt =====
-- cmd/serialrpc/main.cc: what the command line prints of the services that a server lists, and the
-- choice of the command.
mod Texts
pub mod Distinct
use serialrpc.Base.{
  ℕ, ◌==◌, if◌then◌else◌, ◌||◌, ◌&&◌, Bool, true, false, ℤ, pos, negsuc, eqb_ℤ, Option, some, none,
  List, [], ◌∷◌, ◌++◌, get_elem?,
}
use serialrpc.Io.{Bytes}
use serialrpc.Client.Hello.{same_bytes}
use serialrpc.Cli.Method.{ListedField, ListedEnumValue, ListedType, ListedMethod, ListedService}
use serialrpc.Cli.Schema.{type_message, type_enum}
use serialrpc.Cli.Call.{void_text}
use Texts.*

unfoldable pub find_type : List ListedType → ℕ → Option ListedType
find_type [] id = none
find_type (type ∷ types) id =
    let later = find_type types id in if type.id == id then some type else later

unfoldable pub type_name : ListedService → ℕ → Bytes
unfolding find_type
type_name service id = elim (find_type service.types id) [
  | some type ↦ type.name
  | none ↦ unknown_text
]

-- By number; 10 is a group, and 11 and 14 have no scalar name.
abbrev pub scalar_names : List Bytes
scalar_names =
    unknown_text ∷ double_text ∷ float_text ∷ int64_text ∷ uint64_text ∷ int32_text ∷ fixed64_text
    ∷ fixed32_text ∷ bool_text ∷ string_text ∷ unknown_text ∷ unknown_text ∷ bytes_text
    ∷ uint32_text ∷ unknown_text ∷ sfixed32_text ∷ sfixed64_text ∷ sint32_text ∷ sint64_text ∷ []

unfoldable pub scalar_type_name : ℤ → Bytes
scalar_type_name (pos n) = elim (get_elem? scalar_names n) [
  | some name ↦ name
  | none ↦ unknown_text
]
scalar_type_name (negsuc n) = unknown_text

unfoldable pub field_type_name : ListedService → ListedField → Bytes
unfolding type_name scalar_type_name
field_type_name service field =
    if eqb_ℤ field.type type_message || eqb_ℤ field.type type_enum
    then type_name service field.type_id
    else scalar_type_name field.type

unfoldable pub contains : List Bytes → Bytes → Bool
unfolding same_bytes
contains [] name = false
contains (existing ∷ names) name =
    let later = contains names name in if same_bytes existing name then true else later

unfoldable pub print_method : ListedService → ListedMethod → Bytes
unfolding type_name
print_method service method =
    let request_stream : Bytes = if method.client_streaming then stream_text else [] in
    let response_stream : Bytes = if method.server_streaming then stream_text else [] in
    rpc_start
    ++ (method.name
        ++ (open_text
            ++ (request_stream
                ++ (type_name service method.request_type
                    ++ (returns_text
                        ++ (response_stream
                            ++ (type_name service method.response_type ++ rpc_end)))))))

unfoldable pub print_methods : ListedService → List ListedMethod → Bytes
unfolding print_method
print_methods service [] = []
print_methods service (method ∷ methods) =
    print_method service method ++ print_methods service methods

unfoldable pub print_services : List ListedService → Bytes
unfolding print_methods
print_services [] = []
print_services (service ∷ services) =
    service_start
    ++ (service.name
        ++ (block_start
            ++ (print_methods service service.methods ++ (service_end ++ print_services services))))

-- `unsigned` and `signed` are what `fmt` writes for `%v`.
module _ (unsigned : ℕ → Bytes) (signed : ℤ → Bytes) where
  unfoldable pub print_field : ListedService → ListedField → Bytes
  unfolding field_type_name
  print_field service field =
      let repeated : Bytes = if field.repeated then repeated_text else [] in
      indent
      ++ (repeated
          ++ (field_type_name service field
              ++ (space ++ (field.name ++ (equals ++ (unsigned field.number ++ line_end))))))

  unfoldable pub print_fields : ListedService → List ListedField → Bytes
  unfolding print_field
  print_fields service [] = []
  print_fields service (field ∷ fields) = print_field service field ++ print_fields service fields

  unfoldable pub print_enum_values : List ListedEnumValue → Bytes
  print_enum_values [] = []
  print_enum_values (value ∷ values) =
      (indent ++ (value.name ++ (equals ++ (signed value.number ++ line_end))))
      ++ print_enum_values values

  unfoldable pub print_type : ListedService → ListedType → Bytes
  unfolding same_bytes print_fields print_enum_values
  print_type service type =
      if eqb_ℤ type.type type_message
      then if same_bytes type.name void_text
        then []
        else message_start
          ++ (type.name ++ (block_start ++ (print_fields service type.fields ++ block_end)))
      else if eqb_ℤ type.type type_enum
      then enum_start
        ++ (type.name ++ (block_start ++ (print_enum_values type.enum_values ++ block_end)))
      else []

  -- The text, and the names that have been printed.
  unfoldable pub print_new :
      ListedService → List ListedType → List Bytes → Bytes → List Bytes × Bytes
  unfolding contains print_type
  print_new service [] printed_types out = (printed_types, out)
  print_new service (type ∷ types) printed_types out = elim (contains printed_types type.name) [
    | true ↦ print_new service types printed_types out
    | false ↦
        print_new service types (printed_types ++ type.name ∷ []) (out ++ print_type service type)
  ]

  unfoldable pub print_types : List ListedService → List Bytes → Bytes → List Bytes × Bytes
  unfolding print_new
  print_types [] printed_types out = (printed_types, out)
  print_types (service ∷ services) printed_types out =
      let now = print_new service service.types printed_types out in
      print_types services now.0 now.1

  -- What `list_services` prints of the response.
  unfoldable pub print_listing : List ListedService → Bytes
  unfolding print_services print_types
  print_listing services =
      services_start
      ++ (print_services services ++ (types_start ++ ((print_types services [] []).1 ++ 0x0a ∷ [])))

-- What `main` does with its arguments.
pub data Command : Type 0 where
  show_usage wrong_usage : Command
  list_of : Bytes → Command
  call_of : Bytes → Bytes → Bytes → Command
  unknown_command : Option Bytes → Command

unfoldable pub is_help : Bytes → Bool
unfolding same_bytes
is_help command = same_bytes command h_text || same_bytes command help_text

unfoldable pub is_list : Bytes → Bool
unfolding same_bytes
is_list command = same_bytes command list_text || same_bytes command ls_text

unfoldable pub list_command : List Bytes → Command
list_command (endpoint ∷ []) = list_of endpoint
list_command _ = wrong_usage

unfoldable pub call_command : List Bytes → Command
call_command (endpoint ∷ method ∷ []) = call_of endpoint method []
call_command (endpoint ∷ method ∷ request ∷ []) = call_of endpoint method request
call_command _ = wrong_usage

unfoldable pub is_alone : List Bytes → Bool
is_alone [] = true
is_alone (x ∷ xs) = false

-- The arguments behind the name of the program.
unfoldable pub choose : List Bytes → Command
unfolding same_bytes is_help is_list is_alone list_command call_command
choose [] = unknown_command none
choose (command ∷ args) =
    if is_alone args && is_help command
    then show_usage
    else if is_list command
    then list_command args
    else if same_bytes command call_text
    then call_command args
    else unknown_command (some command)
