-- ===== src/Server/Discovery.antt =====
-- method_info.h and the DiscoveryService of server.cc and server_impl.cc: a server's description of itself.
--
-- A `TypeInfo const*` is an address, a number; `types` gives each address with what stands there.
pub mod Answer
use serialrpc.Base.{
  ℕ, zero, suc, ◌+◌, ◌%◌, ◌^◌, ltb, ◌==◌, ◌||◌, if◌then◌else◌, Bool, true, false, List, [], ◌∷◌,
  ◌++◌, ℤ, pos, negsuc, length,
}
use serialrpc.Io.{Io, Bytes, Source, Sink, Result, ok, err, ◌>>=◌}
use serialrpc.Rpc.{ServiceInfo}
use serialrpc.Encoding.Tag.{end_tag, code}
use serialrpc.Encoding.Marshal.{
  Value, int32, uint32, bool, text, message, repeated, Fields, nil, field, Messages, none, more,
  marshal_value,
}
use serialrpc.Encoding.Schema.{Kind, bool_type, Schema, end, entry}
use serialrpc.Encoding.Unmarshal.{unmarshal}
use serialrpc.Server.Dispatch.{Conn, Handler}
use serialrpc.Server.Messages.{start_reply}

-- `enum class TypeKind`.
pub data TypeKind : Type 0 where
  unknown_kind double_kind float_kind int64_kind uint64_kind int32_kind fixed64_kind fixed32_kind :
      TypeKind
  bool_kind string_kind message_kind bytes_kind uint32_kind enum_kind sfixed32_kind sfixed64_kind :
      TypeKind
  sint32_kind sint64_kind : TypeKind

unfoldable pub kind_number : TypeKind → ℕ
kind_number unknown_kind = 0
kind_number double_kind = 1
kind_number float_kind = 2
kind_number int64_kind = 3
kind_number uint64_kind = 4
kind_number int32_kind = 5
kind_number fixed64_kind = 6
kind_number fixed32_kind = 7
kind_number bool_kind = 8
kind_number string_kind = 9
kind_number message_kind = 11
kind_number bytes_kind = 12
kind_number uint32_kind = 13
kind_number enum_kind = 14
kind_number sfixed32_kind = 15
kind_number sfixed64_kind = 16
kind_number sint32_kind = 17
kind_number sint64_kind = 18

pub record EnumValueInfo : Type 0 where
  pub name : Bytes
  pub number : ℤ

-- `type` is the address, and `type_kind` the kind of what stands there.
pub record FieldInfo : Type 0 where
  pub name : Bytes
  pub number : ℕ
  pub type : ℕ
  pub type_kind : TypeKind
  pub is_repeated : Bool

pub record TypeInfo : Type 0 where
  pub kind : TypeKind
  pub name : Bytes
  pub fields : List FieldInfo
  pub enum_values : List EnumValueInfo

pub record MethodInfo : Type 0 where
  pub name : Bytes
  pub id : ℕ
  pub request_type : ℕ
  pub response_type : ℕ
  pub client_streaming : Bool
  pub server_streaming : Bool

pub record ServiceDescription : Type 0 where
  pub info : ServiceInfo
  pub methods : List MethodInfo
  pub types : List (ℕ × TypeInfo)

-- The place of the type in the service's list, from one, or zero. `i` types are in front.
unfoldable pub find_type : ℕ → ℕ → List (ℕ × TypeInfo) → ℕ
find_type i type [] = 0
find_type i type ((address, t) ∷ types) =
    let later = find_type (suc i) type types in if address == type then suc i % 2 ^ 32 else later

unfoldable pub type_id : ServiceDescription → ℕ → ℕ
unfolding find_type
type_id service type = find_type 0 type service.types

-- What the `marshal` of each struct writes, field by field.
unfoldable pub discovered_method : ServiceDescription → Bool → MethodInfo → Fields
unfolding type_id
discovered_method service full method = field 1 (text method.name) (
    field 2 (uint32 method.id) (
      if full
      then field 3 (uint32 (type_id service method.request_type)) (
          field 4 (uint32 (type_id service method.response_type))
            (field 5 (bool method.client_streaming) (field 6 (bool method.server_streaming) nil)))
      else nil))

unfoldable pub has_type_id : TypeKind → Bool
has_type_id message_kind = true
has_type_id enum_kind = true
has_type_id _ = false

unfoldable pub discovered_field : ServiceDescription → FieldInfo → Fields
unfolding type_id kind_number has_type_id
discovered_field service f =
    let last = field 5 (bool f.is_repeated) nil in
    field 1 (text f.name) (
      field 2 (uint32 f.number) (
        field 3 (int32 (pos (kind_number f.type_kind))) (
          if has_type_id f.type_kind
          then field 4 (uint32 (type_id service f.type)) last
          else last)))

unfoldable pub discovered_fields : ServiceDescription → List FieldInfo → Messages
unfolding discovered_field
discovered_fields service [] = none
discovered_fields service (f ∷ fs) =
    more (discovered_field service f) (discovered_fields service fs)

unfoldable pub discovered_enum_values : List EnumValueInfo → Messages
discovered_enum_values [] = none
discovered_enum_values (v ∷ vs) =
    more (field 1 (text v.name) (field 2 (int32 v.number) nil)) (discovered_enum_values vs)

unfoldable pub discovered_type : ServiceDescription → ℕ → TypeInfo → Fields
unfolding kind_number discovered_fields discovered_enum_values
discovered_type service id t = field 1 (uint32 id) (
    field 2 (int32 (pos (kind_number t.kind))) (
      field 3 (text t.name) (
        field 4 (repeated (discovered_fields service t.fields))
          (field 5 (repeated (discovered_enum_values t.enum_values)) nil))))

unfoldable pub discovered_types : ServiceDescription → ℕ → List (ℕ × TypeInfo) → Messages
unfolding discovered_type
discovered_types service i [] = none
discovered_types service i ((address, t) ∷ ts) =
    more (discovered_type service (suc i % 2 ^ 32) t) (discovered_types service (suc i) ts)

unfoldable pub discovered_methods : ServiceDescription → Bool → List MethodInfo → Messages
unfolding discovered_method
discovered_methods service full [] = none
discovered_methods service full (m ∷ ms) =
    more (discovered_method service full m) (discovered_methods service full ms)

-- `ListServicesRequest`.
abbrev pub request_schema : Schema
request_schema = entry 1 bool_type end

unfoldable pub is_full : Fields → Bool
is_full (field n (bool full) rest) = full
is_full _ = false

abbrev pub max_full_name_size : ℕ
max_full_name_size = 128

-- `append capacity a b` is what a `lib::InlineString` of that capacity holds when `b` is added to `a`.
module _ (append : ℕ → Bytes → Bytes → Bytes) where
  unfoldable pub discovered_name : ServiceInfo → Bytes
  discovered_name info =
      let prefix =
        if ltb 0 (length info.package_name)
        then append max_full_name_size (append max_full_name_size [] info.package_name) (0x2e ∷ [])
        else [] in
      append max_full_name_size prefix info.name

  unfoldable pub service_info_view : Bool → ServiceDescription → Fields
  unfolding discovered_name discovered_methods discovered_types
  service_info_view full service = field 1 (text (discovered_name service.info)) (
      field 2 (text service.info.uuid) (
        field 3 (int32 service.info.major_version) (
          field 4 (int32 service.info.minor_version) (
            field 5 (repeated (discovered_methods service full service.methods)) (
              if full
              then field 6 (repeated (discovered_types service 0 service.types)) nil
              else nil)))))

  unfoldable pub service_info_views : Bool → List ServiceDescription → Messages
  unfolding service_info_view
  service_info_views full [] = none
  service_info_views full (d ∷ ds) = more (service_info_view full d) (service_info_views full ds)

  unfoldable pub dispatch_list_services :
      {S : Type 0} → Io → Bool → ℕ → List ServiceDescription → Handler S
  unfolding start_reply is_full service_info_views
  dispatch_list_services io big fuel services s c = (
    s,
    do
      (request, source) ← unmarshal io fuel request_schema c.source
      w ← start_reply io c.sink
      (stack, w) ←
          marshal_value io big 1 (repeated (service_info_views (is_full request) services)) [] w
      w ← io.write_byte (code end_tag) w
      w ← io.flush w
      ok (record c { source = source; sink = w }),
  )
