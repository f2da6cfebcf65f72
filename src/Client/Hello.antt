-- ===== src/Client/Hello.antt =====
-- The handshake: `client_hello`, `read_services_def`, `handle_service_def` and `connect`.
pub mod Services
pub mod SameBytes
pub mod Learned
pub mod Offsets
use serialrpc.Base.{
  ℕ, zero, suc, ◌-◌, ◌%◌, ◌^◌, ◌==◌, ltb, not, if◌then◌else◌, Bool, true, false, Option, some, none,
  List, [], ◌∷◌, ◌++◌, ℤ, pos, negsuc, ◌+ℤ◌, ltb_ℤ, eqb_ℤ, length,
}
use serialrpc.Io.{
  Io, Bytes, Source, Sink, Result, Error, ok, err, ◌>>=◌, out_of_fuel, log_too_big, missing_service,
  unexpected_start, protocol_mismatch, major_mismatch, minor_too_low,
}
use serialrpc.Rpc.{
  ServiceInfo, protocol_version, server_hello, log, server_byte, client_hello, client_byte,
}
use serialrpc.Internal.{is_printable}
use serialrpc.Encoding.Tag.{Tag, end_tag, read_tag}
use serialrpc.Encoding.Skip.{skip_type, max_levels}
use serialrpc.Encoding.Chunked.{max_string_size}
use serialrpc.Encoding.Marshal.{Value, int32, text, Fields, nil, field}
use serialrpc.Encoding.Schema.{Kind, int32_type, inline_type, Schema, end, entry}
use serialrpc.Encoding.Unmarshal.{unmarshal}
use serialrpc.Server.Messages.{ServiceDef, to_int32}

pub record Stub : Type 0 where
  pub rpc_offset : ℤ
  -- `client` is this client
  pub connected : Bool
  pub info : ServiceInfo

unfoldable pub full_name : ServiceInfo → Bytes
full_name info =
    if ltb 0 (length info.package_name) then info.package_name ++ 0x2e ∷ info.name else info.name

-- serialrpc_protocol.proto: `ServiceDef` with its 16 bytes of uuid.
abbrev pub service_def_schema : Schema
service_def_schema =
    entry 1 (inline_type 16) (entry 2 int32_type (entry 3 int32_type (entry 4 int32_type end)))

unfoldable pub int32_of : Value → ℤ
int32_of (int32 v) = v
int32_of _ = pos 0

unfoldable pub text_of : Value → Bytes
text_of (text s) = s
text_of _ = []

-- The struct of the fields that `service_def_schema` gives.
unfoldable pub to_def : Fields → ServiceDef
unfolding int32_of text_of
to_def (field n uuid (field m major (field k minor (field l endpoints rest)))) = record {
  uuid = text_of uuid;
  major_version = int32_of major;
  minor_version = int32_of minor;
  num_endpoints = int32_of endpoints;
}
to_def _ = record { uuid = []; major_version = pos 0; minor_version = pos 0; num_endpoints = pos 0 }

unfoldable pub same_bytes : Bytes → Bytes → Bool
same_bytes [] [] = true
same_bytes [] (y ∷ ys) = false
same_bytes (x ∷ xs) [] = false
same_bytes (x ∷ xs) (y ∷ ys) = let rest = same_bytes xs ys in if x == y then rest else false

-- The checks of a stub of the service, and what it learns.
unfoldable pub match_stub : ServiceDef → ℤ → Stub → Result Stub
unfolding full_name
match_stub def offset stub =
    if not (eqb_ℤ stub.info.major_version def.major_version)
    then err (major_mismatch (full_name stub.info))
    else if ltb_ℤ def.minor_version stub.info.minor_version
    then err (minor_too_low (full_name stub.info))
    else ok (record stub { connected = true; rpc_offset = offset })

-- The first stub with the uuid is the one.
unfoldable pub handle_service_def : ServiceDef → ℤ → List Stub → Result (List Stub)
unfolding same_bytes match_stub
handle_service_def def offset [] = ok []
handle_service_def def offset (stub ∷ stubs) =
    let rest = handle_service_def def offset stubs in
    if not (same_bytes stub.info.uuid def.uuid)
    then (do stubs ← rest; ok (stub ∷ stubs))
    else (do stub ← match_stub def offset stub; ok (stub ∷ stubs))

-- An `int`. An overflow, which C++ leaves undefined, wraps around here.
unfoldable pub wrap_int32 : ℤ → ℤ
unfolding to_int32
wrap_int32 (pos n) = to_int32 (n % 2 ^ 32)
wrap_int32 (negsuc n) = to_int32 (2 ^ 32 - 1 - n % 2 ^ 32)

module _ (io : Io) where
  unfoldable pub read_version : Source → Result Source
  read_version s = do
    (version, s) ← io.read_uint32 s
    if version == protocol_version then ok s else err (protocol_mismatch version)

  unfoldable pub read_service : ℕ → ℤ → List Stub → Source → Result (ℤ × List Stub × Source)
  unfolding handle_service_def to_def unmarshal wrap_int32
  read_service fuel offset stubs s = do
    (m, s) ← unmarshal io fuel service_def_schema s
    let def = to_def m
    stubs ← handle_service_def def offset stubs
    ok (wrap_int32 (offset +ℤ def.num_endpoints), stubs, s)

  -- The loop of `read_services_def`, which starts with `offset = 1`.
  pub read_services : ℕ → ℤ → List Stub → Source → Result (List Stub × Source)
  unfolding read_version read_service
  read_services zero offset stubs s = err out_of_fuel
  read_services (suc fuel) offset stubs s = do
    (tag, s) ← read_tag io s
    elim tag.type [
      | end_tag ↦ ok (stubs, s)
      | type ↦ elim tag.field_num [
        | pos n ↦ elim (n == 2) [
          | true ↦ do
            (offset, stubs, s) ← read_service fuel offset stubs s
            read_services fuel offset stubs s
          | false ↦ elim (n == 1) [
            | true ↦ do s ← read_version s; read_services fuel offset stubs s
            | false ↦ do s ← skip_type io fuel type max_levels s; read_services fuel offset stubs s
          ]
        ]
        | negsuc n ↦ do s ← skip_type io fuel type max_levels s; read_services fuel offset stubs s
      ]
    ]

  unfoldable pub read_services_def : ℕ → List Stub → Source → Result (List Stub × Source)
  unfolding read_services
  read_services_def fuel stubs s = read_services fuel (pos 1) stubs s

  -- `print_line`: the line that starts with the byte `b`.
  pub print_line : ℕ → ℕ → Source → Result Source
  print_line zero b s = err out_of_fuel
  print_line (suc fuel) b s = elim (b == 0x0a) [
    | true ↦ ok s
    | false ↦ do (b, s) ← io.read_byte s; print_line fuel b s
  ]

  unfoldable pub handle_log : Source → Result (Bytes × Source)
  handle_log s = do
    (nbytes, s) ← io.read_uint32 s
    if ltb max_string_size nbytes then err log_too_big else io.read_full nbytes s

  -- `client_hello` from the label on: diagnostics are passed over until the hello comes.
  pub await_hello : ℕ → List Stub → Source → Result (List Stub × Source)
  unfolding print_line handle_log read_services_def is_printable
  await_hello zero stubs s = err out_of_fuel
  await_hello (suc fuel) stubs s = do
    (b, s) ← io.read_byte s
    elim (is_printable b) [
      | true ↦ do s ← print_line fuel b s; await_hello fuel stubs s
      | false ↦ elim (b == server_byte log) [
        | true ↦ do (line, s) ← handle_log s; await_hello fuel stubs s
        | false ↦ elim (b == server_byte server_hello) [
          | true ↦ read_services_def fuel stubs s
          | false ↦ err (unexpected_start b)
        ]
      ]
    ]

  unfoldable pub send_hello : Sink → Result Sink
  send_hello w = do w ← io.write_byte (client_byte client_hello) w; io.flush w

-- The last check of `connect`.
unfoldable pub all_connected : List Stub → Result (Unit {0})
all_connected [] = ok tt
all_connected (stub ∷ stubs) =
    let rest = all_connected stubs in if stub.connected then rest else err missing_service
