-- ===== src/Cli/Listing/Texts.antt =====
-- The texts of cmd/serialrpc/main.cc, in ASCII.
use serialrpc.Base.{[], ◌∷◌}
use serialrpc.Io.{Bytes}

abbrev pub unknown_text : Bytes
unknown_text = 0x3c ∷ 0x75 ∷ 0x6e ∷ 0x6b ∷ 0x6e ∷ 0x6f ∷ 0x77 ∷ 0x6e ∷ 0x3e ∷ []

abbrev pub double_text : Bytes
double_text = 0x64 ∷ 0x6f ∷ 0x75 ∷ 0x62 ∷ 0x6c ∷ 0x65 ∷ []

abbrev pub float_text : Bytes
float_text = 0x66 ∷ 0x6c ∷ 0x6f ∷ 0x61 ∷ 0x74 ∷ []

abbrev pub int64_text : Bytes
int64_text = 0x69 ∷ 0x6e ∷ 0x74 ∷ 0x36 ∷ 0x34 ∷ []

abbrev pub uint64_text : Bytes
uint64_text = 0x75 ∷ 0x69 ∷ 0x6e ∷ 0x74 ∷ 0x36 ∷ 0x34 ∷ []

abbrev pub int32_text : Bytes
int32_text = 0x69 ∷ 0x6e ∷ 0x74 ∷ 0x33 ∷ 0x32 ∷ []

abbrev pub fixed64_text : Bytes
fixed64_text = 0x66 ∷ 0x69 ∷ 0x78 ∷ 0x65 ∷ 0x64 ∷ 0x36 ∷ 0x34 ∷ []

abbrev pub fixed32_text : Bytes
fixed32_text = 0x66 ∷ 0x69 ∷ 0x78 ∷ 0x65 ∷ 0x64 ∷ 0x33 ∷ 0x32 ∷ []

abbrev pub bool_text : Bytes
bool_text = 0x62 ∷ 0x6f ∷ 0x6f ∷ 0x6c ∷ []

abbrev pub string_text : Bytes
string_text = 0x73 ∷ 0x74 ∷ 0x72 ∷ 0x69 ∷ 0x6e ∷ 0x67 ∷ []

abbrev pub bytes_text : Bytes
bytes_text = 0x62 ∷ 0x79 ∷ 0x74 ∷ 0x65 ∷ 0x73 ∷ []

abbrev pub uint32_text : Bytes
uint32_text = 0x75 ∷ 0x69 ∷ 0x6e ∷ 0x74 ∷ 0x33 ∷ 0x32 ∷ []

abbrev pub sfixed32_text : Bytes
sfixed32_text = 0x73 ∷ 0x66 ∷ 0x69 ∷ 0x78 ∷ 0x65 ∷ 0x64 ∷ 0x33 ∷ 0x32 ∷ []

abbrev pub sfixed64_text : Bytes
sfixed64_text = 0x73 ∷ 0x66 ∷ 0x69 ∷ 0x78 ∷ 0x65 ∷ 0x64 ∷ 0x36 ∷ 0x34 ∷ []

abbrev pub sint32_text : Bytes
sint32_text = 0x73 ∷ 0x69 ∷ 0x6e ∷ 0x74 ∷ 0x33 ∷ 0x32 ∷ []

abbrev pub sint64_text : Bytes
sint64_text = 0x73 ∷ 0x69 ∷ 0x6e ∷ 0x74 ∷ 0x36 ∷ 0x34 ∷ []

abbrev pub message_start : Bytes
message_start = 0x0a ∷ 0x6d ∷ 0x65 ∷ 0x73 ∷ 0x73 ∷ 0x61 ∷ 0x67 ∷ 0x65 ∷ 0x20 ∷ []

abbrev pub enum_start : Bytes
enum_start = 0x0a ∷ 0x65 ∷ 0x6e ∷ 0x75 ∷ 0x6d ∷ 0x20 ∷ []

abbrev pub block_start : Bytes
block_start = 0x20 ∷ 0x7b ∷ 0x0a ∷ []

abbrev pub block_end : Bytes
block_end = 0x7d ∷ 0x0a ∷ []

abbrev pub indent : Bytes
indent = 0x20 ∷ 0x20 ∷ []

abbrev pub repeated_text : Bytes
repeated_text = 0x72 ∷ 0x65 ∷ 0x70 ∷ 0x65 ∷ 0x61 ∷ 0x74 ∷ 0x65 ∷ 0x64 ∷ 0x20 ∷ []

abbrev pub space : Bytes
space = 0x20 ∷ []

abbrev pub equals : Bytes
equals = 0x20 ∷ 0x3d ∷ 0x20 ∷ []

abbrev pub line_end : Bytes
line_end = 0x3b ∷ 0x0a ∷ []

abbrev pub services_start : Bytes
services_start = 0x53 ∷ 0x65 ∷ 0x72 ∷ 0x76 ∷ 0x69 ∷ 0x63 ∷ 0x65 ∷ 0x73 ∷ 0x3a ∷ 0x0a ∷ 0x0a ∷ []

abbrev pub service_start : Bytes
service_start = 0x73 ∷ 0x65 ∷ 0x72 ∷ 0x76 ∷ 0x69 ∷ 0x63 ∷ 0x65 ∷ 0x20 ∷ []

abbrev pub service_end : Bytes
service_end = 0x7d ∷ 0x0a ∷ 0x0a ∷ []

abbrev pub rpc_start : Bytes
rpc_start = 0x20 ∷ 0x20 ∷ 0x72 ∷ 0x70 ∷ 0x63 ∷ 0x20 ∷ []

abbrev pub stream_text : Bytes
stream_text = 0x73 ∷ 0x74 ∷ 0x72 ∷ 0x65 ∷ 0x61 ∷ 0x6d ∷ 0x20 ∷ []

abbrev pub open_text : Bytes
open_text = 0x28 ∷ []

abbrev pub returns_text : Bytes
returns_text = 0x29 ∷ 0x20 ∷ 0x72 ∷ 0x65 ∷ 0x74 ∷ 0x75 ∷ 0x72 ∷ 0x6e ∷ 0x73 ∷ 0x20 ∷ 0x28 ∷ []

abbrev pub rpc_end : Bytes
rpc_end = 0x29 ∷ 0x20 ∷ 0x7b ∷ 0x7d ∷ 0x0a ∷ []

abbrev pub types_start : Bytes
types_start = 0x54 ∷ 0x79 ∷ 0x70 ∷ 0x65 ∷ 0x73 ∷ 0x3a ∷ 0x0a ∷ []

abbrev pub list_text : Bytes
list_text = 0x6c ∷ 0x69 ∷ 0x73 ∷ 0x74 ∷ []

abbrev pub ls_text : Bytes
ls_text = 0x6c ∷ 0x73 ∷ []

abbrev pub call_text : Bytes
call_text = 0x63 ∷ 0x61 ∷ 0x6c ∷ 0x6c ∷ []

abbrev pub h_text : Bytes
h_text = 0x2d ∷ 0x68 ∷ []

abbrev pub help_text : Bytes
help_text = 0x2d ∷ 0x2d ∷ 0x68 ∷ 0x65 ∷ 0x6c ∷ 0x70 ∷ []
