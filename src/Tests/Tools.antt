-- ===== src/Tests/Tools.antt =====
-- The command line, at services of two methods.
use mathlib.Core.List.{Permᴰ}
use serialrpc.Base.{
  ℕ, ◌+◌, ◌≤◌, ◌≡◌, refl, Bool, true, false, some, none, List, [], ◌∷◌, ◌++◌, pos, All, arith,
  replicate,
}
use serialrpc.Io.{Bytes, Error, ok}
use serialrpc.Io.Leb128.{leb128, leb128_laws}
use serialrpc.Encoding.Marshal.Encode.{FieldsInRange, depth_fields, encode}
use serialrpc.Client.Hello.{same_bytes}
use serialrpc.Server.Dispatch.{Service, no_handler}
use serialrpc.Server.Messages.{to_int32}
use serialrpc.Cli.Dynamic.{
  cpp_int32, cpp_enum, cpp_message, DynamicMessage, no_fields, listed, no_values, value,
  marshal_dynamic,
}
use serialrpc.Cli.Dynamic.Encoding.{as_fields, marshal_dynamic-encode}
use serialrpc.Cli.Method.{
  ListedType, ListedMethod, ListedService, find_target, find_method, split_method, rfind, split_at,
  separator_of, found_in, count_before, type_name,
}
use serialrpc.Cli.Method.Name.{slash, split_method-joined}
use serialrpc.Cli.Method.Endpoint.{find_method-numbers}
use serialrpc.Cli.Schema.{
  FileProto, Names, no_names, find_key, at_key, add_message, add_enum, contains_id, add_type,
  add_types, is_field_type, type_name_of, field_proto, field_protos, set_fields, set_enum,
  fill_type, fill_types, method_type, supports_discovery, build_method_descriptor,
}
use serialrpc.Cli.Receive.{message_type}
use serialrpc.Cli.Call.{
  Protobuf, Prepared, request_message, with_request, prepare_built, prepare_method, find_listed,
  split_name, prepare, send,
}
use serialrpc.Cli.Call.Request.{send-reaches}
use serialrpc.Cli.Listing.{print_types, unknown_command, wrong_usage, choose}
use serialrpc.Cli.Listing.Distinct.{all_types, distinct, names, texts, print_types-distinct}
use serialrpc.Server.Accept.Session.{Request, request_bytes}
use serialrpc.Client.Queue.{CallData}
use serialrpc.Client.State.{running, Client, check_running, check_state}
use serialrpc.Cli.Schema.Fields.{MessageResolves}
use serialrpc.Cli.Schema.Resolved.{build_method_descriptor-resolves}

-- A message with a repeated number, an enum and a message inside.
abbrev message : DynamicMessage
message = listed 1 (value (cpp_int32 (pos 3)) (value (cpp_int32 (pos 4)) no_values)) (
    listed 2 (value (cpp_enum (pos 1)) no_values)
      (listed 3 (value (cpp_message no_fields) no_values) no_fields))

message-FieldsInRange : FieldsInRange (as_fields message)
unfolding as_fields FieldsInRange
message-FieldsInRange = (omega arith, (omega arith, (omega arith, (tt, tt))))

message_depth : depth_fields (as_fields message) ≤ 128
unfolding as_fields depth_fields
message_depth = omega arith

marshal_dynamic-encode_example :
    marshal_dynamic leb128 false message []
    ≡ ok ([] ++ encode leb128 leb128_laws (as_fields message))
marshal_dynamic-encode_example =
    marshal_dynamic-encode leb128 false leb128_laws message [] message-FieldsInRange message_depth

split_method-joined_example : split_method (0x73 ∷ 0x2f ∷ 0x6d ∷ []) ≡ some (0x73 ∷ [], 0x6d ∷ [])
split_method-joined_example =
    split_method-joined (0x73 ∷ []) (0x6d ∷ []) 0x2f (omega arith) (omega arith) (slash (refl, tt))

-- The methods are listed in the order of their declaration, and stand in the table by their IDs.
abbrev listed_method : ℕ → ℕ → ListedMethod
listed_method id name = record {
  id = id;
  name = name ∷ [];
  request_type = 1;
  response_type = 1;
  client_streaming = false;
  server_streaming = false;
}

abbrev listed_type : ListedType
listed_type = record {
  id = 1;
  name = [];
  type = pos 11;
  fields =
      record { name = []; number = 1; type = pos 11; repeated = false; type_id = 1 }
      ∷ record { name = []; number = 2; type = pos 5; repeated = true; type_id = 0 }
      ∷ [];
  enum_values = [];
}

abbrev service : ℕ → ListedService
service name = record {
  name = name ∷ [];
  methods = listed_method 5 0x61 ∷ listed_method 2 0x62 ∷ [];
  types = listed_type ∷ [];
}

abbrev table : List ListedMethod
table = listed_method 2 0x62 ∷ listed_method 5 0x61 ∷ []

abbrev before : List (Service ℕ)
before =
    record {
      info = record {
        name = 0x73 ∷ [];
        package_name = [];
        uuid = replicate 16 1;
        major_version = pos 1;
        minor_version = pos 0;
        num_endpoints = 2;
      };
      dispatch_table = no_handler ∷ no_handler ∷ [];
      unsubscribe = λ s. s;
    }
    ∷ []

-- Method 0x61 of the second service, entry 1 of its table, is endpoint 4.
find_method-numbers_example :
    find_method (0x74 ∷ []) (0x61 ∷ []) 1 (service 0x73 ∷ service 0x74 ∷ [])
    ≡ some (4, service 0x74, listed_method 5 0x61)
unfolding same_bytes find_target
find_method-numbers_example =
    find_method-numbers (0x74 ∷ []) (0x61 ∷ []) before (service 0x73 ∷ []) [] (service 0x74) table 1
      (listed_method 5 0x61) (refl, tt) (refl, tt) refl refl (Permᴰ.swap refl refl)
      ((omega arith, tt), (tt, tt)) refl (omega arith)

abbrev decimal : ℕ → Bytes
decimal n = (0x30 + n) ∷ []

abbrev takes : FileProto → Bool
takes file = true

built :
    (file : FileProto) × (build_method_descriptor decimal takes
        (service 0x74)
        (listed_method 2 0x62)
      ≡ ok file)
unfolding build_method_descriptor supports_discovery add_types add_type add_message add_enum
    contains_id fill_types fill_type at_key field_protos field_proto is_field_type type_name_of
    find_key set_fields set_enum method_type to_int32
built = (_, refl)

build_method_descriptor-resolves_example :
    (n : Names) × (add_types decimal (listed_type ∷ []) no_names ≡ ok n)
    × All (MessageResolves n) built.0.messages
    × (find_key 1 n.message_names ≡ some built.0.method.input_type)
    × (find_key 1 n.message_names ≡ some built.0.method.output_type)
    × (takes built.0 ≡ true)
build_method_descriptor-resolves_example =
    build_method_descriptor-resolves decimal takes (service 0x74) (listed_method 2 0x62) built.0
      built.1

-- A google::protobuf that takes every file and reads every text as the message above.
abbrev protobuf : Protobuf ℕ ℕ
protobuf = record {
  to_string = decimal;
  build_file = takes;
  has_prototypes = takes;
  new_response = λ file. 0;
  parse_request = λ file text. some message;
  print_response = λ m. some (m ∷ []);
  reflection = record {
    find_field_by_number = λ m number. none;
    is_repeated = λ f. false;
    cpp_type = λ f. message_type;
    set_value = λ f v m. m;
    add_value = λ f v m. m;
    mutable_message = λ f m. m;
    put_message = λ f inner m. m;
    new_message = λ f m. m;
    add_message = λ f inner m. m;
  };
}

abbrev prepared : Prepared ℕ
prepared = record {
  endpoint_id = 4;
  service_name = 0x74 ∷ [];
  method_name = 0x61 ∷ [];
  request = some message;
  response = some 0;
}

prepared_lem :
    prepare protobuf (service 0x73 ∷ service 0x74 ∷ []) (0x74 ∷ 0x2f ∷ 0x61 ∷ []) (0x7b ∷ [])
    ≡ ok prepared
unfolding prepare split_name split_method rfind split_at separator_of find_listed find_method
    same_bytes find_target found_in count_before prepare_method build_method_descriptor
    supports_discovery add_types add_type add_message add_enum contains_id fill_types fill_type
    at_key field_protos field_proto is_field_type type_name_of find_key set_fields set_enum
    method_type to_int32 prepare_built request_message with_request type_name
prepared_lem = refl

abbrev caller : Client ℕ
caller = record {
  name = [];
  has_conn = true;
  conn_open = true;
  source = [];
  sink = [];
  state = running;
  error = none;
  calls = record { cell = λ p. waiting; head = none; tail = none };
  event_callbacks = [];
}
  where
    waiting : CallData ℕ
    waiting = record {
      next = none;
      resp = none;
      error_text = [];
      has_error = false;
      service_name = [];
      procedure_name = [];
      unmarshal = none;
      unmarshal_raw = none;
      response_received = false;
    }

caller_runs : check_running caller ≡ ok tt
unfolding check_running check_state
caller_runs = refl

abbrev stringify : Error → Bytes
stringify e = []

send-reaches_example :
    let sent = send protobuf leb128 stringify false 3 7 prepared caller in
    let request : Request = record {
      endpoint = 3;
      body = encode leb128 leb128_laws (as_fields message);
    } in
    (sent.1 ≡ ok tt) × (sent.0.sink ≡ [] ++ request_bytes leb128 leb128_laws before (request ∷ []))
unfolding same_bytes find_target
send-reaches_example =
    send-reaches protobuf leb128 leb128_laws stringify false 3 before (service 0x73 ∷ []) []
      (service 0x74) table 1 0x2f (listed_method 5 0x61) (0x74 ∷ []) (0x61 ∷ []) (0x7b ∷ [])
      prepared message 7 caller (omega arith) (omega arith) (slash (refl, tt)) (refl, tt) (refl, tt)
      refl refl (Permᴰ.swap refl refl) ((omega arith, tt), (tt, tt)) refl (omega arith) prepared_lem
      refl caller_runs message-FieldsInRange message_depth

-- Two services that list the same type are printed with it once.
abbrev digit : ℕ → Bytes
digit n = (0x30 + n) ∷ []

print_types-distinct_example :
    print_types digit (λ z. []) (service 0x73 ∷ service 0x74 ∷ []) [] [] ≡ (
      names (distinct (all_types (service 0x73 ∷ service 0x74 ∷ []))),
      texts digit (λ z. []) (distinct (all_types (service 0x73 ∷ service 0x74 ∷ []))),
    )
print_types-distinct_example =
    print_types-distinct digit (λ z. []) (service 0x73 ∷ service 0x74 ∷ [])

one_name : names (distinct (all_types (service 0x73 ∷ service 0x74 ∷ []))) ≡ [] ∷ []
unfolding same_bytes
one_name = refl

call_with_no_method : choose ((0x63 ∷ 0x61 ∷ 0x6c ∷ 0x6c ∷ []) ∷ (0x2f ∷ []) ∷ []) ≡ wrong_usage
unfolding choose
call_with_no_method = refl

no_arguments : choose [] ≡ unknown_command none
unfolding choose
no_arguments = refl
