-- ===== src/Cli/Call.antt =====
-- `cli::call`: from the name of a method and the text of its request to the text of its response.
--
-- It stands behind the connection and the list of services. google::protobuf makes the messages, reads
-- the request's text and writes the response's.
pub mod Request
use serialrpc.Base.{
  ℕ, zero, suc, ◌==◌, if◌then◌else◌, ◌||◌, Bool, true, false, Option, some, none, List, [], ◌∷◌,
  length,
}
use serialrpc.Io.{
  Io, Bytes, Source, Sink, Result, Error, ok, err, ◌>>=◌, bad_method_name, no_such_method,
  streaming_method, unwanted_request, bad_request_text, bad_response, no_prototype,
}
use serialrpc.Client.State.{Client, Unit'}
use serialrpc.Client.Calls.{call_raw}
use serialrpc.Client.Hello.{same_bytes}
use serialrpc.Cli.Dynamic.{DynamicMessage, marshal_dynamic}
use serialrpc.Cli.Method.{ListedMethod, ListedService, split_method, find_method, type_name}
use serialrpc.Cli.Schema.{FileProto, build_method_descriptor}
use serialrpc.Cli.Receive.{Reflection, unmarshal_dynamic}

-- What the function asks of google::protobuf and std: `std::to_string`, `BuildFile`, whether there are
-- prototypes of the request and the response, a new response, `ParseFromString` and `PrintToString`.
pub record Protobuf (M F : Type 0) : Type 0 where
  pub to_string : ℕ → Bytes
  pub build_file : FileProto → Bool
  pub has_prototypes : FileProto → Bool
  pub new_response : FileProto → M
  pub parse_request : FileProto → Bytes → Option DynamicMessage
  pub print_response : M → Option Bytes
  pub reflection : Reflection M F

-- "void".
abbrev pub void_text : Bytes
void_text = 0x76 ∷ 0x6f ∷ 0x69 ∷ 0x64 ∷ []

-- What is called: a request of none is void, and so is a response.
pub record Prepared (M : Type 0) : Type 0 where
  pub endpoint_id : ℕ
  pub service_name : Bytes
  pub method_name : Bytes
  pub request : Option DynamicMessage
  pub response : Option M

module _ {M F : Type 0} (protobuf : Protobuf M F) where
  unfoldable pub request_message : FileProto → Bool → Bytes → Result (Option DynamicMessage)
  request_message file true request_text =
      if length request_text == 0 then ok none else err unwanted_request
  request_message file false request_text = elim (protobuf.parse_request file request_text) [
    | none ↦ err bad_request_text
    | some m ↦ ok (some m)
  ]

  unfoldable pub with_request :
      Bytes
      → Bytes
      → ℕ × ListedService × ListedMethod
      → FileProto
      → Option DynamicMessage
      → Prepared M
  unfolding type_name same_bytes
  with_request service_name method_name (endpoint_id, service, method) file request = record {
    endpoint_id = endpoint_id;
    service_name = service_name;
    method_name = method_name;
    request = request;
    response =
        if same_bytes (type_name method.response_type service.types) void_text
        then none
        else some (protobuf.new_response file);
  }

  -- The checks behind the descriptor.
  unfoldable pub prepare_built :
      Bytes → Bytes → Bytes → ℕ × ListedService × ListedMethod → FileProto → Result (Prepared M)
  unfolding type_name request_message same_bytes with_request
  prepare_built service_name method_name request_text (endpoint_id, service, method) file =
      let is_void = same_bytes (type_name method.request_type service.types) void_text in
      if file.method.client_streaming || file.method.server_streaming
      then err streaming_method
      else if protobuf.has_prototypes file
      then (request_message file is_void request_text >>= λ request.
          ok (with_request service_name method_name (endpoint_id, service, method) file request))
      else err no_prototype

  unfoldable pub prepare_method :
      Bytes → Bytes → Bytes → ℕ × ListedService × ListedMethod → Result (Prepared M)
  unfolding build_method_descriptor prepare_built
  prepare_method service_name method_name request_text (endpoint_id, service, method) = do
    file ← build_method_descriptor protobuf.to_string protobuf.build_file service method
    prepare_built service_name method_name request_text (endpoint_id, service, method) file

  unfoldable pub find_listed :
      List ListedService → Bytes × Bytes → Result (ℕ × ListedService × ListedMethod)
  unfolding find_method
  find_listed services (service_name, method_name) =
      elim (find_method service_name method_name 1 services) [
        | none ↦ err no_such_method
        | some found ↦ ok found
      ]

  unfoldable pub split_name : Bytes → Result (Bytes × Bytes)
  unfolding split_method
  split_name name = elim (split_method name) [ none ↦ err bad_method_name | some names ↦ ok names ]

  -- The part in front of the call.
  unfoldable pub prepare : List ListedService → Bytes → Bytes → Result (Prepared M)
  unfolding split_name find_listed prepare_method
  prepare services name request_text = do
    names ← split_name name
    found ← find_listed services names
    prepare_method names.0 names.1 request_text found

  -- The call itself, up to its wait.
  unfoldable pub write_request : Io → Bool → Option DynamicMessage → Option (Sink → Result Sink)
  write_request io big none = none
  write_request io big (some m) = some (marshal_dynamic io big m)

  unfoldable pub read_response : Io → ℕ → Option M → Option (Source → Result (M × Source))
  read_response io fuel none = none
  read_response io fuel (some m) = some (unmarshal_dynamic io protobuf.reflection fuel m)

  unfoldable pub send :
      Io → (Error → Bytes) → Bool → ℕ → ℕ → Prepared M → Client M → Client M × Result Unit'
  unfolding call_raw write_request read_response
  send io stringify big fuel p prepared c =
      call_raw io stringify big fuel prepared.endpoint_id p prepared.service_name
        prepared.method_name (read_response io fuel prepared.response) prepared.response
        (write_request io big prepared.request) c

  -- What is printed for what the call returns.
  unfoldable pub output : Option M → Result Bytes
  output none = ok (0x7b ∷ 0x7d ∷ 0x0a ∷ [])
  output (some m) = elim (protobuf.print_response m) [
    | none ↦ err bad_response
    | some text ↦ if length text == 0 then ok (0x7b ∷ 0x7d ∷ 0x0a ∷ []) else ok text
  ]
