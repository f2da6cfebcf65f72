-- ===== src/Lib.antt =====
-- serialrpc: remote calls over a serial line, in C++.
--
-- A server offers services. A client connects, reads the hello of the server, which lists the services
-- with the number of their endpoints, and gives each of its stubs the number of its service's first
-- endpoint. A call writes an endpoint number and a request, and waits for a reply; the client's input
-- thread reads the replies, which come in the order of the calls, and the events. Requests and replies
-- are in a wire format close to protobuf's, with nested messages between Start and End tags.
--
-- The files, and the code that each models:
-- Base         helpers: tests on native numbers, lists, integers. Each number of the program is a ℕ or
--              a ℤ; the bounds of its machine type are hypotheses, and wrap-around is written out.
-- Io           lib.io, lib.varint and the errors, which the program calls and does not contain: the
--              record Io, with the laws that the theorems use (Io.Laws). Io.Leb128 is an instance, the
--              usual varints, for the runs in Tests. An `error err` argument is a Result.
-- Encoding     encoding.cc, encoding_impl.cc: Tag (read_tag, write_tag), Stack, Marshal (marshal_field
--              for every type, marshal), Skip (skip), Chunked (write_chunked, read_chunked,
--              unmarshal_bytes), Unmarshal (unmarshal for every type), and Schema: what
--              MessageGenerator in cmd/serialrpcgen/protoc_serialrpc_plugin.cc knows of a message when
--              it writes its marshal and unmarshal, so that these are functions of a schema.
-- Internal     internal.cc: is_printable, format_uuid.
-- Rpc          rpc.h, service_info.h, serialrpc_protocol.proto: message types and ServiceInfo.
-- Server       server.cc, server_impl.cc: Dispatch (concatenate_arrays, handle_request), Messages
--              (send_reply_msg, send_event, server_hello, ServerErrorHandler), Accept (accept, serve),
--              Discovery (method_info.h, dispatch_list_services). A handler is a function of the state
--              of the services and the connection. Generated has the service base that
--              generate_service_server_base in protoc_serialrpc_plugin.cc writes; its implementation is
--              a parameter.
-- Client       client.cc, client.h: Queue (the list of CallData that wait, over a store of cells),
--              State (check_running, fail, wait, start, close and the error function of input), Calls
--              (call and its kin), Hello (client_hello, read_services_def, handle_service_def), Input
--              (the loop of input and its handlers), Stubs (what generate_client in
--              protoc_serialrpc_plugin.cc writes for a service), Waiter (notify and wait of the atomic
--              that a caller waits on, as interleaved steps).
-- EndToEnd     a stub and a base of one service on the two ends of a connection: Call, Event.
-- Cli          cmd/serialrpc/call.cc: Dynamic (detail::marshal of what the reflection of
--              google::protobuf lists), Method (split_method, the search for the endpoint), Schema
--              (build_method_descriptor), Receive (detail::unmarshal), Call (call, behind the connection
--              and the list of services). What call.cc asks of google::protobuf is a parameter. main.cc
--              is Listing: what list_services prints of the response, and the command by the arguments.
-- Generator    cmd/serialrpcgen/serialrpc_objects.cc: Uuid (UuidStringToBytes), Names (UnderscoresToCamelCase
--              and the names of protoc_serialrpc_plugin.cc), Model (GenerateField,
--              EchoMethod, EchoService), over what the generator asks of a descriptor.
-- Tests        the theorems at concrete inputs.
--
-- Fuel: unmarshal, skip, read_chunked, the loops of accept, input and the hello are recursive on fuel.
-- Each theorem on one of them names an amount that is enough: the rounds of a message for unmarshal and
-- skip, two more than twice the length of the source for skip on any source, one more than the chunks,
-- the requests or the calls. max_nesting is the program's 128. The number of an endpoint is an int, whose
-- overflow, undefined in C++, wraps around; the theorems on the hello bound the endpoints so that there
-- is none.
--
-- Not modelled: the threads, locks and condition variables (an operation under a lock is one step, and a
-- compare_and_swap succeeds at once), but for the Waiter and the error function of input, which is one
-- step up to its wait and one from each wake-up on; the texts of errors; of main.cc the connection and
-- the exit status; of the generator the formatter and the parts of the C++ text that hold no logic.
-- Texts of 2^63 bytes and more are excluded. What a failed decode leaves in a struct is not modelled: the
-- result is the error.
pub mod Base
pub mod Io
pub mod Encoding
pub mod Internal
pub mod Rpc
pub mod Server
pub mod Client
pub mod EndToEnd
pub mod Cli
pub mod Generator
pub mod Tests
