-- ===== src/Cli/Call/Request.antt =====
-- A request from the command line reaches the method that it names.
use mathlib.Core.List.{Permᴰ}
use serialrpc.Base.{
  ℕ, ◌+◌, ◌<◌, ◌≤◌, ◌^◌, ◌≡◌, refl, sym, ap, ◌||◌, Bool, true, false, Bool-cases, inl, inr, some,
  none, List, [], ◌∷◌, ◌++◌, append-nil, length, get_elem?, All, arith,
}
use serialrpc.Io.{Io, Bytes, Error, ok}
use serialrpc.Io.Bind.{bind_ok}
use serialrpc.Io.Laws.{Laws}
use serialrpc.Encoding.Marshal.Encode.{encode, FieldsInRange, depth_fields}
use serialrpc.Client.State.{Client, check_running}
use serialrpc.Client.Calls.{call_raw, call_data, raw_body}
use serialrpc.Client.Calls.Sending.{sent_by, sent_lem}
use serialrpc.Client.Hello.{same_bytes}
use serialrpc.Server.Dispatch.{Service}
use serialrpc.Server.Dispatch.Table.{endpoints}
use serialrpc.Server.Accept.Session.{Request, request_bytes}
use serialrpc.Cli.Dynamic.{DynamicMessage, marshal_dynamic}
use serialrpc.Cli.Dynamic.Encoding.{as_fields, marshal_dynamic-encode}
use serialrpc.Cli.Method.{
  ListedMethod, ListedService, split_method, find_target, find_method, type_name,
}
use serialrpc.Cli.Method.Name.{Joins, split_method-joined}
use serialrpc.Cli.Method.Endpoint.{Lists, Ascending, place_within, find_method-numbers}
use serialrpc.Cli.Schema.{FileProto, build_method_descriptor}
use serialrpc.Cli.Schema.Fields.{err_not_ok, ok-injective}
use serialrpc.Cli.Call.{
  Protobuf, Prepared, request_message, with_request, prepare_built, prepare_method, find_listed,
  split_name, void_text, prepare, write_request, read_response, send,
}

module _ {M F : Type 0} (protobuf : Protobuf M F) where
  built_endpoint :
      (service_name method_name request_text : Bytes) (found : ℕ × ListedService × ListedMethod)
      (file : FileProto) (p : Prepared M)
      → prepare_built protobuf service_name method_name request_text found file ≡ ok p
      → p.endpoint_id ≡ found.0
  unfolding prepare_built with_request
  built_endpoint service_name method_name request_text (n, service, method) file p e =
      elim (Bool-cases (file.method.client_streaming || file.method.server_streaming)) [
        | inl streams ↦ absurd (err_not_ok _ _ (rw (prepare_built, streams) at e))
        | inr calls ↦ elim (Bool-cases (protobuf.has_prototypes file)) [
          | inr missing ↦ absurd (err_not_ok _ _ (rw (prepare_built, calls, missing) at e))
          | inl there ↦
              let (request, read, made) =
                bind_ok
                  (request_message protobuf file
                    (same_bytes (type_name method.request_type service.types) void_text)
                    request_text)
                  (λ request. ok (
                    with_request protobuf service_name method_name (n, service, method) file
                      request))
                  p (rw (prepare_built, calls, there) at e) in
              ap (λ (p : Prepared M). p.endpoint_id)
                (sym (
                  ok-injective
                    (with_request protobuf service_name method_name (n, service, method) file
                      request)
                    p made))
        ]
      ]

  prepared_endpoint :
      (services : List ListedService) (name request_text service_name method_name : Bytes)
      (found : ℕ × ListedService × ListedMethod) (p : Prepared M)
      → split_method name ≡ some (service_name, method_name)
      → find_method service_name method_name 1 services ≡ some found
      → prepare protobuf services name request_text ≡ ok p
      → p.endpoint_id ≡ found.0
  unfolding prepare split_name find_listed prepare_method
  prepared_endpoint services name request_text service_name method_name (n, service, method) p split
        there e =
      let e₁ : prepare_method protobuf service_name method_name request_text (n, service, method)
          ≡ ok p =
        rw (prepare, split_name, split, find_listed, there) at e in
      let (file, built, e₂) =
        bind_ok (build_method_descriptor protobuf.to_string protobuf.build_file service method) _ p
          e₁ in
      built_endpoint service_name method_name request_text (n, service, method) file p e₂

  module _ (io : Io) (laws : Laws io) (stringify : Error → Bytes) (big : Bool) (fuel : ℕ) where
    sent_request :
        (prepared : Prepared M) (m : DynamicMessage) (p : ℕ) (c : Client M)
        → prepared.request ≡ some m
        → check_running c ≡ ok tt
        → prepared.endpoint_id < 2 ^ 32
        → FieldsInRange (as_fields m)
        → depth_fields (as_fields m) ≤ 128
        → send protobuf io stringify big fuel p prepared c ≡ (
          sent_by io stringify
              (laws.uvarint prepared.endpoint_id ++ encode io laws (as_fields m))
              p
              (call_data prepared.service_name prepared.method_name prepared.response none
                (read_response protobuf io fuel prepared.response))
              c,
          ok tt,
        )
    unfolding send call_raw write_request raw_body
    sent_request prepared m p c some_m run lt fits shallow = rw (some_m) (
        sent_lem io stringify laws (raw_body io big (some (marshal_dynamic io big m)))
          (encode io laws (as_fields m)) fuel prepared.endpoint_id p
          (call_data prepared.service_name prepared.method_name prepared.response none
            (read_response protobuf io fuel prepared.response))
          c (λ w. marshal_dynamic-encode io big laws m w fits shallow) run lt)

    -- A server lists its services, and before the one with the name of the command line only others,
    -- with as many methods as its table has entries for each; the first method with the given name is
    -- entry `k` of the service's table, in which the methods stand by ascending ID; the endpoints up to
    -- the service's last are fewer than 2^32 - 1. A call that is prepared, of a method that takes a
    -- message, puts on the wire of a running client the request for that entry, with the bytes of the
    -- struct with the fields of the message, if these are in the range of their types and nest at most
    -- 128 deep.
    pub send-reaches :
        {S : Type 0} (server : List (Service S)) (listed after : List ListedService)
        (service : ListedService) (table : List ListedMethod) (k separator : ℕ)
        (target : ListedMethod) (service_name method_name request_text : Bytes)
        (prepared : Prepared M) (m : DynamicMessage) (p : ℕ) (c : Client M)
        → let services = listed ++ service ∷ after in
          let sent = send protobuf io stringify big fuel p prepared c in
          let request : Request = record {
            endpoint = endpoints server + k;
            body = encode io laws (as_fields m);
          } in
          0 < length service_name
          → 0 < length method_name
          → Joins service_name method_name separator
          → Lists server listed
          → All (λ s. same_bytes s.name service_name ≡ false) listed
          → same_bytes service.name service_name ≡ true
          → find_target method_name service.methods ≡ some target
          → Permᴰ service.methods table
          → Ascending table
          → get_elem? table k ≡ some target
          → endpoints server + length service.methods + 1 < 2 ^ 32
          → prepare protobuf services (service_name ++ separator ∷ method_name) request_text
            ≡ ok prepared
          → prepared.request ≡ some m
          → check_running c ≡ ok tt
          → FieldsInRange (as_fields m)
          → depth_fields (as_fields m) ≤ 128
          → (sent.1 ≡ ok tt) × (sent.0.sink ≡ c.sink ++ request_bytes io laws server (request ∷ []))
    send-reaches server listed after service table k separator target service_name method_name
          request_text prepared m p c s_named m_named joins lists others named found order ascending
          at lt e some_m run fits shallow =
        let split = split_method-joined service_name method_name separator s_named m_named joins in
        let numbered =
          find_method-numbers service_name method_name server listed after service table k target
            lists others named found order ascending at lt in
        let number =
          prepared_endpoint (listed ++ service ∷ after) (service_name ++ separator ∷ method_name)
            request_text service_name method_name (endpoints server + k + 1, service, target)
            prepared split numbered e in
        let small : prepared.endpoint_id < 2 ^ 32 =
          omega (arith, number, place_within service.methods table k target order ascending at) in
        rw (sent_request prepared m p c some_m run small fits shallow)
          (refl, rw (number, append-nil (encode io laws (as_fields m))) refl)
