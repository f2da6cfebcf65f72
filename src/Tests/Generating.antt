-- ===== src/Tests/Generating.antt =====
-- The generator, at a service of two methods.
use mathlib.Core.List.{Permᴰ}
use serialrpc.Base.{ℕ, ◌≡◌, ◌≢◌, refl, true, false, some, none, [], ◌∷◌, pos, arith, replicate}
use serialrpc.Io.{Bytes}
use serialrpc.Internal.{format_uuid}
use serialrpc.Client.Hello.{same_bytes}
use serialrpc.Generator.Names.{
  filename_identifier, type_symbol, camel_case_to_underscores, underscores_to_camel_case,
}
use serialrpc.Generator.Names.Symbols.{type_symbol-distinct}
use serialrpc.Generator.Uuid.{uuid_string_to_bytes}
use serialrpc.Generator.Uuid.RoundTrip.{uuid_string_to_bytes-format_uuid}
use serialrpc.Generator.Model.{
  TypeDescriptor, EchoRoot, has_type, get_message, as_checked, method_with, accepted,
  MethodDescriptor, EchoMethod, unless_void, echo_method, with_id, echo_methods, ServiceDescriptor,
  EchoService, with_methods, echo_service,
}
use serialrpc.Generator.Model.MethodIds.{IsSortOf, Increasing, DistinctIds, echo_service-Increasing}

abbrev uuid : Bytes
uuid = replicate 16 0xab

uuid_string_to_bytes-format_uuid_example : uuid_string_to_bytes (format_uuid uuid) ≡ some uuid
uuid_string_to_bytes-format_uuid_example = uuid_string_to_bytes-format_uuid uuid refl (
  omega arith,
  (
    omega arith,
    (
      omega arith,
      (
        omega arith,
        (
          omega arith,
          (
            omega arith,
            (
              omega arith,
              (
                omega arith,
                (
                  omega arith,
                  (
                    omega arith,
                    (
                      omega arith,
                      (omega arith, (omega arith, (omega arith, (omega arith, (omega arith, tt))))),
                    ),
                  ),
                ),
              ),
            ),
          ),
        ),
      ),
    ),
  ),
)

abbrev type_at : ℕ → ℕ → TypeDescriptor
type_at address name = record { address = address; full_name = name ∷ []; name = name ∷ [] }

abbrev root : EchoRoot
root = record { messages = type_at 1 0x77 ∷ []; enums = [] }

-- The service as it is declared.
abbrev descriptor : ServiceDescriptor
descriptor = record {
  name = 0x74 ∷ [];
  uuid = format_uuid uuid;
  major_version = pos 1;
  minor_version = pos 0;
  methods = declared 5 0x61 ∷ declared 2 0x62 ∷ [];
}
  where
    declared : ℕ → ℕ → MethodDescriptor
    declared id name = record {
      name = name ∷ [];
      method_id = id;
      input_type = type_at 0 0x76;
      output_type = type_at 1 0x77;
      server_streaming = false;
    }

abbrev echo : ℕ → ℕ → EchoMethod
echo id name = record {
  name = name ∷ [];
  method_id = id;
  parameter = none;
  result = some (type_at 1 0x77);
  server_streaming = false;
}

abbrev generated : EchoService
generated = record {
  name = 0x74 ∷ [];
  uuid = uuid;
  major_version = pos 1;
  minor_version = pos 0;
  methods = echo 5 0x61 ∷ echo 2 0x62 ∷ [];
}

generated_lem : echo_service (0x76 ∷ []) root descriptor ≡ accepted generated
unfolding echo_service echo_methods echo_method with_methods method_with unless_void same_bytes
    with_id get_message has_type as_checked
generated_lem = rw (uuid_string_to_bytes-format_uuid_example, echo_service) refl

sorted : IsSortOf (generated.methods) (echo 2 0x62 ∷ echo 5 0x61 ∷ [])
sorted = record { same = Permᴰ.swap refl refl; ordered = ((omega arith, tt), (tt, tt)) }

echo_service-Increasing_example :
    Increasing (echo 2 0x62 ∷ echo 5 0x61 ∷ []) × DistinctIds (echo 2 0x62 ∷ echo 5 0x61 ∷ [])
echo_service-Increasing_example =
    echo_service-Increasing (0x76 ∷ []) root descriptor generated (echo 2 0x62 ∷ echo 5 0x61 ∷ [])
      generated_lem sorted

-- "a." and "a_" are two names.
type_symbol-distinct_example :
    type_symbol (0x73 ∷ []) (0x61 ∷ 0x2e ∷ []) ≢ type_symbol (0x73 ∷ []) (0x61 ∷ 0x5f ∷ [])
type_symbol-distinct_example =
    type_symbol-distinct (0x73 ∷ []) (0x61 ∷ 0x2e ∷ []) (0x61 ∷ 0x5f ∷ [])
      ((omega arith, omega arith), ((omega arith, omega arith), tt))
      ((omega arith, omega arith), ((omega arith, omega arith), tt)) (λ e. absurd cc)

-- A byte below 16 has one digit, so that a line break and "b" have the identifier of the byte 0xab.
one_digit : filename_identifier (0x0a ∷ 0x62 ∷ []) ≡ filename_identifier (0xab ∷ [])
unfolding filename_identifier
one_digit = refl

-- "ABCServ" becomes "abc_serv", and "abc_serv" "AbcServ".
to_underscores :
    camel_case_to_underscores (0x41 ∷ 0x42 ∷ 0x43 ∷ 0x53 ∷ 0x65 ∷ 0x72 ∷ 0x76 ∷ [])
    ≡ 0x61 ∷ 0x62 ∷ 0x63 ∷ 0x5f ∷ 0x73 ∷ 0x65 ∷ 0x72 ∷ 0x76 ∷ []
unfolding camel_case_to_underscores
to_underscores = refl

to_camel_case :
    underscores_to_camel_case (0x61 ∷ 0x62 ∷ 0x63 ∷ 0x5f ∷ 0x73 ∷ 0x65 ∷ 0x72 ∷ 0x76 ∷ []) true
    ≡ 0x41 ∷ 0x62 ∷ 0x63 ∷ 0x53 ∷ 0x65 ∷ 0x72 ∷ 0x76 ∷ []
unfolding underscores_to_camel_case
to_camel_case = refl
