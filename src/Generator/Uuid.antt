-- ===== src/Generator/Uuid.antt =====
-- `UuidStringToBytes` of serialrpc_objects.cc: the UUID of a service, from its option.
pub mod RoundTrip
use serialrpc.Base.{
  ℕ, suc, ◌+◌, ◌-◌, ◌*◌, ◌==◌, if◌then◌else◌, ◌&&◌, not, leb, ltb, Bool, true, false, Option, some,
  none, List, [], ◌∷◌, ◌++◌, length, get_elem?,
}
use serialrpc.Io.{Bytes}

-- `none` for -1.
unfoldable pub digit_value : ℕ → Option ℕ
digit_value c =
    if leb 0x30 c && leb c 0x39
    then some (c - 0x30)
    else if leb 0x61 c && leb c 0x66
    then some (c - 0x61 + 10)
    else if leb 0x41 c && leb c 0x46
    then some (c - 0x41 + 10)
    else none

unfoldable pub has_dash_at : ℕ → Bytes → Bool
has_dash_at i uuid = elim (get_elem? uuid i) [ some c ↦ c == 0x2d | none ↦ false ]

-- `result[byteIndex++] = (hi << 4) | lo`, where `result` are the bytes up to `byteIndex`.
unfoldable pub next_byte : Option ℕ → Option ℕ → Bytes → Option Bytes
next_byte (some hi) (some lo) result =
    if leb 16 (length result) then none else some (result ++ (16 * hi + lo) ∷ [])
next_byte hi lo result = none

-- The loop over the text from `uuid[i]` on.
unfoldable pub uuid_bytes : Bytes → Bytes → Option Bytes
unfolding digit_value next_byte
uuid_bytes result [] = some result
uuid_bytes result (c ∷ []) = if c == 0x2d then some result else none
uuid_bytes result (c ∷ d ∷ rest) = elim (c == 0x2d) [
  | true ↦ uuid_bytes result (d ∷ rest)
  | false ↦ elim (next_byte (digit_value c) (digit_value d) result) [
    | none ↦ none
    | some result ↦ uuid_bytes result rest
  ]
]

unfoldable pub whole_uuid : Option Bytes → Option Bytes
whole_uuid none = none
whole_uuid (some result) = if length result == 16 then some result else none

unfoldable pub uuid_string_to_bytes : Bytes → Option Bytes
unfolding has_dash_at uuid_bytes whole_uuid
uuid_string_to_bytes uuid =
    if not (length uuid == 36)
    then none
    else if has_dash_at 8 uuid && has_dash_at 13 uuid && has_dash_at 18 uuid && has_dash_at 23 uuid
    then whole_uuid (uuid_bytes [] uuid)
    else none
