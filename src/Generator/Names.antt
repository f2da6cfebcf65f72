-- ===== src/Generator/Names.antt =====
-- The names that the generator makes of those in a .proto file, in ASCII.
pub mod Symbols
use serialrpc.Base.{
  ℕ, ◌+◌, ◌-◌, ◌/◌, ◌%◌, leb, ltb, not, if◌then◌else◌, ◌&&◌, ◌||◌, Bool, true, false, List, [], ◌∷◌,
  ◌++◌,
}
use serialrpc.Io.{Bytes}
use serialrpc.Internal.{hex_digit}

unfoldable pub is_lower : ℕ → Bool
is_lower c = leb 0x61 c && leb c 0x7a

unfoldable pub is_upper : ℕ → Bool
is_upper c = leb 0x41 c && leb c 0x5a

unfoldable pub is_digit : ℕ → Bool
is_digit c = leb 0x30 c && leb c 0x39

-- `absl::ascii_isalnum`.
unfoldable pub is_alnum : ℕ → Bool
unfolding is_lower is_upper is_digit
is_alnum c = is_lower c || is_upper c || is_digit c

-- `absl::Hex` of a byte, with no leading zero.
unfoldable pub hex : ℕ → Bytes
unfolding hex_digit
hex c = if ltb c 16 then hex_digit c ∷ [] else hex_digit (c / 16) ∷ hex_digit (c % 16) ∷ []

unfoldable pub symbol_of : ℕ → Bytes
unfolding is_alnum hex
symbol_of c = if is_alnum c then c ∷ [] else 0x5f ∷ hex c

unfoldable pub filename_identifier : Bytes → Bytes
unfolding symbol_of
filename_identifier [] = []
filename_identifier (c ∷ filename) = symbol_of c ++ filename_identifier filename

-- "_type_"
abbrev pub type_infix : Bytes
type_infix = 0x5f ∷ 0x74 ∷ 0x79 ∷ 0x70 ∷ 0x65 ∷ 0x5f ∷ []

unfoldable pub type_symbol : Bytes → Bytes → Bytes
unfolding filename_identifier
type_symbol prefix full_name = prefix ++ (type_infix ++ filename_identifier full_name)

-- `tolower` and `toupper` of the C locale.
unfoldable pub to_lower : ℕ → ℕ
unfolding is_upper
to_lower c = if is_upper c then c + 0x20 else c

unfoldable pub underscore_before : ℕ → ℕ → Bool
unfolding is_upper
underscore_before c next = is_upper c && not (is_upper next)

-- From `input[1]` on.
unfoldable pub underscores_from : Bytes → Bytes
unfolding to_lower underscore_before
underscores_from [] = []
underscores_from (c ∷ []) = to_lower c ∷ []
underscores_from (c ∷ next ∷ input) =
    let rest = underscores_from (next ∷ input) in
    if underscore_before c next then 0x5f ∷ to_lower c ∷ rest else to_lower c ∷ rest

unfoldable pub camel_case_to_underscores : Bytes → Bytes
unfolding to_lower underscores_from
camel_case_to_underscores [] = []
camel_case_to_underscores (c ∷ input) = to_lower c ∷ underscores_from input

unfoldable pub underscores_to_camel_case : Bytes → Bool → Bytes
unfolding is_lower is_upper is_digit
underscores_to_camel_case [] cap_next_letter = []
underscores_to_camel_case (c ∷ input) cap_next_letter =
    let small = underscores_to_camel_case input false in
    let capital = underscores_to_camel_case input true in
    if is_lower c
    then (if cap_next_letter then c - 0x20 else c) ∷ small
    else if is_upper c
    then c ∷ small
    else if is_digit c
    then c ∷ capital
    else capital

-- "FieldNumber"
abbrev pub field_number_text : Bytes
field_number_text = 0x46 ∷ 0x69 ∷ 0x65 ∷ 0x6c ∷ 0x64 ∷ 0x4e ∷ 0x75 ∷ 0x6d ∷ 0x62 ∷ 0x65 ∷ 0x72 ∷ []

-- `is_first`: the field is an extension, or the one that `FindFieldByCamelcaseName` finds by its own
-- name. `number` is its number in decimal.
unfoldable pub field_constant_name : Bytes → Bool → Bytes → Bytes
unfolding underscores_to_camel_case
field_constant_name name is_first number =
    let result = underscores_to_camel_case name true ++ field_number_text in
    if is_first then result else result ++ 0x5f ∷ number
