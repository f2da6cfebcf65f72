-- ===== src/Internal.antt =====
-- internal.cc: printable bytes, and a UUID as text.
pub mod Uuid
use serialrpc.Base.{
  ℕ, ◌+◌, ◌/◌, ◌%◌, suc, leb, ltb, ◌==◌, if◌then◌else◌, ◌&&◌, ◌||◌, Bool, List, [], ◌∷◌, ◌++◌,
}
use serialrpc.Io.{Bytes}

unfoldable pub is_printable : ℕ → Bool
is_printable c =
    if leb 0x20 c && leb c 0x7e then Bool.true else c == 0x0a || c == 0x0d || c == 0x09 || c == 0x0b

-- A digit of `%02x`.
unfoldable pub hex_digit : ℕ → ℕ
hex_digit d = if ltb d 10 then 0x30 + d else 0x57 + d

unfoldable pub format_bytes : ℕ → Bytes → Bytes
unfolding hex_digit
format_bytes i [] = []
format_bytes i (b ∷ bs) =
    let rest = format_bytes (suc i) bs in
    let digits = hex_digit (b / 16) ∷ (hex_digit (b % 16) ∷ rest) in
    if i == 4 || i == 6 || i == 8 || i == 10 then 0x2d ∷ digits else digits

unfoldable pub format_uuid : Bytes → Bytes
unfolding format_bytes
format_uuid bytes = format_bytes 0 bytes
