-- ===== src/Net/Mac.antt =====
-- MAC addresses of crates/mandrake-net: `normalize_mac` of parse.rs and `next_mac` of fake.rs.
use mandrake.Common.{
  ℕ, ◌+◌, ◌-◌, ◌*◌, ◌/◌, ◌%◌, ◌^◌, ◌&&◌, List, [], ◌∷◌, ◌++◌, Option, none, some, ltb, leb,
  if◌then◌else◌, ◌==◌, length,
}
use mandrake.Common.Text.{Text, codes}
use mandrake.Common.Text.Parts.{split, join}
use mandrake.Net.{State}

-- `char::to_digit` in base 16
unfoldable pub hex_value : ℕ → Option ℕ
hex_value c =
    if leb b'0' c && leb c b'9'
    then some (c - b'0')
    else if leb b'a' c && leb c b'f'
    then some (c - b'a' + 10)
    else if leb b'A' c && leb c b'F'
    then some (c - b'A' + 10)
    else none

unfoldable pub scan_hex : ℕ → Text → Option ℕ
unfolding hex_value
scan_hex acc [] = some acc
scan_hex acc (c ∷ s) = elim (hex_value c) [
  | none ↦ none
  | some d ↦ let rest = scan_hex (acc * 16 + d) s in if ltb 255 (acc * 16 + d) then none else rest
]

-- `u8::from_str_radix` in base 16; a plus sign may lead.
unfoldable pub parse_byte : Text → Option ℕ
parse_byte [] = none
parse_byte (c ∷ []) = scan_hex 0 (c ∷ [])
parse_byte (c ∷ d ∷ s) = if c == b'+' then scan_hex 0 (d ∷ s) else scan_hex 0 (c ∷ d ∷ s)

unfoldable pub hex_digit : ℕ → ℕ
hex_digit n = if ltb n 10 then n + b'0' else n - 10 + b'a'

-- `{:02x}` of a byte
unfoldable pub hex_byte : ℕ → Text
hex_byte n = hex_digit (n / 16) ∷ hex_digit (n % 16) ∷ []

-- The first byte, if the others are read too.
abbrev pub with_byte : Option ℕ → Option (List Text) → Option (List Text)
with_byte none rest = none
with_byte (some b) none = none
with_byte (some b) (some rest) = some (hex_byte b ∷ rest)

abbrev pub normalize_all : List Text → Option (List Text)
normalize_all [] = some []
normalize_all (p ∷ parts) = with_byte (parse_byte p) (normalize_all parts)

abbrev pub join_bytes : Option (List Text) → Option Text
join_bytes none = none
join_bytes (some bytes) = some (join (codes ":") bytes)

unfoldable pub normalize_mac : Text → Option Text
normalize_mac s =
    if length (split b':' s) == 6 then join_bytes (normalize_all (split b':' s)) else none

-- The counter, which wraps, and the address made of its low 24 bits.
abbrev pub next_count : State → ℕ
next_count s = (s.next_mac + 1) % 2 ^ 32

unfoldable pub mac_of : ℕ → Text
mac_of n =
    codes "02:08:20:"
    ++ hex_byte (n / 2 ^ 16 % 256)
    ++ codes ":"
    ++ hex_byte (n / 2 ^ 8 % 256)
    ++ codes ":"
    ++ hex_byte (n % 256)
