-- ===== src/Net/Masks.antt =====
-- `mask_to_prefix` in parse.rs of crates/mandrake-net, with what it uses of `Ipv4Addr` and `u32`.
use mandrake.Common.{
  ℕ, zero, suc, ◌+◌, ◌-◌, ◌*◌, ◌^◌, Bool, true, false, ◌&&◌, List, [], ◌∷◌, Option, none, some, leb,
  if◌then◌else◌, ◌==◌, all, length,
}
use mandrake.Common.Text.{Text}
use mandrake.Common.Text.Parts.{split}
use mandrake.Common.Text.Decimal.{parse_uint, is_digit}

abbrev leading_zero : Text → Bool
leading_zero [] = false
leading_zero (c ∷ []) = false
leading_zero (c ∷ d ∷ s) = c == b'0'

-- An octet of a dotted address: one to three digits, no zero before others, at most 255.
abbrev pub octet : Text → Option ℕ
octet s =
    if all is_digit s && leb (length s) 3 && (if leading_zero s then false else true)
    then parse_uint 255 s
    else none

abbrev pub joined : Option ℕ → Option ℕ → Option ℕ → Option ℕ → Option ℕ
joined (some a) (some b) (some c) (some d) = some (((a * 256 + b) * 256 + c) * 256 + d)
joined a b c d = none

abbrev pub four : List Text → Option ℕ
four (a ∷ b ∷ c ∷ d ∷ []) = joined (octet a) (octet b) (octet c) (octet d)
four parts = none

-- `Ipv4Addr::from_str`, as the bits of the address
unfoldable pub ipv4 : Text → Option ℕ
ipv4 s = four (split b'.' s)

-- The ones among the lowest bits, of which there are this many, and those at their head. The highest
-- bit is set where the number is not below its value.
unfoldable pub count_ones : ℕ → ℕ → ℕ
count_ones zero n = 0
count_ones (suc w) n =
    let set = count_ones w (n - 2 ^ w) in
    let unset = count_ones w n in if leb (2 ^ w) n then suc set else unset

unfoldable pub leading_ones : ℕ → ℕ → ℕ
leading_ones zero n = 0
leading_ones (suc w) n =
    let rest = leading_ones w (n - 2 ^ w) in if leb (2 ^ w) n then suc rest else 0

unfoldable pub prefix_of : ℕ → Option ℕ
prefix_of bits =
    if leading_ones 32 bits == count_ones 32 bits then some (count_ones 32 bits) else none

unfoldable pub mask_to_prefix : Text → Option ℕ
mask_to_prefix mask = elim (ipv4 mask) [ none ↦ none | some bits ↦ prefix_of bits ]
