-- ===== src/Zones/Size.antt =====
-- `size` of crates/mandrake-zones/src/parse.rs: a number of bytes with a unit.
use mandrake.Common.{ℕ, ◌+◌, ◌^◌, ◌&&◌, [], ◌∷◌, Option, none, some, leb, if◌then◌else◌}
use mandrake.Common.Float.{Float}
use mandrake.Common.Text.{Text, codes, same_text}
use mandrake.Common.Text.Parts.{trim}
use mandrake.Common.Text.Decimal.{split_number}

-- `to_ascii_lowercase`
abbrev pub lower : Text → Text
lower [] = []
lower (c ∷ s) = (if leb b'A' c && leb c b'Z' then c + 32 else c) ∷ lower s

abbrev pub multiplier : Text → Option ℕ
multiplier unit =
    if same_text unit []
    then some 1
    else if same_text unit (codes "k")
    then some 1024
    else if same_text unit (codes "m")
    then some (1024 ^ 2)
    else if same_text unit (codes "g")
    then some (1024 ^ 3)
    else if same_text unit (codes "t")
    then some (1024 ^ 4)
    else none

abbrev pub size_of : Float → Text × Text → Option ℕ
size_of float (number, unit) = elim (float.from_str number) [
  | none ↦ none
  | some value ↦ elim (multiplier (lower (trim unit))) [
    | none ↦ none
    | some k ↦
        let bytes = float.mul value (float.literal k) in
        if float.is_finite bytes && float.is_nonnegative bytes
        then some (float.round_u64 bytes)
        else none
  ]
]

unfoldable pub size : Float → Text → Option ℕ
size float s = size_of float (split_number (trim s))
