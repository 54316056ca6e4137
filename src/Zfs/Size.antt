-- ===== src/Zfs/Size.antt =====
-- `size` of crates/mandrake-zfs/src/parse.rs: a size in the units of ZFS.
use mandrake.Common.{ℕ, ◌^◌, ◌||◌, [], Option, none, some, if◌then◌else◌}
use mandrake.Common.Float.{Float}
use mandrake.Common.Text.{Text, codes, same_text}
use mandrake.Common.Text.Parts.{trim}
use mandrake.Common.Text.Decimal.{split_number}

abbrev pub multiplier : Text → Option ℕ
multiplier unit =
    if same_text unit [] || same_text unit (codes "B")
    then some 1
    else if same_text unit (codes "K") || same_text unit (codes "KB")
    then some 1024
    else if same_text unit (codes "M") || same_text unit (codes "MB")
    then some (1024 ^ 2)
    else if same_text unit (codes "G") || same_text unit (codes "GB")
    then some (1024 ^ 3)
    else if same_text unit (codes "T") || same_text unit (codes "TB")
    then some (1024 ^ 4)
    else if same_text unit (codes "P") || same_text unit (codes "PB")
    then some (1024 ^ 5)
    else none

unfoldable pub size : Float → Text → Option ℕ
size float s =
    let (number, unit) = split_number (trim s) in
    elim (float.from_str number) [
      | none ↦ none
      | some value ↦ elim (multiplier (trim unit)) [
        | none ↦ none
        | some k ↦ some (float.round_u64 (float.mul value (float.literal k)))
      ]
    ]
