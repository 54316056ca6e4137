-- ===== src/Common/Text/Decimal.antt =====
-- `Display` and `FromStr` of the unsigned integers.
use mandrake.Common.{
  ℕ, zero, suc, ◌+◌, ◌-◌, ◌*◌, ◌/◌, ◌%◌, ◌≤◌, ◌≡◌, ◌≢◌, refl, ◌∙◌, Bool, true, ◌&&◌, ◌||◌, [], ◌∷◌,
  ◌++◌, Option, none, some, arith, ltb, leb, if◌then◌else◌, ◌==◌, Bool-cases, inl, inr, All,
}
use mandrake.Common.Text.{Text}

-- On fuel: as many digits as the number itself are always enough.
unfoldable pub digits : ℕ → ℕ → Text
digits zero n = (n + b'0') ∷ []
digits (suc fuel) n =
    let rest = digits fuel (n / 10) in
    if ltb n 10 then (n + b'0') ∷ [] else rest ++ (n % 10 + b'0') ∷ []

unfoldable pub show : ℕ → Text
unfolding digits
show n = digits n n

abbrev pub is_digit : ℕ → Bool
is_digit c = leb b'0' c && leb c b'9'

-- Split before the first character that is no digit and no point.
abbrev pub split_number : Text → Text × Text
split_number [] = ([], [])
split_number (c ∷ s) =
    let (number, unit) = split_number s in
    if is_digit c || c == b'.' then (c ∷ number, unit) else ([], c ∷ s)

-- The digits of a number after `acc`, none of them past `most`.
unfoldable pub scan : ℕ → ℕ → Text → Option ℕ
scan most acc [] = some acc
scan most acc (c ∷ s) =
    let value = acc * 10 + (c - b'0') in
    let rest = scan most value s in
    if is_digit c then (if ltb most value then none else rest) else none

-- `str::parse` into a type whose largest number is `most`; a plus sign may lead.
unfoldable pub parse_uint : ℕ → Text → Option ℕ
unfolding scan
parse_uint most [] = none
parse_uint most (c ∷ []) = scan most 0 (c ∷ [])
parse_uint most (c ∷ d ∷ s) = if c == b'+' then scan most 0 (d ∷ s) else scan most 0 (c ∷ d ∷ s)

scan-append :
    (most acc : ℕ) (s t : Text) (m : ℕ)
    → scan most acc s ≡ some m
    → scan most acc (s ++ t) ≡ scan most m t
unfolding scan
scan-append most acc [] t m h = ground arith
scan-append most acc (c ∷ s) t m h = ground (arith, scan-append most (acc * 10 + (c - b'0')) s t m)

scan-digits : (most fuel n : ℕ) → n ≤ fuel → n ≤ most → scan most 0 (digits fuel n) ≡ some n
unfolding scan digits
scan-digits most zero n h k = ground arith
scan-digits most (suc fuel) n h k = elim (Bool-cases (ltb n 10)) [
  | inl e ↦ ground arith
  | inr e ↦ ground (
    arith,
    scan-append most 0 (digits fuel (n / 10)) ((n % 10 + b'0') ∷ []) (n / 10)
        (scan-digits most fuel (n / 10) (ground arith) (ground arith)),
  )
]

All-append : (P : ℕ → Type 0) (s : Text) (c : ℕ) → All P s → P c → All P (s ++ c ∷ [])
All-append P [] c h k = (k, tt)
All-append P (d ∷ s) c h k = (h.0, All-append P s c h.1 k)

digits-All : (fuel n : ℕ) → n ≤ fuel → All (λ c. is_digit c ≡ true) (digits fuel n)
unfolding digits
digits-All zero n h = (ground arith, tt)
digits-All (suc fuel) n h = elim (Bool-cases (ltb n 10)) [
  | inl e ↦ rw e (ground arith, tt)
  | inr e ↦ rw e (
      All-append _ (digits fuel (n / 10)) (n % 10 + b'0') (digits-All fuel (n / 10) (ground arith))
        (ground arith))
]

digits_nonempty : (fuel n : ℕ) → digits fuel n ≢ []
unfolding digits
digits_nonempty zero n e = cc
digits_nonempty (suc fuel) n e = elim (Bool-cases (ltb n 10)) [
  | inl small ↦ ground arith
  | inr large ↦ append_nonempty (digits fuel (n / 10)) (n % 10 + b'0') (ground arith)
]
  where
    append_nonempty : (s : Text) (c : ℕ) → s ++ c ∷ [] ≢ []
    append_nonempty [] c f = cc
    append_nonempty (d ∷ s) c f = cc

-- Nothing but digits is written, and at least one.
pub show-All : (n : ℕ) → All (λ c. is_digit c ≡ true) (show n)
unfolding show
show-All n = digits-All n n (omega arith)

pub show_nonempty : (n : ℕ) → show n ≢ []
unfolding show
show_nonempty n = digits_nonempty n n

parse_uint-scan :
    (most : ℕ) (s : Text)
    → All (λ c. is_digit c ≡ true) s
    → s ≢ []
    → parse_uint most s ≡ scan most 0 s
unfolding parse_uint
parse_uint-scan most [] h ne = absurd (ne refl)
parse_uint-scan most (c ∷ []) h ne = refl
parse_uint-scan most (c ∷ d ∷ s) h ne = ground (arith, h.0)

-- A number that fits is read back from its digits.
pub parse_uint-show : (most n : ℕ) → n ≤ most → parse_uint most (show n) ≡ some n
unfolding show
parse_uint-show most n h =
    parse_uint-scan most (show n) (show-All n) (show_nonempty n)
    ∙ scan-digits most n n (omega arith) h
