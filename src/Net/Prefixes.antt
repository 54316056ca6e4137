-- ===== src/Net/Prefixes.antt =====
-- Which masks `mask_to_prefix` of parse.rs takes.
use mandrake.Common.{
  ℕ, zero, suc, ◌+◌, ◌-◌, ◌*◌, ◌^◌, ◌≤◌, ◌<◌, ◌≡◌, ◌↔◌, refl, sym, ap, ◌∙◌, true, false, Option,
  none, some, arith, List, [], ◌∷◌, leb, Bool-cases, inl, inr,
}
use mandrake.Common.Text.{Text}
use mandrake.Common.Text.Parts.{split}
use mandrake.Common.Text.Decimal.{scan, parse_uint}
use mandrake.Net.Masks.{
  ipv4, mask_to_prefix, octet, joined, four, count_ones, leading_ones, prefix_of,
}

-- The mask with this many ones at the head of as many bits.
abbrev pub mask_of : ℕ → ℕ → ℕ
mask_of w zero = 0
mask_of zero (suc p) = 0
mask_of (suc w) (suc p) = 2 ^ w + mask_of w p

twice : (w : ℕ) → 2 ^ suc w ≡ 2 ^ w + 2 ^ w
twice w = omega arith

count_ones-zero : (w n : ℕ) → n < 2 ^ w → count_ones w n ≡ 0 → n ≡ 0
unfolding count_ones
count_ones-zero zero n h e = omega arith
count_ones-zero (suc w) n h e = ground (arith, count_ones-zero w n, twice w)

pow_positive : (w : ℕ) → 0 < 2 ^ w
pow_positive zero = omega arith
pow_positive (suc w) = omega (arith, pow_positive w, twice w)

mask_of-lt : (w p : ℕ) → mask_of w p < 2 ^ w
mask_of-lt w zero = pow_positive w
mask_of-lt zero (suc p) = omega arith
mask_of-lt (suc w) (suc p) = omega (arith, mask_of-lt w p, twice w)

leading-mask_of :
    (w n : ℕ) → n < 2 ^ w → leading_ones w n ≡ count_ones w n → n ≡ mask_of w (count_ones w n)
unfolding leading_ones count_ones
leading-mask_of zero n h e = omega arith
leading-mask_of (suc w) n h e = elim (Bool-cases (leb (2 ^ w) n)) [
  | inl set ↦ whole (leading-mask_of w (n - 2 ^ w)) set ∙ sym (ap (mask_of (suc w)) (one_more set))
  | inr unset ↦ nothing unset ∙ sym (ap (mask_of (suc w)) (none_more unset))
]
  where
    one_more : leb (2 ^ w) n ≡ true → count_ones (suc w) n ≡ suc (count_ones w (n - 2 ^ w))
    one_more set = ground arith

    whole :
        (n - 2 ^ w < 2 ^ w
          → leading_ones w (n - 2 ^ w) ≡ count_ones w (n - 2 ^ w)
          → n - 2 ^ w ≡ mask_of w (count_ones w (n - 2 ^ w)))
        → leb (2 ^ w) n ≡ true
        → n ≡ 2 ^ w + mask_of w (count_ones w (n - 2 ^ w))
    whole ih set = ground (arith, twice w)

    none_more : leb (2 ^ w) n ≡ false → count_ones (suc w) n ≡ 0
    none_more unset = ground arith

    nothing : leb (2 ^ w) n ≡ false → n ≡ 0
    nothing unset = count_ones-zero (suc w) n h (none_more unset)

zero-ones : (w : ℕ) → (leading_ones w 0 ≡ 0) × (count_ones w 0 ≡ 0)
unfolding leading_ones count_ones
zero-ones zero = (refl, refl)
zero-ones (suc w) = ground (arith, zero-ones w, pow_positive w)

sub : (w p : ℕ) → 2 ^ w + mask_of w p - 2 ^ w ≡ mask_of w p
sub w p = omega arith

mask_of-ones :
    (w p : ℕ) → p ≤ w → (leading_ones w (mask_of w p) ≡ p) × (count_ones w (mask_of w p) ≡ p)
unfolding leading_ones count_ones
mask_of-ones w zero h = zero-ones w
mask_of-ones zero (suc p) h = absurd (over h)
  where
    over : suc p ≤ 0 → ⊥
    over k = omega arith
mask_of-ones (suc w) (suc p) h = ground (arith, mask_of-ones w p, mask_of-lt w p, sub w p)

count_ones-le : (w n : ℕ) → count_ones w n ≤ w
unfolding count_ones
count_ones-le zero n = omega arith
count_ones-le (suc w) n = ground (arith, count_ones-le w n, count_ones-le w (n - 2 ^ w))

prefix_of_sound :
    (bits p : ℕ) → bits < 2 ^ 32 → prefix_of bits ≡ some p → (p ≤ 32) × (bits ≡ mask_of 32 p)
unfolding prefix_of
prefix_of_sound bits p h e = (
  ground (arith, count_ones-le 32 bits),
  leading-mask_of 32 bits h (ground arith) ∙ ap (mask_of 32) counted,
)
  where
    counted : count_ones 32 bits ≡ p
    counted = ground arith

prefix_of-mask_of : (p : ℕ) → p ≤ 32 → prefix_of (mask_of 32 p) ≡ some p
unfolding prefix_of
prefix_of-mask_of p h = ground (arith, mask_of-ones 32 p h)

-- The octets are at most 255.
scan-le : (most acc : ℕ) (s : Text) (n : ℕ) → acc ≤ most → scan most acc s ≡ some n → n ≤ most
unfolding scan
scan-le most acc [] n h e = ground arith
scan-le most acc (c ∷ s) n h e = ground (arith, scan-le most (acc * 10 + (c - b'0')) s n)

parse_uint-le : (most : ℕ) (s : Text) (n : ℕ) → parse_uint most s ≡ some n → n ≤ most
unfolding parse_uint
parse_uint-le most [] n e = cc
parse_uint-le most (c ∷ []) n e = scan-le most 0 (c ∷ []) n (omega arith) e
parse_uint-le most (c ∷ d ∷ s) n e =
    ground
      (arith, scan-le most 0 (d ∷ s) n (omega arith), scan-le most 0 (c ∷ d ∷ s) n (omega arith))

abbrev IsByte : Option ℕ → Type 0
IsByte o = (n : ℕ) → o ≡ some n → n ≤ 255

octet-IsByte : (s : Text) → IsByte (octet s)
octet-IsByte s n e = ground (arith, parse_uint-le 255 s n)

joined-lt :
    (a b c d : Option ℕ) (bits : ℕ)
    → IsByte a
    → IsByte b
    → IsByte c
    → IsByte d
    → joined a b c d ≡ some bits
    → bits < 2 ^ 32
joined-lt (some a) (some b) (some c) (some d) bits p q r t e =
    ground (arith, p a refl, q b refl, r c refl, t d refl)
joined-lt none b c d bits p q r t e = cc
joined-lt (some a) none c d bits p q r t e = cc
joined-lt (some a) (some b) none d bits p q r t e = cc
joined-lt (some a) (some b) (some c) none bits p q r t e = cc

four-lt : (parts : List Text) (bits : ℕ) → four parts ≡ some bits → bits < 2 ^ 32
four-lt (a ∷ b ∷ c ∷ d ∷ []) bits e =
    joined-lt (octet a) (octet b) (octet c) (octet d) bits (octet-IsByte a) (octet-IsByte b)
      (octet-IsByte c) (octet-IsByte d) e
four-lt _ bits e = cc

ipv4-lt : (s : Text) (bits : ℕ) → ipv4 s ≡ some bits → bits < 2 ^ 32
unfolding ipv4
ipv4-lt s bits e = four-lt (split b'.' s) bits e

-- A dotted mask is read as a prefix length exactly if its bits are that many ones, at most 32,
-- followed by zeros.
pub mask_to_prefix-exact :
    (mask : Text) (bits p : ℕ)
    → ipv4 mask ≡ some bits
    → (mask_to_prefix mask ≡ some p) ↔ ((p ≤ 32) × (bits ≡ mask_of 32 p))
unfolding mask_to_prefix
mask_to_prefix-exact mask bits p e = (
  λ h. prefix_of_sound bits p (ipv4-lt mask bits e) (ground arith),
  λ h.
      ap (λ o. elim o [ none ↦ none | some b ↦ prefix_of b ]) (e ∙ ap some h.1)
      ∙ prefix_of-mask_of p h.0,
)
