-- ===== src/Net/Normal.antt =====
-- `normalize_mac` of parse.rs in crates/mandrake-net leaves what it has made.
use mandrake.Common.{
  ℕ, suc, ◌+◌, ◌*◌, ◌/◌, ◌%◌, ◌<◌, ◌≡◌, refl, sym, ap, ◌∙◌, subst, true, false, not, List, [], ◌∷◌,
  Option, none, some, arith, if◌then◌else◌, ◌==◌, all, All, length, Option-cases, inl, inr,
}
use mandrake.Common.Text.{Text, codes}
use mandrake.Common.Text.Parts.{split, join}
use mandrake.Common.Text.Lines.{split-append}
use mandrake.Net.Escaped.{append_assoc}
use mandrake.Net.Mac.{
  hex_value, hex_digit, hex_byte, scan_hex, parse_byte, with_byte, normalize_all, join_bytes,
  normalize_mac,
}

scan_hex-lt : (acc : ℕ) (s : Text) (n : ℕ) → acc < 256 → scan_hex acc s ≡ some n → n < 256
unfolding scan_hex
scan_hex-lt acc [] n h e = ground arith
scan_hex-lt acc (c ∷ s) n h e = elim (Option-cases (hex_value c)) [
  | inl bad ↦ refused bad
  | inr (d, good) ↦ step d good (scan_hex-lt (acc * 16 + d) s n)
]
  where
    refused : hex_value c ≡ none → n < 256
    refused bad = ground arith

    step :
        (d : ℕ)
        → hex_value c ≡ some d
        → (acc * 16 + d < 256 → scan_hex (acc * 16 + d) s ≡ some n → n < 256)
        → n < 256
    step d good ih = ground arith

hex_digit-value : (d : ℕ) → d < 16 → hex_value (hex_digit d) ≡ some d
unfolding hex_value hex_digit
hex_digit-value d h = ground arith

hex_digit-plain : (d : ℕ) → d < 16 → (hex_digit d == b'+' ≡ false) × (hex_digit d == b':' ≡ false)
unfolding hex_digit
hex_digit-plain d h = ground arith

parse_byte-hex_byte : (b : ℕ) → b < 256 → parse_byte (hex_byte b) ≡ some b
unfolding parse_byte scan_hex hex_byte
parse_byte-hex_byte b h =
    ground (arith, hex_digit-value (b / 16), hex_digit-value (b % 16), hex_digit-plain (b / 16))

parse_byte-lt : (s : Text) (n : ℕ) → parse_byte s ≡ some n → n < 256
unfolding parse_byte
parse_byte-lt [] n e = cc
parse_byte-lt (c ∷ []) n e = scan_hex-lt 0 (c ∷ []) n (omega arith) e
parse_byte-lt (c ∷ d ∷ s) n e =
    ground (arith, scan_hex-lt 0 (d ∷ s) n (omega arith), scan_hex-lt 0 (c ∷ d ∷ s) n (omega arith))

-- A byte as `normalize_mac` writes it.
abbrev IsByte : Text → Type 0
IsByte w = (b : ℕ) × (b < 256) × (w ≡ hex_byte b)

-- What is made of as many parts.
abbrev Made : List Text → Option (List Text) → Type 0
Made parts none = Unit
Made parts (some bytes) = All IsByte bytes × (length bytes ≡ length parts)

with_byte-Made :
    (p : Text) (parts : List Text) (o : Option ℕ) (rest : Option (List Text))
    → ((b : ℕ) → o ≡ some b → b < 256)
    → Made parts rest
    → Made (p ∷ parts) (with_byte o rest)
with_byte-Made p parts none rest f h = tt
with_byte-Made p parts (some b) none f h = tt
with_byte-Made p parts (some b) (some bytes) f (h, k) = (((b, f b refl, refl), h), ap suc k)

normalize_all-Made : (parts : List Text) → Made parts (normalize_all parts)
normalize_all-Made [] = (tt, refl)
normalize_all-Made (p ∷ parts) =
    with_byte-Made p parts (parse_byte p) (normalize_all parts) (parse_byte-lt p)
      (normalize_all-Made parts)

normalize_all-same : (bytes : List Text) → All IsByte bytes → normalize_all bytes ≡ some bytes
normalize_all-same [] h = refl
normalize_all-same (w ∷ bytes) ((b, small, e), h) =
    ap (λ o. with_byte o (normalize_all bytes)) (ap parse_byte e ∙ parse_byte-hex_byte b small)
    ∙ ap (with_byte (some b)) (normalize_all-same bytes h)
    ∙ ap (λ v. some (v ∷ bytes)) (sym e)

no_colon : (w : Text) → IsByte w → all (λ c. not (c == b':')) w ≡ true
unfolding hex_byte
no_colon w (b, small, e) =
    ap (all (λ c. not (c == b':'))) e
    ∙ ground (arith, hex_digit-plain (b / 16), hex_digit-plain (b % 16))

split-alone : (w : Text) → all (λ c. not (c == b':')) w ≡ true → split b':' w ≡ w ∷ []
split-alone [] h = refl
split-alone (c ∷ w) h = ground (arith, split-alone w)

split-join :
    (w : Text) (ws : List Text)
    → All IsByte (w ∷ ws)
    → split b':' (join (codes ":") (w ∷ ws)) ≡ w ∷ ws
unfolding codes
split-join w [] (h, k) = split-alone w (no_colon w h)
split-join w (v ∷ ws) (h, k) =
    ap (split b':') (append_assoc w (b':' ∷ []) (join (codes ":") (v ∷ ws)))
    ∙ split-append b':' w (join (codes ":") (v ∷ ws)) (no_colon w h)
    ∙ ap (◌∷◌ w) (split-join v ws k)

abbrev six_parts : List Text → Option Text
six_parts parts = if length parts == 6 then join_bytes (normalize_all parts) else none

six_parts-same :
    (bytes : List Text)
    → All IsByte bytes
    → length bytes ≡ 6
    → six_parts bytes ≡ some (join (codes ":") bytes)
six_parts-same bytes h six = ground (arith, normalize_all-same bytes h)

joined-same :
    (bytes : List Text)
    → All IsByte bytes
    → length bytes ≡ 6
    → six_parts (split b':' (join (codes ":") bytes)) ≡ some (join (codes ":") bytes)
joined-same [] h six = absurd (none_of six)
  where
    none_of : ◌≡◌ {A = ℕ} 0 6 → ⊥
    none_of e = omega arith
joined-same (w ∷ ws) h six = ap six_parts (split-join w ws h) ∙ six_parts-same (w ∷ ws) h six

six_parts-made :
    (parts : List Text) (m : Text)
    → six_parts parts ≡ some m
    → (bytes : List Text) × All IsByte bytes × (length bytes ≡ 6) × (m ≡ join (codes ":") bytes)
six_parts-made parts m e = elim (Option-cases (normalize_all parts)) [
  | inl bad ↦ absurd (refused bad)
  | inr (bytes, good) ↦ taken bytes good (subst (Made parts) good (normalize_all-Made parts))
]
  where
    refused : normalize_all parts ≡ none → ⊥
    refused bad = ground arith

    taken :
        (bytes : List Text)
        → normalize_all parts ≡ some bytes
        → Made parts (some bytes)
        → (bytes : List Text) × All IsByte bytes × (length bytes ≡ 6) × (m ≡ join (codes ":") bytes)
    taken bytes good (h, k) = (bytes, h, k ∙ ground arith, ground arith)

-- An address in the usual form stays as it is.
pub normalize_mac_twice : (s m : Text) → normalize_mac s ≡ some m → normalize_mac m ≡ some m
unfolding normalize_mac
normalize_mac_twice s m e =
    let (bytes, h, six, made) = six_parts-made (split b':' s) m e in
    ap normalize_mac made ∙ joined-same bytes h six ∙ ap some (sym made)
