-- ===== src/Common/Text/Trim.antt =====
-- What `trim` leaves as it is.
use mandrake.Common.{ℕ, ◌≡◌, refl, ap, ◌∙◌, false, [], ◌∷◌, ◌++◌, arith, All}
use mandrake.Common.Text.{Text}
use mandrake.Common.Text.Parts.{trim, trim_start, trim_end, is_whitespace}

-- Nothing but what stands first decides on the start, and what stands last on the end.
abbrev pub EndsPlain : Text → Type 0
EndsPlain s = trim_end s ≡ s

EndsPlain-tail : (c : ℕ) (a : Text) → EndsPlain (c ∷ a) → EndsPlain a
EndsPlain-tail c [] h = refl
EndsPlain-tail c (d ∷ a) h = ground arith

pub EndsPlain-append : (a v : Text) → EndsPlain a → EndsPlain v → EndsPlain (a ++ v)
EndsPlain-append [] v h k = k
EndsPlain-append (c ∷ a) v h k =
    let rest = EndsPlain-append a v (EndsPlain-tail c a h) k in ground (arith, EndsPlain-tail c a h)

abbrev pub StartsPlain : Text → Type 0
StartsPlain [] = Unit
StartsPlain (c ∷ s) = is_whitespace c ≡ false

-- Neither end has anything to trim.
pub record IsPlain (s : Text) : Type 0 where
  pub starts : StartsPlain s
  pub ends : EndsPlain s

trim_start-StartsPlain : (s : Text) → StartsPlain s → trim_start s ≡ s
trim_start-StartsPlain [] h = refl
trim_start-StartsPlain (c ∷ s) h = ground arith

pub trim-IsPlain : (s : Text) → IsPlain s → trim s ≡ s
unfolding trim
trim-IsPlain s h = ap trim_end (trim_start-StartsPlain s h.starts) ∙ h.ends

-- A text with a plain beginning and a plain end is plain.
pub IsPlain-append : (c : ℕ) (a v : Text) → IsPlain (c ∷ a) → EndsPlain v → IsPlain (c ∷ (a ++ v))
IsPlain-append c a v h k = record { starts = h.starts; ends = EndsPlain-append (c ∷ a) v h.ends k }

-- Texts without white space are plain.
pub All-IsPlain : (s : Text) → All (λ c. is_whitespace c ≡ false) s → IsPlain s
All-IsPlain [] h = record { starts = tt; ends = refl }
All-IsPlain (c ∷ s) h = record { starts = h.0; ends = ends c s h.0 (All-IsPlain s h.1).ends }
  where
    ends : (c : ℕ) (s : Text) → is_whitespace c ≡ false → EndsPlain s → EndsPlain (c ∷ s)
    ends c [] p q = ground arith
    ends c (d ∷ s) p q = ground arith
