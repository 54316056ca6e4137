-- ===== src/Zones/RoundTrip/Values.antt =====
-- The keys that are written, and values that are read as they are written.
use mandrake.Common.{ℕ, ◌≡◌, refl, true, false, List, [], ◌∷◌, ◌++◌, Option, none, some, arith, All}
use mandrake.Common.Text.{Text}
use mandrake.Common.Text.Parts.{is_whitespace}
use mandrake.Common.Text.Decimal.{show, show-All, is_digit}
use mandrake.Common.Text.Trim.{IsPlain, All-IsPlain}
use mandrake.Zones.Parse.{unquoted}
use mandrake.Zones.RoundTrip.Settings.{IsKey, IsValue, unquote-IsValue}
use mandrake.Zones.RoundTrip.Blocks.{values, IsSetting}

abbrev pub Each : (Text → Type 0) → Option Text → Type 0
Each P none = Unit
Each P (some v) = P v

All-weaken : (P Q : ℕ → Type 0) (s : Text) → ((c : ℕ) → P c → Q c) → All P s → All Q s
All-weaken P Q [] f h = tt
All-weaken P Q (c ∷ s) f h = (f c h.0, All-weaken P Q s f h.1)

digit_plain : (c : ℕ) → is_digit c ≡ true → is_whitespace c ≡ false
unfolding is_whitespace
digit_plain c h = ground arith

pub digits-IsPlain : (s : Text) → All (λ c. is_digit c ≡ true) s → IsPlain s
digits-IsPlain s h = All-IsPlain s (All-weaken _ _ s digit_plain h)

digits_bare : (s : Text) → All (λ c. is_digit c ≡ true) s → unquoted s ≡ none
digits_bare [] h = refl
digits_bare (c ∷ s) h = ground (arith, h.0)

pub show-IsValue : (n : ℕ) → IsValue (show n)
show-IsValue n = record {
  plain = digits-IsPlain (show n) (show-All n);
  bare = digits_bare (show n) (show-All n);
}

-- A setting whose value is read as it is written.
abbrev pub IsClean : Text × Text → Type 0
IsClean e = IsKey e.0 × IsValue e.1

pub IsClean-IsSetting : (kvs : List (Text × Text)) → All IsClean kvs → All IsSetting kvs
IsClean-IsSetting [] h = tt
IsClean-IsSetting (e ∷ kvs) h = ((h.0.0, h.0.1.plain), IsClean-IsSetting kvs h.1)

pub values-IsClean : (kvs : List (Text × Text)) → All IsClean kvs → values kvs ≡ kvs
values-IsClean [] h = refl
values-IsClean ((key, v) ∷ kvs) h = rw (unquote-IsValue v h.0.1, values-IsClean kvs h.1) refl

pub append-IsClean :
    (a b : List (Text × Text)) → All IsClean a → All IsClean b → All IsClean (a ++ b)
append-IsClean [] b h k = k
append-IsClean (e ∷ a) b h k = (h.0, append-IsClean a b h.1 k)
