-- ===== src/Common/Text.antt =====
-- Rust's `str` as the list of its characters' code points, and the methods of `str` that the
-- daemon calls.
pub mod Parts
pub mod Order
pub mod Decimal
pub mod Trim
pub mod Lines
use Prim.Native.Char.{code}
use Prim.Native.String.{String}
use Prim.Native.Nat.{ℕ, zero, suc, ◌+◌, ◌≤◌, ◌<◌, compare, Ordering}
use mathlib.Core.Path.{◌≡◌, refl, ap₂}
use mathlib.Core.Logic.{◌≢◌, ite}
use mathlib.Core.Bool.{Bool, true, false, ◌&&◌, ◌||◌}
use mathlib.Core.Option.{Option, none, some}
use mathlib.Core.List.{List, [], ◌∷◌, ◌++◌, reverse}
use native.Mathlib.Omega.{arith}
use native.Mathlib.Decide.{ℕ_discrete}
use mandrake.Common.Tests.{ltb, leb, ◌==◌, if◌then◌else◌}

abbrev pub Text : Type 0
Text = List ℕ

-- A literal of the source.
unfoldable pub codes : String → Text
codes String.[] = []
codes (String.◌∷◌ c s) = code c ∷ codes s

head_eq : (a b : ℕ) (x y : Text) → ◌≡◌ {A = Text} (a ∷ x) (b ∷ y) → a ≡ b
head_eq a b x y e = cc

tail_eq : (a b : ℕ) (x y : Text) → ◌≡◌ {A = Text} (a ∷ x) (b ∷ y) → x ≡ y
tail_eq a b x y e = cc

pub ne_head : (a b : ℕ) (x y : Text) → a ≢ b → ◌≢◌ {A = Text} (a ∷ x) (b ∷ y)
ne_head a b x y h e = h (head_eq a b x y e)

pub ne_tail : (a b : ℕ) (x y : Text) → x ≢ y → ◌≢◌ {A = Text} (a ∷ x) (b ∷ y)
ne_tail a b x y h e = h (tail_eq a b x y e)

pub nil_ne : (b : ℕ) (y : Text) → ◌≢◌ {A = Text} [] (b ∷ y)
nil_ne b y e = cc

pub ne_nil : (a : ℕ) (x : Text) → ◌≢◌ {A = Text} (a ∷ x) []
ne_nil a x e = cc

unfoldable pub text_dec : Discrete Text
unfolding ℕ_discrete
text_dec [] [] = yes refl
text_dec [] (b ∷ y) = no (nil_ne b y)
text_dec (a ∷ x) [] = no (ne_nil a x)
text_dec (a ∷ x) (b ∷ y) = elim (ℕ_discrete a b) [
  | yes p ↦ elim (text_dec x y) [ yes q ↦ yes (ap₂ ◌∷◌ p q) | no n ↦ no (ne_tail a b x y n) ]
  | no n ↦ no (ne_head a b x y n)
]

-- `==` of two texts.
abbrev pub same_text : Text → Text → Bool
same_text a b = ite (text_dec a b) true false
