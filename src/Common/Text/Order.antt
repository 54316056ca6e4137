-- ===== src/Common/Text/Order.antt =====
-- The order of `str`, which is that of the bytes of its UTF-8, and of SQLite's BINARY collation.
use mandrake.Common.{◌≡◌, refl, Bool, true, false, ◌||◌, ◌&&◌, [], ◌∷◌, arith, ltb, ◌==◌}
use mandrake.Common.Text.{Text}

abbrev pub less : Text → Text → Bool
less [] [] = false
less [] (b ∷ y) = true
less (a ∷ x) [] = false
less (a ∷ x) (b ∷ y) = let rest = less x y in ltb a b || (a == b && rest)

pub less_trans : (x y z : Text) → less x y ≡ true → less y z ≡ true → less x z ≡ true
less_trans [] [] z h k = cc
less_trans [] (b ∷ y) [] h k = cc
less_trans [] (b ∷ y) (c ∷ z) h k = refl
less_trans (a ∷ x) [] z h k = cc
less_trans (a ∷ x) (b ∷ y) [] h k = cc
less_trans (a ∷ x) (b ∷ y) (c ∷ z) h k = ground (arith, less_trans x y z)

pub less_irrefl : (x : Text) → less x x ≡ false
less_irrefl [] = refl
less_irrefl (a ∷ x) = ground (arith, less_irrefl x)

pub less_asym : (x y : Text) → less x y ≡ true → less y x ≡ false
less_asym [] [] h = cc
less_asym [] (b ∷ y) h = refl
less_asym (a ∷ x) [] h = cc
less_asym (a ∷ x) (b ∷ y) h = ground (arith, less_asym x y)

-- Two texts of which neither is less are the same.
pub less_total : (x y : Text) → less x y ≡ false → less y x ≡ false → x ≡ y
less_total [] [] h k = refl
less_total [] (b ∷ y) h k = cc
less_total (a ∷ x) [] h k = cc
less_total (a ∷ x) (b ∷ y) h k = ground (arith, less_total x y)
