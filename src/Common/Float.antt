-- ===== src/Common/Float.antt =====
-- What is used of `f64`: a number is given by its bits. Reading, writing, products, literals of whole
-- numbers and `round() as u64` are operations of the platform.
use mandrake.Common.{ℕ, ◌^◌, ◌<◌, ◌≡◌, Bool, true, Option, some}
use mandrake.Common.Text.{Text}
use mandrake.Common.Text.Decimal.{show}

pub record Float : Type 0 where
  pub from_str : Text → Option ℕ
  pub to_string : ℕ → Text
  pub literal : ℕ → ℕ
  pub mul : ℕ → ℕ → ℕ
  pub is_finite : ℕ → Bool
  pub is_nonnegative : ℕ → Bool
  pub round_u64 : ℕ → ℕ

-- Whole numbers below 2 ^ 53 are exact.
pub record IsExact (float : Float) : Type 0 where
  pub reads : (n : ℕ) → n < 2 ^ 53 → float.from_str (show n) ≡ some (float.literal n)
  pub once : (n : ℕ) → n < 2 ^ 53 → float.mul (float.literal n) (float.literal 1) ≡ float.literal n
  pub finite : (n : ℕ) → n < 2 ^ 53 → float.is_finite (float.literal n) ≡ true
  pub nonnegative : (n : ℕ) → n < 2 ^ 53 → float.is_nonnegative (float.literal n) ≡ true
  pub rounds : (n : ℕ) → n < 2 ^ 53 → float.round_u64 (float.literal n) ≡ n
