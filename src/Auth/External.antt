-- ===== src/Auth/External.antt =====
-- What authentication calls in other crates: the `sha2` digest of a text's bytes, the `argon2`
-- password hash (with the salt that it draws) and its check, and `HeaderValue::to_str`.
use mandrake.Common.{ℕ, Bool, Option, List}
use mandrake.Common.Text.{Text}

pub record External : Type 0 where
  pub sha256 : Text → List ℕ
  pub hash_password : ℕ → Text → Option Text
  pub verify : Text → Text → Bool
  pub to_str : List ℕ → Option Text
