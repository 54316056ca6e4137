-- ===== src/Auth/Token.antt =====
-- crates/mandraked/src/auth/token.rs: the shape and the hash of a bearer token. Generation differs
-- in its 32 random bytes, whose base64url text is an argument.
pub mod Hex
use mandrake.Common.{
  ℕ, ◌+◌, ◌/◌, ◌%◌, Bool, ◌&&◌, List, [], ◌∷◌, ◌++◌, ltb, if◌then◌else◌, take, drop,
}
use mandrake.Common.Text.{Text, codes}
use mandrake.Common.Text.Parts.{utf8_len, starts_with}
use mandrake.Auth.External.{External}

unfoldable pub prefix : Text
unfolding codes
prefix = codes "mdk_"

abbrev pub display_len : ℕ
display_len = 8

-- One lowercase hexadecimal digit.
abbrev pub hex_digit : ℕ → ℕ
hex_digit d = if ltb d 10 then d + b'0' else d + 87

-- `{b:02x}` of every byte.
unfoldable pub hex : List ℕ → Text
hex [] = []
hex (b ∷ bytes) = hex_digit (b / 16) ∷ hex_digit (b % 16) ∷ hex bytes

unfoldable pub looks_like_token : Text → Bool
unfolding prefix
looks_like_token s = starts_with prefix s && ltb (utf8_len prefix + display_len) (utf8_len s)

pub record Generated : Type 0 where
  pub secret : Text
  pub display : Text
  pub hash : Text

module _ (ext : External) where
  unfoldable pub hash : Text → Text
  unfolding hex
  hash secret = hex (ext.sha256 secret)

  unfoldable pub generate : Text → Generated
  unfolding prefix hash
  generate encoded =
      let secret = prefix ++ encoded in
      record { secret = secret; display = take display_len (drop 4 secret); hash = hash secret }
