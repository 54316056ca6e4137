-- ===== src/Net/Requests.antt =====
-- What crates/mandraked/src/routes/network.rs checks of the texts and numbers of a request. The parser of
-- IP addresses is a parameter, with the test for the fourth version.
use mandrake.Common.{
  ℕ, ◌+◌, ◌≤◌, ◌≡◌, refl, ap, Bool, not, ◌&&◌, ◌||◌, [], ◌∷◌, Option, none, some, arith, leb,
  if◌then◌else◌, ◌==◌, all, is_some_and, last?,
}
use mandrake.Common.Text.{Text, codes, same_text}
use mandrake.Common.Text.Parts.{utf8_len, split, split_once}
use mandrake.Common.Text.Decimal.{parse_uint, is_digit}
use mandrake.Core.Problem.{unprocessable}
use mandrake.Daemon.Handler.{Result}
use mandrake.Net.Links.{ascii_alphabetic, head_ok}
use mandrake.Net.Links
use mandrake.Net.Removal.{refuse_if}

unfoldable pub valid_link_name : Text → Bool
valid_link_name name =
    leb 2 (utf8_len name)
    && leb (utf8_len name) 31
    && head_ok name
    && all (λ c. ascii_alphabetic c || is_digit c || c == b'_') name
    && is_some_and (last? name) is_digit

unfoldable pub require_link_name : Text → Result (Unit {0})
require_link_name name =
    refuse_if (not (valid_link_name name)) (
      unprocessable
        (codes "invalid link name; letters, digits, and underscores, ending in a digit"))

unfoldable pub require_vid : ℕ → Result (Unit {0})
require_vid vid =
    refuse_if (not (leb 1 vid && leb vid 4094))
      (unprocessable (codes "vid must be between 1 and 4094"))

unfoldable pub require_mtu : ℕ → Result (Unit {0})
require_mtu mtu =
    refuse_if (not (leb 576 mtu && leb mtu 9216))
      (unprocessable (codes "mtu must be between 576 and 9216"))

unfoldable pub valid_policy : Text → Bool
valid_policy policy =
    not (same_text policy [])
    && all (λ p. same_text p (codes "L2") || same_text p (codes "L3") || same_text p (codes "L4"))
        (split b',' policy)

unfoldable pub valid_alias : Text → Bool
valid_alias alias =
    leb 1 (utf8_len alias)
    && leb (utf8_len alias) 16
    && all (λ c. ascii_alphabetic c || is_digit c || c == b'_') alias

-- An address and its prefix length, which is within the range of the family.
module _ {Ip : Type 0} (parse_ip : Text → Option Ip) (is_ipv4 : Ip → Bool) where
  abbrev with_prefix : Option Ip → Option ℕ → Option (Ip × ℕ)
  with_prefix (some ip) (some prefix) =
      if leb prefix (if is_ipv4 ip then 32 else 128) then some (ip, prefix) else none
  with_prefix ip prefix = none

  unfoldable pub parse_prefixed : Text → Option (Ip × ℕ)
  parse_prefixed s = elim (split_once b'/' s) [
    | none ↦ none
    | some (ip, prefix) ↦ with_prefix (parse_ip ip) (parse_uint 255 prefix)
  ]

utf8_len-positive : (c : ℕ) (s : Text) → 1 + utf8_len s ≤ utf8_len (c ∷ s)
utf8_len-positive c s = ground arith

two_or_one : (n : ℕ) → 2 ≤ n → leb 2 n ≡ leb 1 n
two_or_one n h = ground arith

-- The names that the routes let pass are the ones that the in-memory driver takes.
pub valid_link_name-driver : (name : Text) → valid_link_name name ≡ Links.valid_link_name name
unfolding valid_link_name Links.valid_link_name
valid_link_name-driver [] = refl
valid_link_name-driver (c ∷ []) = ground arith
valid_link_name-driver (c ∷ d ∷ s) =
    ap
      (λ b.
        b
        && leb (utf8_len (c ∷ d ∷ s)) 31
        && head_ok (c ∷ d ∷ s)
        && all (λ x. ascii_alphabetic x || is_digit x || x == b'_') (c ∷ d ∷ s)
        && is_some_and (last? (c ∷ d ∷ s)) is_digit)
      (two_or_one (utf8_len (c ∷ d ∷ s))
        (omega (arith, utf8_len-positive c (d ∷ s), utf8_len-positive d s)))
