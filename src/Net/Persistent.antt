-- ===== src/Net/Persistent.antt =====
-- The routes of `route -p show` in parse.rs of crates/mandrake-net.
use mandrake.Common.{
  ℕ, Bool, true, false, not, ◌&&◌, ◌||◌, List, [], ◌∷◌, ◌++◌, Option, none, some, if◌then◌else◌,
  or_else, any, is_some_and,
}
use mandrake.Common.Text.{Text, codes, same_text}
use mandrake.Common.Text.Parts.{trim, starts_with, strip_prefix}
use mandrake.Common.Text.Lines.{lines}
use mandrake.Common.Text.Decimal.{show}
use mandrake.Net.{AddressFamily, inet, inet6, family_of, same_family, is_static, RouteInfo}
use mandrake.Net.Masks.{mask_to_prefix}
use mandrake.Net.Netstat.{split_whitespace, has_slash}

pub record PersistentRoute : Type 0 where
  pub family : AddressFamily
  pub destination : Text
  pub gateway : Text

-- What the words of a line have said so far.
pub record Said : Type 0 where
  pub family : Option AddressFamily
  pub netmask : Option Text
  pub host : Bool
  pub is_add : Bool
  pub positional : List Text

abbrev pub nothing_said : Said
nothing_said = record {
  family = none;
  netmask = none;
  host = false;
  is_add = false;
  positional = [];
}

abbrev pub skips : Text → Bool
skips x = same_text x (codes "-ifp") || same_text x (codes "-ifa")

-- One word that takes no other with it.
unfoldable pub say : Text → Said → Said
say x said =
    if same_text x (codes "-host")
    then record said { host = true }
    else if same_text x (codes "-inet")
    then record said { family = some inet }
    else if same_text x (codes "-inet6")
    then record said { family = some inet6 }
    else if same_text x (codes "-netmask")
    then record said { netmask = none }
    else if skips x
    then said
    else if same_text x (codes "add")
    then record said { is_add = true }
    else if starts_with (codes "-") x || same_text x (codes "route")
    then said
    else record said { positional = said.positional ++ x ∷ [] }

-- The mask follows its word, and what follows an interface's word is passed over.
unfoldable pub words : List Text → Said → Said
words [] said = said
words (x ∷ []) said = say x said
words (x ∷ y ∷ tok) said =
    let next = words (y ∷ tok) (say x said) in
    let masked = words tok (record said { netmask = some y }) in
    let passed = words tok said in
    if same_text x (codes "-netmask") then masked else if skips x then passed else next

abbrev pub masked_prefix : Option Text → Option ℕ
masked_prefix none = none
masked_prefix (some mask) = mask_to_prefix mask

abbrev pub host_bits : AddressFamily → Text
host_bits inet = codes "32"
host_bits inet6 = codes "128"

abbrev pub persistent_destination : Said → AddressFamily → Text → Text
persistent_destination said family dest =
    if same_text dest (codes "default") || has_slash dest
    then dest
    else elim (masked_prefix said.netmask) [
      | some prefix ↦ dest ++ codes "/" ++ show prefix
      | none ↦
          if said.host || same_family family inet6
          then dest ++ codes "/" ++ host_bits family
          else dest
    ]

abbrev pub said_route : Said → List Text → Option PersistentRoute
said_route said (dest ∷ gateway ∷ more) =
    if not said.is_add
    then none
    else let family = or_else said.family (family_of gateway) in
      some (record {
        family = family;
        destination = persistent_destination said family dest;
        gateway = gateway;
      })
said_route said few = none

unfoldable pub persistent_route : Text → Option PersistentRoute
persistent_route line =
    let t = trim line in
    let rest = trim (or_else (strip_prefix (codes "persistent:") t) t) in
    let said = words (split_whitespace rest) nothing_said in said_route said said.positional

-- `filter_map`
abbrev pub persistent_lines : List Text → List PersistentRoute
persistent_lines [] = []
persistent_lines (line ∷ more) =
    let rest = persistent_lines more in
    elim (persistent_route line) [ none ↦ rest | some p ↦ p ∷ rest ]

unfoldable pub persistent_routes : Text → List PersistentRoute
persistent_routes out = persistent_lines (lines out)

abbrev pub recorded : List PersistentRoute → RouteInfo → Bool
recorded persistent r =
    any
      (λ p.
        same_family p.family r.family
        && same_text p.destination r.destination
        && is_some_and r.gateway (λ g. same_text g p.gateway))
      persistent

unfoldable pub mark_persistent : List PersistentRoute → List RouteInfo → List RouteInfo
mark_persistent persistent [] = []
mark_persistent persistent (r ∷ routes) =
    (if is_static r.kind then record r { persistent = recorded persistent r } else r)
    ∷ mark_persistent persistent routes
