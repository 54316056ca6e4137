-- ===== src/Net/Netstat.antt =====
-- The routes of `netstat -rnv` in parse.rs of crates/mandrake-net.
use mandrake.Common.{
  Bool, false, not, ◌&&◌, ◌||◌, ◌==◌, List, [], ◌∷◌, ◌++◌, Option, none, some, if◌then◌else◌,
  or_else, any, all, find?,
}
use mandrake.Common.Text.{Text, codes, same_text}
use mandrake.Common.Text.Parts.{trim, starts_with, cons_head, is_whitespace}
use mandrake.Common.Text.Lines.{lines}
use mandrake.Common.Text.Decimal.{show, is_digit}
use mandrake.Net.{AddressFamily, inet, inet6, RouteKind, RouteInfo}
use mandrake.Net.Links.{ascii_alphabetic}
use mandrake.Net.Masks.{mask_to_prefix}

-- `str::contains`
unfoldable pub contains_text : Text → Text → Bool
contains_text part [] = starts_with part []
contains_text part (c ∷ s) = starts_with part (c ∷ s) || contains_text part s

-- `split_whitespace`
abbrev pub pieces : Text → List Text
pieces [] = [] ∷ []
pieces (c ∷ s) = let rest = pieces s in if is_whitespace c then [] ∷ rest else cons_head c rest

abbrev pub no_blanks : List Text → List Text
no_blanks [] = []
no_blanks (w ∷ ws) = let rest = no_blanks ws in if same_text w [] then rest else w ∷ rest

unfoldable pub split_whitespace : Text → List Text
split_whitespace s = no_blanks (pieces s)

abbrev pub is_flags : Text → Bool
is_flags tok = not (same_text tok []) && all ascii_alphabetic tok

abbrev pub is_number : Text → Bool
is_number tok = not (same_text tok []) && all is_digit tok

unfoldable pub route_kind : Text → RouteKind
route_kind flags =
    if any (λ c. c == b'D') flags
    then RouteKind.dynamic
    else if any (λ c. c == b'G') flags
    then RouteKind.static
    else RouteKind.interface

unfoldable pub v4_destination : Text → Text → Text
v4_destination dest mask =
    if same_text dest (codes "default")
      || (same_text dest (codes "0.0.0.0") && same_text mask (codes "0.0.0.0"))
    then codes "default"
    else dest ++ codes "/" ++ show (or_else (mask_to_prefix mask) 32)

abbrev pub has_slash : Text → Bool
has_slash s = any (λ c. c == b'/') s

unfoldable pub v6_destination : Text → Text
v6_destination dest =
    if same_text dest (codes "default") || same_text dest (codes "::/0")
    then codes "default"
    else if has_slash dest
    then dest
    else dest ++ codes "/128"

-- Flags, the interface, and the kind that the flags tell.
abbrev flags_kind : Option Text → RouteKind
flags_kind none = RouteKind.interface
flags_kind (some flags) = route_kind flags

abbrev pub read_route : AddressFamily → Text → Text → List Text → RouteInfo
read_route family destination gateway rest = record {
  destination = destination;
  gateway = some gateway;
  family = family;
  interface = find? (λ x. not (is_flags x) && not (is_number x)) rest;
  flags = find? is_flags rest;
  kind = flags_kind (find? is_flags rest);
  persistent = false;
}

abbrev pub route_line : AddressFamily → List Text → Option RouteInfo
route_line inet (dest ∷ mask ∷ gateway ∷ rest) =
    some (read_route inet (v4_destination dest mask) gateway rest)
route_line inet6 (dest ∷ gateway ∷ rest) =
    some (read_route inet6 (v6_destination dest) gateway rest)
route_line family few = none

abbrev is_heading : Text → Bool
is_heading t = same_text t [] || starts_with (codes "-") t || starts_with (codes "Destination") t

abbrev named_family : Text → Option AddressFamily
named_family t =
    if contains_text (codes "IPv4") t
    then some inet
    else if contains_text (codes "IPv6") t
    then some inet6
    else none

abbrev line_route : Option AddressFamily → Text → Option RouteInfo
line_route none t = none
line_route (some family) t = route_line family (split_whitespace t)

abbrev and_route : Option RouteInfo → List RouteInfo → List RouteInfo
and_route none rest = rest
and_route (some r) rest = r ∷ rest

unfoldable pub routes_in : Option AddressFamily → List Text → List RouteInfo
routes_in family [] = []
routes_in family (line ∷ more) =
    if is_heading (trim line) then routes_in family more else elim (named_family (trim line)) [
      | some named ↦ routes_in (some named) more
      | none ↦ and_route (line_route family (trim line)) (routes_in family more)
    ]

unfoldable pub netstat_routes : Text → List RouteInfo
netstat_routes out = routes_in none (lines out)
