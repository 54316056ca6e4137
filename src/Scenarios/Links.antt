-- ===== src/Scenarios/Links.antt =====
-- The theorems on the network, on a host with a VLAN over an aggregation.
use mandrake.Common.{
  ◌≡◌, ◌≤◌, ◌↔◌, refl, Bool, true, false, List, [], ◌∷◌, some, arith, map, ℕ_discrete,
}
use mandrake.Common.Text.{Text, codes, text_dec, same_text}
use mandrake.Net.{
  aggr, RouteSpec, new_route, State, ok, and_then, commit, require, family_of, VlanSpec, AggrSpec,
  LacpMode, LacpTimer,
}
use mandrake.Net.Typical.{empty_host, add_phys}
use mandrake.Net.Links.{
  create_etherstub, create_aggr, create_vlan, delete_link, gather, require_free, require_link,
  require_unused, valid_link_name,
}
use mandrake.Net.Routes.{add_route, delete_route, matches}
use mandrake.Net.Calls.{
  Call, creates_aggr, creates_vlan, creates_etherstub, adds_route, deletes_link, perform_all,
}
use mandrake.Net.Grounded.{Grounded}
use mandrake.Net.Standing.{perform_all-Grounded}
use mandrake.Net.Chains.{Chain-bounded}
use mandrake.Net.RouteTable.{NoneTwice, delete_route-add_route}
use mandrake.Net.RouteCalls.{perform_all-NoneTwice}
use mandrake.Net.Fields.{rows, line_of}
use mandrake.Net.Escaped.{rows-unlines}
use mandrake.Net.Masks.{ipv4, mask_to_prefix}
use mandrake.Net.Prefixes.{mask_of, mask_to_prefix-exact}
use mandrake.Net.Recorded.{persistent, listed_destination}
use mandrake.Net.Shown.{persistent_route-route_args, shown, route_words}
use mandrake.Net.Persistent.{persistent_route}
use mandrake.Net.Commands.{route_args}
use mandrake.Common.Text.Lines.{lines, unlines}
use mandrake.Common.Text.Parts.{trim, is_whitespace}
use mandrake.Common.Text.Decimal.{parse_uint, scan}

-- Every text with a digit at its head counts as an address.
abbrev is_ip : Text → Bool
is_ip [] = false
is_ip (c ∷ s) = same_text (c ∷ []) (codes "1")

abbrev ports : State
ports =
    add_phys (codes "e1") true (codes "00:00:00:00:00:01")
      (add_phys (codes "e0") true (codes "00:00:00:00:00:00") empty_host)

abbrev over_ports : AggrSpec
over_ports = record {
  name = codes "aggr0";
  ports = codes "e0" ∷ codes "e1" ∷ [];
  policy = codes "L4";
  lacp_mode = LacpMode.active;
  lacp_timer = LacpTimer.short;
}

abbrev over_aggr : VlanSpec
over_aggr = record { name = codes "vlan10"; vid = 10; over = codes "aggr0" }

abbrev to_ten : RouteSpec
to_ten = new_route (codes "10.0.0.0/8") (codes "1.1.1.1")

abbrev calls : List Call
calls =
    creates_aggr over_ports
    ∷ creates_vlan over_aggr
    ∷ creates_etherstub (codes "stub0")
    ∷ adds_route to_ten
    ∷ deletes_link (codes "aggr0") aggr
    ∷ []

ports-Grounded : Grounded ports
ports-Grounded = (λ k l e. ground arith, λ i h. cc, λ a x e. cc)

perform_all-Grounded_example : Grounded (perform_all is_ip calls ports)
perform_all-Grounded_example = perform_all-Grounded is_ip calls ports ports-Grounded

perform_all-NoneTwice_example : NoneTwice (perform_all is_ip calls ports)
perform_all-NoneTwice_example = perform_all-NoneTwice is_ip calls ports (λ asked. omega arith)

Chain-bounded_example : 3 ≤ 3
unfolding perform_all create_aggr create_vlan create_etherstub delete_link add_route matches gather
    require_free require_link require_unused valid_link_name and_then commit require codes text_dec
    ℕ_discrete parse_uint
Chain-bounded_example =
    Chain-bounded is_ip calls ports (codes "vlan10" ∷ codes "aggr0" ∷ codes "e0" ∷ [])
      ports-Grounded (refl, (refl, refl))

delete_route-add_route_example :
    delete_route to_ten (add_route is_ip to_ten ports).1 ≡ (ok tt, ports)
unfolding add_route matches and_then commit require codes text_dec ℕ_discrete parse_uint
delete_route-add_route_example = delete_route-add_route is_ip to_ten ports refl

abbrev table : List (List Text)
table = (codes "vnic0" ∷ codes "2:8:20:a1" ∷ []) ∷ (codes "a\\b" ∷ codes "--" ∷ codes "x" ∷ []) ∷ []

rows-unlines_example : rows (codes "dladm") 2 (lines (unlines (map line_of table))) ≡ ok table
unfolding codes text_dec ℕ_discrete trim is_whitespace
rows-unlines_example = rows-unlines (codes "dladm") 1 table refl

mask_to_prefix-exact_example :
    (mask_to_prefix (codes "255.255.240.0") ≡ some 20) ↔ ((20 ≤ 32) × (0xfffff000 ≡ mask_of 32 20))
unfolding ipv4 parse_uint scan codes
mask_to_prefix-exact_example = mask_to_prefix-exact (codes "255.255.240.0") 0xfffff000 20 refl

persistent_route-route_args_example :
    persistent_route
      (shown (route_words (route_args (new_route (codes "10.9.9.9") (codes "10.0.0.1")))))
    ≡ persistent
        (family_of (codes "10.0.0.1"))
        (listed_destination (codes "10.9.9.9") (family_of (codes "10.0.0.1")))
        (codes "10.0.0.1")
unfolding codes text_dec ℕ_discrete is_whitespace
persistent_route-route_args_example =
    persistent_route-route_args (codes "10.9.9.9") (codes "10.0.0.1") refl refl refl refl
