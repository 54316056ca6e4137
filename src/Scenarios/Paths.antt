-- ===== src/Scenarios/Paths.antt =====
-- The theorems on the management path and on the links that are put together, on a VLAN over an
-- aggregation that carries the address of the daemon.
use mandrake.Common.{◌≡◌, ◌↔◌, refl, true, List, [], ◌∷◌, some, map, ℕ_discrete, is_some, All}
use mandrake.Common.Map.{lookup}
use mandrake.Common.Text.{Text, codes, text_dec, same_text}
use mandrake.Core.Role.{Ident}
use mandrake.Scenarios.{as_alice}
use mandrake.Net.{
  phys, aggr, vlan, LinkInfo, new_link, LinkState, AddressKind, AddressInfo, inet, State,
}
use mandrake.Net.Addresses.{new_address}
use mandrake.Net.Typical.{empty_host}
use mandrake.Net.Protect.{Protection, compute_protection, walk}
use mandrake.Net.WalkEnds.{compute_protection-ends}
use mandrake.Net.WalkFinds.{Beneath, here, below, carries, compute_protection-exact}
use mandrake.Net.Removal.{remove_link, remove_address}
use mandrake.Net.Spared.{remove_link_spares, remove_address_spares}
use mandrake.Net.Dladm.{LinkRow}
use mandrake.Net.Assemble.{LinkSources, assemble}
use mandrake.Net.Assembled.{assemble-exact, named, SharesMac}
use mandrake.Zfs.Names.{is_in}

abbrev linked : Text → List Text → LinkInfo
linked name over = record (new_link name aggr) { over = over }

abbrev e0 : LinkInfo
e0 = linked (codes "e0") []

abbrev aggr0 : LinkInfo
aggr0 = linked (codes "aggr0") (codes "e0" ∷ codes "e1" ∷ [])

abbrev vlan10 : LinkInfo
vlan10 = linked (codes "vlan10") (codes "aggr0" ∷ [])

abbrev links : List LinkInfo
links = e0 ∷ aggr0 ∷ vlan10 ∷ []

abbrev held : AddressInfo
held = new_address (codes "vlan10/v4") AddressKind.static (some (codes "10.10.0.5/24")) true inet

abbrev addresses : List AddressInfo
addresses = held ∷ []

abbrev s : State
s = record empty_host {
  links = (codes "e0", e0) ∷ (codes "aggr0", aggr0) ∷ (codes "vlan10", vlan10) ∷ [];
  addresses = (codes "vlan10/v4", held) ∷ [];
}

-- Addresses are their texts, and ids are all the same.
abbrev ips : List Text
ips = codes "10.10.0.5" ∷ []

abbrev one_id : Text → Ident
one_id name = 0

compute_protection-ends_example :
    is_some (compute_protection some same_text ips links addresses) ≡ true
compute_protection-ends_example = compute_protection-ends some same_text ips links addresses

abbrev found : Protection
found = record {
  addresses = codes "vlan10/v4" ∷ [];
  links = codes "e0" ∷ codes "e1" ∷ codes "aggr0" ∷ codes "vlan10" ∷ [];
}

compute_protection-exact_example :
    (is_in (codes "e0") found.links ≡ true)
    ↔ ((n : Text) × (carries some same_text ips addresses n ≡ true) × Beneath links n (codes "e0"))
unfolding compute_protection walk codes text_dec ℕ_discrete
compute_protection-exact_example =
    compute_protection-exact some same_text ips links addresses found (codes "e0") refl

path : Beneath links (codes "vlan10") (codes "e0")
unfolding codes text_dec ℕ_discrete
path =
    below (codes "vlan10") (codes "aggr0") (codes "e0") refl
      (below (codes "aggr0") (codes "e0") (codes "e0") refl (here (codes "e0")))

remove_link_spares_example :
    lookup text_dec
      (codes "e0")
      (remove_link some same_text one_id as_alice ips links addresses 0 aggr s).1.links
    ≡ lookup text_dec (codes "e0") s.links
unfolding codes text_dec ℕ_discrete
remove_link_spares_example =
    remove_link_spares some same_text one_id as_alice ips links addresses 0 aggr s (codes "vlan10")
      (codes "e0") refl path

remove_address_spares_example :
    lookup text_dec
      (codes "vlan10/v4")
      (remove_address some same_text one_id as_alice ips addresses 0 s).1.addresses
    ≡ lookup text_dec (codes "vlan10/v4") s.addresses
unfolding codes text_dec ℕ_discrete
remove_address_spares_example =
    remove_address_spares some same_text one_id as_alice ips addresses 0 s (codes "vlan10/v4") refl

abbrev row : Text → LinkRow
row name = record { name = name; kind = phys; mtu = some 1500; state = LinkState.up; over = [] }

abbrev src : LinkSources
src = record {
  links =
      row (codes "e0") ∷ record (row (codes "vlan10")) { kind = vlan; over = codes "e0" ∷ [] } ∷ [];
  phys = [];
  macs = (codes "e0", codes "0:1:2:3:4:5") ∷ [];
  aggrs = [];
  ports = [];
  vlans = [];
  vnics = [];
}

assemble-exact_example :
    (map named (assemble src) ≡ map (λ r. (r.name, r.kind)) src.links)
    × All (SharesMac (assemble src)) (assemble src)
assemble-exact_example = assemble-exact src
