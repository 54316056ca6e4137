-- ===== src/Net/Assemble.antt =====
-- `LinkSources::assemble` in parse.rs of crates/mandrake-net: the outputs of `dladm` put together.
use mandrake.Common.{
  not, ◌&&◌, List, [], ◌∷◌, Option, none, some, if◌then◌else◌, or_else, is_some, map, find?,
}
use mandrake.Common.Text.{Text, same_text}
use mandrake.Net.{
  LinkKind, phys, aggr, vlan, etherstub, vnic, other, LinkState, AggrPort, LinkInfo, new_link,
  same_kind,
}
use mandrake.Net.Dladm.{LinkRow, PhysRow, AggrRow, AggrPortRow, VlanRow, VnicRow}

pub record LinkSources : Type 0 where
  pub links : List LinkRow
  pub phys : List PhysRow
  pub macs : List (Text × Text)
  pub aggrs : List AggrRow
  pub ports : List AggrPortRow
  pub vlans : List VlanRow
  pub vnics : List VnicRow

abbrev pub bare : LinkRow → LinkInfo
bare r = record (new_link r.name r.kind) { state = r.state; mtu = r.mtu; over = r.over }

abbrev known_state : LinkState → LinkState → LinkState
known_state LinkState.unknown before = before
known_state LinkState.up before = LinkState.up
known_state LinkState.down before = LinkState.down

abbrev with_phys : Option PhysRow → LinkInfo → LinkInfo
with_phys none l = l
with_phys (some p) l = record l {
  media = p.media;
  speed_mbps = p.speed_mbps;
  duplex = p.duplex;
  device = p.device;
  state = known_state p.state l.state;
}

abbrev mac_in : Text → List (Text × Text) → Option Text
mac_in name macs = elim (find? (λ e. same_text e.0 name) macs) [ none ↦ none | some e ↦ some e.1 ]

unfoldable pub fill_phys : LinkSources → LinkInfo → LinkInfo
fill_phys src l = record (with_phys (find? (λ p. same_text p.name l.name) src.phys) l) {
  mac = mac_in l.name src.macs;
}

-- The ports of an aggregation; its own row has none.
abbrev pub ports_of : Text → List AggrPortRow → List AggrPort
ports_of name [] = []
ports_of name (p ∷ ps) =
    let rest = ports_of name ps in
    if same_text p.aggr name
    then (elim p.port [
      | none ↦ rest
      | some port ↦
          record { name = port; state = or_else p.port_state p.state; speed_mbps = p.speed_mbps }
          ∷ rest
    ])
    else rest

abbrev over_ports : List AggrPort → List Text → List Text
over_ports [] before = before
over_ports (p ∷ ps) before = map (λ q. q.name) (p ∷ ps)

abbrev with_aggr : Option AggrRow → List AggrPort → LinkInfo → LinkInfo
with_aggr none ports l = l
with_aggr (some a) ports l = record l {
  over = over_ports ports l.over;
  aggr = some (record {
    policy = a.policy;
    lacp_mode = a.lacp_mode;
    lacp_timer = a.lacp_timer;
    ports = ports;
  });
}

abbrev with_own : Option AggrPortRow → LinkInfo → LinkInfo
with_own none l = l
with_own (some own) l = record l { speed_mbps = own.speed_mbps; duplex = own.duplex; mac = own.mac }

unfoldable pub fill_aggr : LinkSources → LinkInfo → LinkInfo
fill_aggr src l =
    with_own (find? (λ p. same_text p.aggr l.name && not (is_some p.port)) src.ports)
      (with_aggr (find? (λ a. same_text a.name l.name) src.aggrs) (ports_of l.name src.ports) l)

abbrev with_vlan : Option VlanRow → LinkInfo → LinkInfo
with_vlan none l = l
with_vlan (some v) l = record l { vid = some v.vid; over = v.over ∷ [] }

unfoldable pub fill_vlan : LinkSources → LinkInfo → LinkInfo
fill_vlan src l = with_vlan (find? (λ v. same_text v.name l.name) src.vlans) l

abbrev with_vnic : Option VnicRow → LinkInfo → LinkInfo
with_vnic none l = l
with_vnic (some v) l = record l {
  over = v.over ∷ [];
  speed_mbps = v.speed_mbps;
  mac = v.mac;
  mac_mode = some v.mac_mode;
  vid = v.vid;
  zone = v.zone;
}

unfoldable pub fill_vnic : LinkSources → LinkInfo → LinkInfo
fill_vnic src l = with_vnic (find? (λ v. same_text v.name l.name) src.vnics) l

-- The match on the kind, in the first loop.
abbrev fill_as : LinkKind → LinkSources → LinkInfo → LinkInfo
fill_as phys src l = fill_phys src l
fill_as aggr src l = fill_aggr src l
fill_as vlan src l = fill_vlan src l
fill_as vnic src l = fill_vnic src l
fill_as etherstub src l = l
fill_as other src l = l

abbrev pub fill : LinkSources → LinkInfo → LinkInfo
fill src l = fill_as l.kind src l

-- The address of the first link of a name.
abbrev pub mac_of_link : Text → List LinkInfo → Option Text
mac_of_link name ls = elim (find? (λ l. same_text l.name name) ls) [ none ↦ none | some l ↦ l.mac ]

abbrev parent_mac : List LinkInfo → List Text → Option Text → Option Text
parent_mac ls [] mac = mac
parent_mac ls (parent ∷ more) mac = mac_of_link parent ls

-- A VLAN gets the address that its parent had after the first loop.
abbrev pub share_mac : List LinkInfo → LinkInfo → LinkInfo
share_mac ls l = if same_kind l.kind vlan then record l { mac = parent_mac ls l.over l.mac } else l

abbrev pub filled : LinkSources → List LinkInfo
filled src = map (λ r. fill src (bare r)) src.links

unfoldable pub assemble : LinkSources → List LinkInfo
assemble src = map (share_mac (filled src)) (filled src)
