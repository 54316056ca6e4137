-- ===== src/Net/Calls.antt =====
-- Sequences of calls of the network driver of fake.rs.
use mandrake.Common.{ℕ, Bool, List, [], ◌∷◌}
use mandrake.Common.Text.{Text}
use mandrake.Net.{LinkKind, AggrSpec, VlanSpec, VnicSpec, AddressSpec, RouteSpec, State, Answer}
use mandrake.Net.Links.{
  create_aggr, create_vlan, create_etherstub, create_vnic, delete_link, set_mtu,
}
use mandrake.Net.Addresses.{create_address, delete_address}
use mandrake.Net.Routes.{add_route, delete_route}

-- A call of the driver that may change something.
pub data Call : Type 0 where
  creates_aggr : AggrSpec → Call
  creates_vlan : VlanSpec → Call
  creates_etherstub : Text → Call
  creates_vnic : VnicSpec → Call
  deletes_link : Text → LinkKind → Call
  sets_mtu : Text → ℕ → Call
  creates_address : AddressSpec → Call
  deletes_address : Text → Call
  adds_route : RouteSpec → Call
  deletes_route : RouteSpec → Call

abbrev pub perform : (Text → Bool) → Call → State → Answer
perform is_ip (creates_aggr spec) s = create_aggr spec s
perform is_ip (creates_vlan spec) s = create_vlan spec s
perform is_ip (creates_etherstub name) s = create_etherstub name s
perform is_ip (creates_vnic spec) s = create_vnic spec s
perform is_ip (deletes_link name kind) s = delete_link name kind s
perform is_ip (sets_mtu name mtu) s = set_mtu name mtu s
perform is_ip (creates_address spec) s = create_address is_ip spec s
perform is_ip (deletes_address name) s = delete_address name s
perform is_ip (adds_route spec) s = add_route is_ip spec s
perform is_ip (deletes_route spec) s = delete_route spec s

unfoldable pub perform_all : (Text → Bool) → List Call → State → State
perform_all is_ip [] s = s
perform_all is_ip (c ∷ calls) s = perform_all is_ip calls (perform is_ip c s).1
