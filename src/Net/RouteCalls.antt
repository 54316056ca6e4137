-- ===== src/Net/RouteCalls.antt =====
-- The table of routes of fake.rs through any calls.
use mandrake.Common.{ℕ, ◌≤◌, ◌≡◌, ap, Bool, List, [], ◌∷◌, arith, count_if}
use mandrake.Common.Text.{Text}
use mandrake.Net.{
  LinkKind, AggrSpec, VlanSpec, VnicSpec, AddressSpec, RouteInfo, RouteSpec, State, and_then,
  commit,
}
use mandrake.Net.Links.{
  create_aggr, create_vlan, create_etherstub, create_vnic, delete_link, set_mtu,
}
use mandrake.Net.Addresses.{create_address, delete_address}
use mandrake.Net.Calls.{
  Call, creates_aggr, creates_vlan, creates_etherstub, creates_vnic, deletes_link, sets_mtu,
  creates_address, deletes_address, adds_route, deletes_route, perform, perform_all,
}
use mandrake.Net.Routes.{matches}
use mandrake.Net.RouteTable.{NoneTwice, add_route-NoneTwice, delete_route-NoneTwice}

create_aggr-routes : (spec : AggrSpec) (s : State) → (create_aggr spec s).1.routes ≡ s.routes
unfolding create_aggr commit and_then
create_aggr-routes spec s = ground arith

create_vlan-routes : (spec : VlanSpec) (s : State) → (create_vlan spec s).1.routes ≡ s.routes
unfolding create_vlan commit and_then
create_vlan-routes spec s = ground arith

create_etherstub-routes : (name : Text) (s : State) → (create_etherstub name s).1.routes ≡ s.routes
unfolding create_etherstub commit and_then
create_etherstub-routes name s = ground arith

create_vnic-routes : (spec : VnicSpec) (s : State) → (create_vnic spec s).1.routes ≡ s.routes
unfolding create_vnic commit and_then
create_vnic-routes spec s = ground arith

delete_link-routes :
    (name : Text) (kind : LinkKind) (s : State) → (delete_link name kind s).1.routes ≡ s.routes
unfolding delete_link commit and_then
delete_link-routes name kind s = ground arith

set_mtu-routes : (name : Text) (mtu : ℕ) (s : State) → (set_mtu name mtu s).1.routes ≡ s.routes
unfolding set_mtu commit and_then
set_mtu-routes name mtu s = ground arith

create_address-routes :
    (is_ip : Text → Bool) (spec : AddressSpec) (s : State)
    → (create_address is_ip spec s).1.routes ≡ s.routes
unfolding create_address commit and_then
create_address-routes is_ip spec s = ground arith

delete_address-routes : (name : Text) (s : State) → (delete_address name s).1.routes ≡ s.routes
unfolding delete_address commit and_then
delete_address-routes name s = ground arith

same-NoneTwice :
    (s : State) (routes : List RouteInfo)
    → routes ≡ s.routes
    → NoneTwice s
    → (asked : RouteSpec) → count_if (matches asked) routes ≤ 1
same-NoneTwice s routes e h asked = omega (arith, h asked, ap (count_if (matches asked)) e)

perform-NoneTwice :
    (is_ip : Text → Bool) (c : Call) (s : State) → NoneTwice s → NoneTwice (perform is_ip c s).1
perform-NoneTwice is_ip (creates_aggr spec) s h = same-NoneTwice s _ (create_aggr-routes spec s) h
perform-NoneTwice is_ip (creates_vlan spec) s h = same-NoneTwice s _ (create_vlan-routes spec s) h
perform-NoneTwice is_ip (creates_etherstub name) s h =
    same-NoneTwice s _ (create_etherstub-routes name s) h
perform-NoneTwice is_ip (creates_vnic spec) s h = same-NoneTwice s _ (create_vnic-routes spec s) h
perform-NoneTwice is_ip (deletes_link name kind) s h =
    same-NoneTwice s _ (delete_link-routes name kind s) h
perform-NoneTwice is_ip (sets_mtu name mtu) s h = same-NoneTwice s _ (set_mtu-routes name mtu s) h
perform-NoneTwice is_ip (creates_address spec) s h =
    same-NoneTwice s _ (create_address-routes is_ip spec s) h
perform-NoneTwice is_ip (deletes_address name) s h =
    same-NoneTwice s _ (delete_address-routes name s) h
perform-NoneTwice is_ip (adds_route spec) s h = add_route-NoneTwice is_ip spec s h
perform-NoneTwice is_ip (deletes_route spec) s h = delete_route-NoneTwice spec s h

-- Where no two routes have the same family, destination and gateway, this still holds after any
-- calls of the driver.
pub perform_all-NoneTwice :
    (is_ip : Text → Bool) (calls : List Call) (s : State)
    → NoneTwice s
    → NoneTwice (perform_all is_ip calls s)
unfolding perform_all
perform_all-NoneTwice is_ip [] s h = h
perform_all-NoneTwice is_ip (c ∷ calls) s h =
    perform_all-NoneTwice is_ip calls (perform is_ip c s).1 (perform-NoneTwice is_ip c s h)
