-- ===== src/Net/Standing.antt =====
-- What links, interfaces and addresses stand on, after any calls of fake.rs.
use mandrake.Common.{
  ◌≡◌, sym, ap, ◌∙◌, Bool, true, not, ◌||◌, List, [], ◌∷◌, Option, none, some, arith, if◌then◌else◌,
}
use mandrake.Common.Map.{lookup, contains, insert, lookup-insert, lookup-remove}
use mandrake.Common.Text.{Text, codes, same_text, text_dec}
use mandrake.Net.{InterfaceInfo, AddressInfo, inet, AddressSpec, RouteInfo, RouteSpec, State}
use mandrake.Net.Addresses.{
  ensure_interface, new_interface, new_address, put_address, create_address, delete_address,
}
use mandrake.Net.Routes.{add_route, delete_route, without_route}
use mandrake.Net.Calls.{
  Call, creates_aggr, creates_vlan, creates_etherstub, creates_vnic, deletes_link, sets_mtu,
  creates_address, deletes_address, adds_route, deletes_route, perform, perform_all,
}
use mandrake.Net.Outcomes.{Turns, ok-Turns, err-Turns, and_then-Turns, commit-Turns, require-ok}
use mandrake.Net.Grounded.{
  Grounded, create_aggr-Grounded, create_vlan-Grounded, create_etherstub-Grounded,
  create_vnic-Grounded, delete_link-Grounded, set_mtu-Grounded,
}

contains-ensure :
    (i name : Text) (m : List (Text × InterfaceInfo))
    → contains text_dec i (ensure_interface name m)
      ≡ (if same_text name i then true else contains text_dec i m)
contains-ensure i name m = elim (text_dec name i) [
  | yes e ↦ ground (
    arith,
    ap (λ x. contains text_dec x m) e,
    lookup-insert text_dec i name (new_interface name (codes "ip")) m,
  )
  | no n ↦ ground (arith, n, lookup-insert text_dec i name (new_interface name (codes "ip")) m)
]

put_address-Grounded :
    (a : AddressInfo) (s : State)
    → (same_text a.interface (codes "lo0") || contains text_dec a.interface s.links) ≡ true
    → Grounded s
    → Grounded (put_address a s)
put_address-Grounded a s under (low, mid, high) =
    (low, λ i h. standing i h (text_dec a.interface i), λ k x e. held k x e (text_dec a.name k))
  where
    standing :
        (i : Text)
        → contains text_dec i (ensure_interface a.interface s.interfaces) ≡ true
        → Dec (a.interface ≡ i)
        → (same_text i (codes "lo0") || contains text_dec i s.links) ≡ true
    standing i h (yes e) =
        sym (ap (λ x. same_text x (codes "lo0") || contains text_dec x s.links) e) ∙ under
    standing i h (no n) = mid i (ground (arith, contains-ensure i a.interface s.interfaces, n))

    held :
        (k : Text) (x : AddressInfo)
        → lookup text_dec k (insert text_dec a.name a s.addresses) ≡ some x
        → Dec (a.name ≡ k)
        → contains text_dec x.interface (ensure_interface a.interface s.interfaces) ≡ true
    held k x e (yes p) = ground (
      arith,
      contains-ensure x.interface a.interface s.interfaces,
      lookup-insert text_dec k a.name a s.addresses,
    )
    held k x e (no n) = ground (
      arith,
      contains-ensure x.interface a.interface s.interfaces,
      lookup-insert text_dec k a.name a s.addresses,
      high k x,
    )

create_address-Grounded :
    (is_ip : Text → Bool) (spec : AddressSpec) (s : State)
    → Grounded s
    → Grounded (create_address is_ip spec s).1
unfolding create_address
create_address-Grounded is_ip spec s g = commit-Turns Grounded _ s g (
    and_then-Turns Grounded _ _ (λ _ under. and_then-Turns Grounded _ _ (λ _ free.
      and_then-Turns Grounded _ _ (λ address given. ok-Turns Grounded (
        put_address-Grounded (new_address spec.addrobj spec.kind address (not spec.temporary) inet)
          s (require-ok _ _ under) g)))))

delete_address-Grounded :
    (name : Text) (s : State) → Grounded s → Grounded (delete_address name s).1
unfolding delete_address
delete_address-Grounded name s g = commit-Turns Grounded _ s g (
    and_then-Turns Grounded _ _ (λ _ there.
      ok-Turns Grounded
        (g.0, g.1, λ a x e. g.2 a x (ground (arith, lookup-remove text_dec a name s.addresses)))))

add_route-Grounded :
    (is_ip : Text → Bool) (spec : RouteSpec) (s : State)
    → Grounded s
    → Grounded (add_route is_ip spec s).1
unfolding add_route
add_route-Grounded is_ip spec s g = commit-Turns Grounded _ s g (
    and_then-Turns Grounded _ _ (λ _ gateway.
      and_then-Turns Grounded _ _
        (λ _ destination. and_then-Turns Grounded _ _ (λ _ new. ok-Turns Grounded g))))

without_route-Grounded :
    (spec : RouteSpec) (left : Option (List RouteInfo)) (s : State)
    → Grounded s
    → Turns Grounded (without_route spec left s)
unfolding without_route
without_route-Grounded spec none s g = err-Turns Grounded _
without_route-Grounded spec (some left) s g = ok-Turns Grounded g

delete_route-Grounded :
    (spec : RouteSpec) (s : State) → Grounded s → Grounded (delete_route spec s).1
unfolding delete_route
delete_route-Grounded spec s g = commit-Turns Grounded _ s g (without_route-Grounded spec _ s g)

perform-Grounded :
    (is_ip : Text → Bool) (c : Call) (s : State) → Grounded s → Grounded (perform is_ip c s).1
perform-Grounded is_ip (creates_aggr spec) s g = create_aggr-Grounded spec s g
perform-Grounded is_ip (creates_vlan spec) s g = create_vlan-Grounded spec s g
perform-Grounded is_ip (creates_etherstub name) s g = create_etherstub-Grounded name s g
perform-Grounded is_ip (creates_vnic spec) s g = create_vnic-Grounded spec s g
perform-Grounded is_ip (deletes_link name kind) s g = delete_link-Grounded name kind s g
perform-Grounded is_ip (sets_mtu name mtu) s g = set_mtu-Grounded name mtu s g
perform-Grounded is_ip (creates_address spec) s g = create_address-Grounded is_ip spec s g
perform-Grounded is_ip (deletes_address name) s g = delete_address-Grounded name s g
perform-Grounded is_ip (adds_route spec) s g = add_route-Grounded is_ip spec s g
perform-Grounded is_ip (deletes_route spec) s g = delete_route-Grounded spec s g

-- Where every link lies over stored links of the kinds that may carry it, every interface is `lo0`
-- or has a link, and every address has an interface, this still holds after any calls of the driver,
-- refused ones included.
pub perform_all-Grounded :
    (is_ip : Text → Bool) (calls : List Call) (s : State)
    → Grounded s
    → Grounded (perform_all is_ip calls s)
unfolding perform_all
perform_all-Grounded is_ip [] s g = g
perform_all-Grounded is_ip (c ∷ calls) s g =
    perform_all-Grounded is_ip calls (perform is_ip c s).1 (perform-Grounded is_ip c s g)
