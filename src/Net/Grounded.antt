-- ===== src/Net/Grounded.antt =====
-- What links, interfaces and addresses stand on, through the calls of fake.rs.
use mandrake.Common.{ℕ, ◌≡◌, refl, ap, true, false, ◌||◌, List, [], ◌∷◌, none, some, arith, all}
use mandrake.Common.Map.{lookup, contains, remove, lookup-insert, lookup-remove}
use mandrake.Common.Text.{Text, codes, same_text, text_dec}
use mandrake.Net.{
  LinkKind, aggr, LinkInfo, AddressInfo, AggrSpec, VlanSpec, VnicSpec, State, ok, require,
}
use mandrake.Net.Links.{
  has_dependents, require_free, require_link, require_unused, gather, Gathered, none_gathered,
  new_aggr, new_vlan, new_etherstub, new_vnic, create_aggr, create_vlan, create_etherstub,
  create_vnic, delete_link, set_mtu, add_link, deletable,
}
use mandrake.Net.Outcomes.{
  Turns, ok-Turns, and_then-Turns, if_not-Turns, Turns-mono, Turns-ok, commit-Turns, require-ok,
}
use mandrake.Net.Layers.{Layered, layered, carried, insert-Layered, remove-Layered}

abbrev pub Grounded : State → Type 0
Grounded s =
    Layered s.links
    × ((i : Text)
        → contains text_dec i s.interfaces ≡ true
        → (same_text i (codes "lo0") || contains text_dec i s.links) ≡ true)
    × ((a : Text) (x : AddressInfo)
        → lookup text_dec a s.addresses ≡ some x
        → contains text_dec x.interface s.interfaces ≡ true)

pub require_free-ok :
    (s : State) (name : Text) {u : Unit {0}}
    → require_free s name ≡ ok u
    → lookup text_dec name s.links ≡ none
unfolding require_free require
require_free-ok s name e = ground arith

pub require_link-ok :
    (s : State) (name : Text) {l : LinkInfo}
    → require_link s name ≡ ok l
    → lookup text_dec name s.links ≡ some l
unfolding require_link
require_link-ok s name e = ground arith

pub require_unused-ok :
    (s : State) (name : Text) {u : Unit {0}}
    → require_unused s name ≡ ok u
    → (has_dependents name s.links ≡ false) × (contains text_dec name s.interfaces ≡ false)
unfolding require_unused require
require_unused-ok s name e = ground arith

-- A link that replaces none, or one of its kind.
add_link-Grounded :
    (name : Text) (l : LinkInfo) (s : State)
    → ((p : LinkInfo) → lookup text_dec name s.links ≡ some p → p.kind ≡ l.kind)
    → layered s.links l ≡ true
    → Grounded s
    → Grounded (add_link name l s)
add_link-Grounded name l s same new (low, mid, high) = (
  insert-Layered s.links name l same new low,
  λ i h. ground (arith, mid i h, lookup-insert text_dec i name l s.links),
  high,
)

-- A link whose name was free.
new_link-Grounded :
    (name : Text) (l : LinkInfo) (s : State)
    → lookup text_dec name s.links ≡ none
    → layered s.links l ≡ true
    → Grounded s
    → Grounded (add_link name l s)
new_link-Grounded name l s free = add_link-Grounded name l s (λ p e. cc)

remove_link-Grounded :
    (name : Text) (s : State)
    → (has_dependents name s.links ≡ false) × (contains text_dec name s.interfaces ≡ false)
    → Grounded s
    → Grounded (record s { links = remove text_dec name s.links })
remove_link-Grounded name s (free, bare) (low, mid, high) =
    (remove-Layered s.links name free low, λ i h. standing i h (text_dec name i), high)
  where
    standing :
        (i : Text)
        → contains text_dec i s.interfaces ≡ true
        → Dec (name ≡ i)
        → (same_text i (codes "lo0") || contains text_dec i (remove text_dec name s.links)) ≡ true
    standing i h (yes e) = ground (arith, ap (λ x. contains text_dec x s.interfaces) e)
    standing i h (no n) = ground (arith, mid i h, lookup-remove text_dec i name s.links)

gather-carried :
    (s : State) (names : List Text) (g : Gathered)
    → Turns (λ h. all (carried s.links aggr) names ≡ true) (gather s names g)
unfolding gather
gather-carried s [] g = ok-Turns _ refl
gather-carried s (name ∷ names) g =
    and_then-Turns (λ h. all (carried s.links aggr) (name ∷ names) ≡ true) _ _
      (λ port found.
        and_then-Turns (λ h. all (carried s.links aggr) (name ∷ names) ≡ true) _ _
          (λ _ physical.
            and_then-Turns (λ h. all (carried s.links aggr) (name ∷ names) ≡ true) _ _
              (λ _ unused.
                Turns-mono _ _ _
                  (λ h rest. ground (arith, require_link-ok s name found, require-ok _ _ physical))
                  (gather-carried s names _))))

pub create_etherstub-Grounded :
    (name : Text) (s : State) → Grounded s → Grounded (create_etherstub name s).1
unfolding create_etherstub
create_etherstub-Grounded name s g = commit-Turns Grounded _ s g (
    and_then-Turns Grounded _ _ (λ _ free.
      ok-Turns Grounded
        (new_link-Grounded name (new_etherstub name) s (require_free-ok s name free) refl g)))

pub create_aggr-Grounded :
    (spec : AggrSpec) (s : State) → Grounded s → Grounded (create_aggr spec s).1
unfolding create_aggr
create_aggr-Grounded spec s g = commit-Turns Grounded _ s g (
    and_then-Turns Grounded _ _ (λ _ free. and_then-Turns Grounded _ _ (λ _ some_port.
      and_then-Turns Grounded _ _ (λ h gathered. ok-Turns Grounded (
        new_link-Grounded spec.name (new_aggr spec s h) s (require_free-ok s spec.name free)
          (Turns-ok _ _ h (gather-carried s spec.ports none_gathered) gathered) g)))))

pub create_vlan-Grounded :
    (spec : VlanSpec) (s : State) → Grounded s → Grounded (create_vlan spec s).1
unfolding create_vlan
create_vlan-Grounded spec s g = commit-Turns Grounded _ s g (
    and_then-Turns Grounded _ _ (λ _ free. and_then-Turns Grounded _ _ (λ _ vid.
      and_then-Turns Grounded _ _ (λ over found. and_then-Turns Grounded _ _ (λ _ carries.
        ok-Turns Grounded (
          new_link-Grounded spec.name (new_vlan spec over) s (require_free-ok s spec.name free)
            (ground (arith, require_link-ok s spec.over found, require-ok _ _ carries)) g))))))

pub create_vnic-Grounded :
    (spec : VnicSpec) (s : State) → Grounded s → Grounded (create_vnic spec s).1
unfolding create_vnic
create_vnic-Grounded spec s g = commit-Turns Grounded _ s g (
    and_then-Turns Grounded _ _ (λ _ free. and_then-Turns Grounded _ _ (λ over found.
      and_then-Turns Grounded _ _ (λ _ carries. and_then-Turns Grounded _ _ (λ _ vid.
        and_then-Turns Grounded _ _ (λ c chosen. ok-Turns Grounded (
          new_link-Grounded spec.name (new_vnic spec over c.0.0 c.0.1) (record s { next_mac = c.1 })
            (require_free-ok s spec.name free)
            (ground (arith, require_link-ok s spec.over found, require-ok _ _ carries)) g)))))))

pub delete_link-Grounded :
    (name : Text) (kind : LinkKind) (s : State) → Grounded s → Grounded (delete_link name kind s).1
unfolding delete_link
delete_link-Grounded name kind s g = commit-Turns Grounded _ s g (
    and_then-Turns Grounded _ _ (λ link found. if_not-Turns Grounded (deletable kind) _ _ (
      and_then-Turns Grounded _ _ (λ _ same. and_then-Turns Grounded _ _ (λ _ unused.
        ok-Turns Grounded (remove_link-Grounded name s (require_unused-ok s name unused) g))))))

pub set_mtu-Grounded :
    (name : Text) (mtu : ℕ) (s : State) → Grounded s → Grounded (set_mtu name mtu s).1
unfolding set_mtu
set_mtu-Grounded name mtu s g = commit-Turns Grounded _ s g (
    and_then-Turns Grounded _ _ (λ l found. and_then-Turns Grounded _ _ (λ _ fits.
      ok-Turns Grounded (
        add_link-Grounded name (record l { mtu = some mtu }) s
          (λ p e. ground (arith, require_link-ok s name found))
          (g.0 name l (require_link-ok s name found)) g))))
