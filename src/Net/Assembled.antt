-- ===== src/Net/Assembled.antt =====
-- What `assemble` of parse.rs keeps of the rows, and where a VLAN has its address from.
use mandrake.Common.{
  ◌≡◌, refl, sym, ap, ◌∙◌, Bool, true, false, List, [], ◌∷◌, Option, none, some, arith, map, find?,
  is_some_and, All,
}
use mandrake.Common.Text.{Text, same_text}
use mandrake.Net.{LinkKind, vlan, LinkInfo, same_kind}
use mandrake.Net.Dladm.{LinkRow}
use mandrake.Net.Assemble.{
  LinkSources, assemble, filled, bare, fill, fill_phys, fill_aggr, fill_vlan, fill_vnic, share_mac,
  mac_of_link,
}

abbrev pub named : LinkInfo → Text × LinkKind
named l = (l.name, l.kind)

fill_phys-named : (src : LinkSources) (l : LinkInfo) → named (fill_phys src l) ≡ named l
unfolding fill_phys
fill_phys-named src l = ground arith

fill_aggr-named : (src : LinkSources) (l : LinkInfo) → named (fill_aggr src l) ≡ named l
unfolding fill_aggr
fill_aggr-named src l = ground arith

fill_vlan-named : (src : LinkSources) (l : LinkInfo) → named (fill_vlan src l) ≡ named l
unfolding fill_vlan
fill_vlan-named src l = ground arith

fill_vnic-named : (src : LinkSources) (l : LinkInfo) → named (fill_vnic src l) ≡ named l
unfolding fill_vnic
fill_vnic-named src l = ground arith

fill-named : (src : LinkSources) (l : LinkInfo) → named (fill src l) ≡ named l
fill-named src l = ground (
  arith,
  fill_phys-named src l,
  fill_aggr-named src l,
  fill_vlan-named src l,
  fill_vnic-named src l,
)

share_mac-named : (ls : List LinkInfo) (l : LinkInfo) → named (share_mac ls l) ≡ named l
share_mac-named ls l = ground arith

assembled-named :
    (src : LinkSources) (ls : List LinkInfo) (rows : List LinkRow)
    → map named (map (share_mac ls) (map (λ r. fill src (bare r)) rows))
      ≡ map (λ r. (r.name, r.kind)) rows
assembled-named src ls [] = refl
assembled-named src ls (r ∷ rows) =
    cons_eq (share_mac-named ls (fill src (bare r)) ∙ fill-named src (bare r))
      (assembled-named src ls rows)
  where
    cons_eq :
        {a b : Text × LinkKind} {us vs : List (Text × LinkKind)}
        → a ≡ b
        → us ≡ vs
        → ◌≡◌ {A = List (Text × LinkKind)} (a ∷ us) (b ∷ vs)
    cons_eq p q = cc

abbrev is_vlan : LinkInfo → Bool
is_vlan l = same_kind l.kind vlan

-- The first link of a name is the one that the first loop made, but for its address.
find-share_mac :
    (name : Text) (ls rest : List LinkInfo)
    → find? (λ l. same_text l.name name) (map (share_mac ls) rest)
      ≡ (elim (find? (λ l. same_text l.name name) rest) [
        | none ↦ none
        | some l ↦ some (share_mac ls l)
      ])
find-share_mac name ls [] = refl
find-share_mac name ls (l ∷ rest) =
    ground (arith, find-share_mac name ls rest, ap (λ p. p.0) (share_mac-named ls l))

abbrev find_link : Text → List LinkInfo → Option LinkInfo
find_link name ls = find? (λ l. same_text l.name name) ls

-- The first link of a name, if it is no VLAN, has the address that it had in the first loop.
mac_of_link-share_mac :
    (name : Text) (ls : List LinkInfo)
    → is_some_and (find_link name (map (share_mac ls) ls)) is_vlan ≡ false
    → mac_of_link name (map (share_mac ls) ls) ≡ mac_of_link name ls
mac_of_link-share_mac name ls h = ground (arith, find-share_mac name ls ls)

-- The address of a VLAN that lies on no VLAN.
abbrev pub SharesMac : List LinkInfo → LinkInfo → Type 0
SharesMac out l =
    (parent : Text) (more : List Text)
    → is_vlan l ≡ true
    → l.over ≡ parent ∷ more
    → is_some_and (find_link parent out) is_vlan ≡ false
    → l.mac ≡ mac_of_link parent out

share_mac-SharesMac :
    (ls : List LinkInfo) (x : LinkInfo) → SharesMac (map (share_mac ls) ls) (share_mac ls x)
share_mac-SharesMac ls x parent more v over h = own ∙ sym (mac_of_link-share_mac parent ls h)
  where
    own : (share_mac ls x).mac ≡ mac_of_link parent ls
    own = ground arith

share_mac-All :
    (ls rest : List LinkInfo) → All (SharesMac (map (share_mac ls) ls)) (map (share_mac ls) rest)
share_mac-All ls [] = tt
share_mac-All ls (x ∷ rest) = (share_mac-SharesMac ls x, share_mac-All ls rest)

-- The outputs of the tools are put together to one link for each row of the first, in order, with
-- its name and kind; a VLAN has the MAC address of the first link of the name that it lies over, or
-- none if there is no such link, unless that link is itself a VLAN.
pub assemble-exact :
    (src : LinkSources)
    → (map named (assemble src) ≡ map (λ r. (r.name, r.kind)) src.links)
      × All (SharesMac (assemble src)) (assemble src)
unfolding assemble
assemble-exact src =
    (assembled-named src (filled src) src.links, share_mac-All (filled src) (filled src))
