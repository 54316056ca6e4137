-- ===== src/Net/WalkEnds.antt =====
-- The loop of `compute_protection` of crates/mandraked/src/routes/network.rs ends.
use mandrake.Common.{
  ℕ, zero, suc, ◌+◌, ◌≤◌, ◌≡◌, refl, ap, Bool, true, false, List, [], ◌∷◌, Option, arith,
  if◌then◌else◌, length, is_some,
}
use mandrake.Common.Text.{Text, text_dec}
use mandrake.Net.{LinkInfo, AddressInfo}
use mandrake.Net.Protect.{walk, push_all, beneath, total_over, seeds, compute_protection}
use mandrake.Zfs.Names.{is_in, same_text-sym}

-- What the links that were not seen may still push.
abbrev pending : List LinkInfo → List Text → ℕ
pending [] seen = 0
pending (l ∷ links) seen =
    let rest = pending links seen in if is_in l.name seen then rest else length l.over + rest

length-push_all :
    (over stack : List Text) → length (push_all over stack) ≡ length over + length stack
length-push_all [] stack = omega arith
length-push_all (o ∷ over) stack = omega (arith, length-push_all over (o ∷ stack))

pending-le :
    (links : List LinkInfo) (name : Text) (seen : List Text)
    → pending links (name ∷ seen) ≤ pending links seen
pending-le [] name seen = omega arith
pending-le (l ∷ links) name seen = ground (arith, pending-le links name seen)

pending-beneath :
    (links : List LinkInfo) (name : Text) (seen : List Text)
    → is_in name seen ≡ false
    → length (beneath name links) + pending links (name ∷ seen) ≤ pending links seen
pending-beneath [] name seen new = omega arith
pending-beneath (l ∷ links) name seen new = elim (text_dec l.name name) [
  | yes e ↦
      ground
        (arith, pending-le links name seen, same_text-sym l.name name, ap (λ n. is_in n seen) e)
  | no n ↦ ground (arith, pending-beneath links name seen, same_text-sym l.name name)
]

walk-ends :
    (links : List LinkInfo) (fuel : ℕ) (stack seen : List Text)
    → length stack + pending links seen ≤ fuel
    → is_some (walk links fuel stack seen) ≡ true
unfolding walk
walk-ends links fuel [] seen h = refl
walk-ends links zero (name ∷ stack) seen h = ground arith
walk-ends links (suc fuel) (name ∷ stack) seen h = ground (
  arith,
  walk-ends links fuel stack seen,
  walk-ends links fuel (push_all (beneath name links) stack) (name ∷ seen),
  length-push_all (beneath name links) stack,
  pending-beneath links name seen,
)

pending-total : (links : List LinkInfo) → pending links [] ≡ total_over links
pending-total [] = refl
pending-total (l ∷ links) = omega (arith, pending-total links)

module _ {Ip : Type 0} (parse_ip : Text → Option Ip) (same_ip : Ip → Ip → Bool) where
  -- The loop that collects the protected links ends within as many steps as there are interfaces to
  -- begin with and names that links lie over, even where links lie over one another in a circle.
  pub compute_protection-ends :
      (ips : List Ip) (links : List LinkInfo) (addresses : List AddressInfo)
      → is_some (compute_protection parse_ip same_ip ips links addresses) ≡ true
  unfolding compute_protection
  compute_protection-ends ips links addresses =
      ground
        (arith, walk-ends links (length stack + total_over links) stack [], pending-total links)
    where
      stack : List Text
      stack = seeds parse_ip same_ip ips addresses []
