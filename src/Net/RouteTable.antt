-- ===== src/Net/RouteTable.antt =====
-- No route is in the table twice, and a route that was added can be taken away again.
use mandrake.Common.{
  ◌≤◌, ◌≡◌, refl, ap, ◌∙◌, Bool, true, false, not, List, [], ◌∷◌, ◌++◌, Option, none, some, arith,
  any, count_if, count_if-append, Option-cases, inl, inr,
}
use mandrake.Common.Text.{Text}
use mandrake.Net.{
  same_family, AddressFamily, inet, inet6, RouteInfo, RouteSpec, State, ok, and_then, commit,
  require,
}
use mandrake.Net.Outcomes.{Turns, ok-Turns, err-Turns, and_then-Turns, commit-Turns, require-ok}
use mandrake.Net.Routes.{
  matches, matches_static, static_route, add_route, delete_route, remove_first, without_route,
}

matches-static_route : (spec : RouteSpec) → matches spec (static_route spec) ≡ true
unfolding matches
matches-static_route spec = elim spec.family [ inet ↦ ground arith | inet6 ↦ ground arith ]

-- What was put at the end is what is removed, where nothing else passes.
remove_first-append :
    (p : RouteInfo → Bool) (r : RouteInfo) (routes : List RouteInfo)
    → any p routes ≡ false
    → p r ≡ true
    → remove_first p (routes ++ r ∷ []) ≡ some routes
unfolding remove_first
remove_first-append p r [] h e = ground arith
remove_first-append p r (q ∷ routes) h e = ground (arith, remove_first-append p r routes)

any-matches_static :
    (spec : RouteSpec) (routes : List RouteInfo)
    → any (matches spec) routes ≡ false
    → any (matches_static spec) routes ≡ false
any-matches_static spec [] h = refl
any-matches_static spec (r ∷ routes) h = ground (arith, any-matches_static spec routes)

abbrev added : RouteSpec → State → State
added spec s = record s { routes = s.routes ++ static_route spec ∷ [] }

add_route-added :
    (is_ip : Text → Bool) (spec : RouteSpec) (s : State)
    → (add_route is_ip spec s).0 ≡ ok tt
    → (any (matches spec) s.routes ≡ false) × ((add_route is_ip spec s).1 ≡ added spec s)
unfolding add_route commit and_then require
add_route-added is_ip spec s h = ground arith

-- A route that was added is taken away again by the request that names it, which leaves the state
-- from before.
pub delete_route-add_route :
    (is_ip : Text → Bool) (spec : RouteSpec) (s : State)
    → (add_route is_ip spec s).0 ≡ ok tt
    → delete_route spec (add_route is_ip spec s).1 ≡ (ok tt, s)
unfolding delete_route without_route commit
delete_route-add_route is_ip spec s h =
    ap (delete_route spec) (add_route-added is_ip spec s h).1
    ∙ ap (λ left. commit (without_route spec left (added spec s)) (added spec s))
        (remove_first-append (matches_static spec) (static_route spec) s.routes
          (any-matches_static spec s.routes (add_route-added is_ip spec s h).0)
          (matches-static_route spec))

-- At most one route of a family, to a destination and over a gateway.
abbrev pub NoneTwice : State → Type 0
NoneTwice s = (asked : RouteSpec) → count_if (matches asked) s.routes ≤ 1

count_if-none :
    (p : RouteInfo → Bool) (routes : List RouteInfo) → any p routes ≡ false → count_if p routes ≡ 0
count_if-none p [] h = refl
count_if-none p (r ∷ routes) h = ground (arith, count_if-none p routes)

family-same : (a b : AddressFamily) → same_family a b ≡ true → b ≡ a
family-same inet inet h = refl
family-same inet6 inet6 h = refl
family-same inet inet6 h = cc
family-same inet6 inet h = cc

matches-same : (asked spec : RouteSpec) → matches asked (static_route spec) ≡ true → asked ≡ spec
unfolding matches
matches-same asked spec h =
    cc (family-same spec.family asked.family (ground arith), destination, gateway)
  where
    destination : asked.destination ≡ spec.destination
    destination = ground arith

    gateway : asked.gateway ≡ spec.gateway
    gateway = ground arith

added-NoneTwice :
    (spec : RouteSpec) (s : State)
    → any (matches spec) s.routes ≡ false
    → NoneTwice s
    → NoneTwice (added spec s)
added-NoneTwice spec s new h asked = ground (
  arith,
  h asked,
  count_if-append (matches asked) s.routes (static_route spec ∷ []),
  count_if-none (matches spec) s.routes new,
  others,
)
  where
    others :
        matches asked (static_route spec) ≡ true
        → count_if (matches asked) s.routes ≡ count_if (matches spec) s.routes
    others hit = ap (λ a. count_if (matches a) s.routes) (matches-same asked spec hit)

remove_first-le :
    (p q : RouteInfo → Bool) (routes : List RouteInfo) (left : List RouteInfo)
    → remove_first p routes ≡ some left
    → count_if q left ≤ count_if q routes
unfolding remove_first
remove_first-le p q [] left e = cc
remove_first-le p q (r ∷ routes) left e = elim (Option-cases (remove_first p routes)) [
  | inl nothing ↦ ground arith
  | inr (rest, found) ↦ ground (arith, remove_first-le p q routes rest found)
]

pub add_route-NoneTwice :
    (is_ip : Text → Bool) (spec : RouteSpec) (s : State)
    → NoneTwice s
    → NoneTwice (add_route is_ip spec s).1
unfolding add_route
add_route-NoneTwice is_ip spec s h = commit-Turns NoneTwice _ s h (
    and_then-Turns NoneTwice _ _ (λ _ gateway. and_then-Turns NoneTwice _ _ (λ _ destination.
      and_then-Turns NoneTwice _ _
        (λ _ new. ok-Turns NoneTwice (added-NoneTwice spec s (unseen _ new) h)))))
  where
    unseen :
        (message : Text) {u : Unit {0}}
        → require (not (any (matches spec) s.routes)) message ≡ ok u
        → any (matches spec) s.routes ≡ false
    unseen message e = ground (arith, require-ok _ message e)

pub delete_route-NoneTwice :
    (spec : RouteSpec) (s : State) → NoneTwice s → NoneTwice (delete_route spec s).1
unfolding delete_route without_route
delete_route-NoneTwice spec s h =
    commit-Turns NoneTwice _ s h (left (remove_first (matches_static spec) s.routes) refl)
  where
    left :
        (o : Option (List RouteInfo))
        → remove_first (matches_static spec) s.routes ≡ o
        → Turns NoneTwice (without_route spec o s)
    left none e = err-Turns NoneTwice _
    left (some routes) e = ok-Turns NoneTwice (λ asked.
        omega
          (arith, h asked, remove_first-le (matches_static spec) (matches asked) s.routes routes e))
