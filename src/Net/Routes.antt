-- ===== src/Net/Routes.antt =====
-- The calls of fake.rs on routes.
use mandrake.Common.{
  Bool, true, not, ◌&&◌, ◌||◌, List, [], ◌∷◌, ◌++◌, Option, none, some, if◌then◌else◌, any,
  is_some_and,
}
use mandrake.Common.Text.{Text, codes, same_text}
use mandrake.Net.{
  static, same_family, is_static, RouteInfo, RouteSpec, State, Outcome, ok, and_then, Answer,
  commit, tool_error, require,
}
use mandrake.Net.Addresses.{split_prefix, valid_address}

-- A route of the family, to the destination and over the gateway that are asked for.
unfoldable pub matches : RouteSpec → RouteInfo → Bool
matches spec r =
    same_family r.family spec.family
    && same_text r.destination spec.destination
    && is_some_and r.gateway (λ g. same_text g spec.gateway)

abbrev pub static_route : RouteSpec → RouteInfo
static_route spec = record {
  destination = spec.destination;
  gateway = some spec.gateway;
  family = spec.family;
  interface = none;
  flags = some (codes "UG");
  kind = static;
  persistent = true;
}

unfoldable pub add_route : (Text → Bool) → RouteSpec → State → Answer
add_route is_ip spec s =
    commit
      (and_then
        (require (is_ip (split_prefix spec.gateway).0) (spec.gateway ++ codes ": bad address"))
        (λ _.
          and_then
            (require
              (same_text spec.destination (codes "default") || valid_address is_ip spec.destination)
              (spec.destination ++ codes ": bad address"))
            (λ _.
              and_then
                (require (not (any (matches spec) s.routes)) (
                  codes "add net "
                  ++ spec.destination
                  ++ codes ": gateway "
                  ++ spec.gateway
                  ++ codes ": entry exists"))
                (λ _. ok (record s { routes = s.routes ++ static_route spec ∷ [] })))))
      s

-- `position` and `remove`: without the first route that passes, if one does.
unfoldable pub remove_first : (RouteInfo → Bool) → List RouteInfo → Option (List RouteInfo)
remove_first p [] = none
remove_first p (r ∷ routes) =
    let rest = remove_first p routes in
    if p r then some routes else elim rest [ none ↦ none | some left ↦ some (r ∷ left) ]

abbrev pub matches_static : RouteSpec → RouteInfo → Bool
matches_static spec r = is_static r.kind && matches spec r

unfoldable pub without_route : RouteSpec → Option (List RouteInfo) → State → Outcome State
without_route spec none s = tool_error (
    codes "delete net "
    ++ spec.destination
    ++ codes ": gateway "
    ++ spec.gateway
    ++ codes ": not in table")
without_route spec (some left) s = ok (record s { routes = left })

unfoldable pub delete_route : RouteSpec → State → Answer
delete_route spec s = commit (without_route spec (remove_first (matches_static spec) s.routes) s) s
