-- ===== src/Net/Links.antt =====
-- The calls of fake.rs on links.
use mandrake.Common.{
  ℕ, ◌+◌, ◌%◌, ◌^◌, Bool, true, false, not, ◌&&◌, ◌||◌, List, [], ◌∷◌, ◌++◌, Option, none, some,
  ltb, leb, if◌then◌else◌, ◌==◌, any, all, is_some_and, or_else, last?,
}
use mandrake.Common.Map.{lookup, contains, insert, remove}
use mandrake.Common.Text.{Text, codes, same_text, text_dec}
use mandrake.Common.Text.Parts.{utf8_len}
use mandrake.Common.Text.Decimal.{show, is_digit}
use mandrake.Net.{
  LinkKind, phys, aggr, vlan, etherstub, vnic, other, up, down, MacMode, Duplex, AggrPort, LinkInfo,
  new_link, AggrSpec, VlanSpec, VnicSpec, State, Outcome, ok, err, unsupported, and_then, Answer,
  commit, tool_error, require, same_kind, kind_text, is_up,
}
use mandrake.Net.Mac.{normalize_mac, next_count, mac_of}

-- `is_ascii_alphabetic`
abbrev pub ascii_alphabetic : ℕ → Bool
ascii_alphabetic c = (leb b'a' c && leb c b'z') || (leb b'A' c && leb c b'Z')

abbrev pub head_ok : Text → Bool
head_ok [] = false
head_ok (c ∷ s) = ascii_alphabetic c

unfoldable pub valid_link_name : Text → Bool
valid_link_name name =
    leb 1 (utf8_len name)
    && leb (utf8_len name) 31
    && head_ok name
    && all (λ c. ascii_alphabetic c || is_digit c || c == b'_') name
    && is_some_and (last? name) is_digit

unfoldable pub require_free : State → Text → Outcome (Unit {0})
require_free s name =
    if contains text_dec name s.links
    then tool_error (name ++ codes ": link name already exists")
    else require (valid_link_name name) (name ++ codes ": invalid link name")

unfoldable pub require_link : State → Text → Outcome LinkInfo
require_link s name = elim (lookup text_dec name s.links) [
  | none ↦ tool_error (name ++ codes ": object not found")
  | some l ↦ ok l
]

-- Some link lies on this one.
abbrev pub has_dependents : Text → List (Text × LinkInfo) → Bool
has_dependents name links = any (λ e. any (λ o. same_text o name) e.1.over) links

unfoldable pub require_unused : State → Text → Outcome (Unit {0})
require_unused s name =
    require (not (has_dependents name s.links || contains text_dec name s.interfaces))
      (name ++ codes ": link busy")

-- Whether a port is up, the speeds added, and the ports that are attached.
pub record Gathered : Type 0 where
  pub up : Bool
  pub speed : ℕ
  pub ports : List AggrPort

abbrev attach : Text → LinkInfo → Gathered → Gathered
attach name port g = record {
  up = g.up || is_up port.state;
  speed = (g.speed + or_else port.speed_mbps 0) % 2 ^ 32;
  ports =
      g.ports
      ++ record { name = name; state = codes "attached"; speed_mbps = port.speed_mbps } ∷ [];
}

unfoldable pub gather : State → List Text → Gathered → Outcome Gathered
gather s [] g = ok g
gather s (name ∷ names) g = and_then (require_link s name) (λ port.
    and_then (require (same_kind port.kind phys) (name ++ codes ": invalid: not a physical link"))
      (λ _. and_then (require_unused s name) (λ _. gather s names (attach name port g))))

abbrev is_empty : List Text → Bool
is_empty [] = true
is_empty (x ∷ xs) = false

abbrev pub none_gathered : Gathered
none_gathered = record { up = false; speed = 0; ports = [] }

-- The MAC address of the first port.
abbrev first_mac : State → List Text → Option Text
first_mac s [] = none
first_mac s (name ∷ names) = elim (lookup text_dec name s.links) [ none ↦ none | some p ↦ p.mac ]

abbrev pub new_aggr : AggrSpec → State → Gathered → LinkInfo
new_aggr spec s g = record (new_link spec.name aggr) {
  state = if g.up then up else down;
  mtu = some 1500;
  over = spec.ports;
  speed_mbps = if ltb 0 g.speed then some g.speed else none;
  duplex = some Duplex.full;
  mac = first_mac s spec.ports;
  aggr = some (record {
    policy = spec.policy;
    lacp_mode = spec.lacp_mode;
    lacp_timer = spec.lacp_timer;
    ports = g.ports;
  });
}

abbrev pub add_link : Text → LinkInfo → State → State
add_link name l s = record s { links = insert text_dec name l s.links }

unfoldable pub create_aggr : AggrSpec → State → Answer
create_aggr spec s =
    commit
      (and_then (require_free s spec.name) (λ _.
        and_then
          (require (not (is_empty spec.ports))
            (codes "invalid: an aggregation needs at least one port"))
          (λ _.
            and_then (gather s spec.ports none_gathered)
              (λ g. ok (add_link spec.name (new_aggr spec s g) s)))))
      s

abbrev pub valid_vid : ℕ → Bool
valid_vid vid = leb 1 vid && leb vid 4094

abbrev pub carries_vlan : LinkKind → Bool
carries_vlan phys = true
carries_vlan aggr = true
carries_vlan kind = false

abbrev pub carries_vnic : LinkKind → Bool
carries_vnic phys = true
carries_vnic aggr = true
carries_vnic etherstub = true
carries_vnic kind = false

abbrev pub new_vlan : VlanSpec → LinkInfo → LinkInfo
new_vlan spec over = record (new_link spec.name vlan) {
  state = over.state;
  mtu = over.mtu;
  mac = over.mac;
  over = spec.over ∷ [];
  vid = some spec.vid;
}

unfoldable pub create_vlan : VlanSpec → State → Answer
create_vlan spec s =
    commit
      (and_then (require_free s spec.name) (λ _.
        and_then (require (valid_vid spec.vid) (codes "invalid VLAN id")) (λ _.
          and_then (require_link s spec.over) (λ over.
            and_then
              (require (carries_vlan over.kind)
                (spec.over ++ codes ": invalid: VLANs sit on physical links or aggregations"))
              (λ _. ok (add_link spec.name (new_vlan spec over) s))))))
      s

abbrev pub new_etherstub : Text → LinkInfo
new_etherstub name = record (new_link name etherstub) { state = up; mtu = some 9000 }

unfoldable pub create_etherstub : Text → State → Answer
create_etherstub name s =
    commit (and_then (require_free s name) (λ _. ok (add_link name (new_etherstub name) s))) s

abbrev valid_tag : Option ℕ → Bool
valid_tag none = true
valid_tag (some vid) = valid_vid vid

-- The address that is given, or the next one, with the counter after it.
abbrev pub choose_mac : Option Text → State → Outcome ((Text × MacMode) × ℕ)
choose_mac none s = ok ((mac_of (next_count s), MacMode.random), next_count s)
choose_mac (some m) s = elim (normalize_mac m) [
  | none ↦ tool_error (m ++ codes ": invalid MAC address")
  | some mac ↦ ok ((mac, MacMode.fixed), s.next_mac)
]

abbrev option_or {ℓ} : {A : Type ℓ} → Option A → Option A → Option A
option_or none b = b
option_or (some a) b = some a

abbrev pub new_vnic : VnicSpec → LinkInfo → Text → MacMode → LinkInfo
new_vnic spec over mac mode = record (new_link spec.name vnic) {
  state = over.state;
  mtu = option_or spec.mtu over.mtu;
  over = spec.over ∷ [];
  speed_mbps = over.speed_mbps;
  vid = spec.vid;
  mac = some mac;
  mac_mode = some mode;
}

unfoldable pub create_vnic : VnicSpec → State → Answer
create_vnic spec s =
    commit
      (and_then (require_free s spec.name) (λ _. and_then (require_link s spec.over) (λ over.
        and_then
          (require (carries_vnic over.kind) (
            spec.over
            ++ codes ": invalid: VNICs sit on physical links, aggregations, or etherstubs"))
          (λ _. and_then (require (valid_tag spec.vid) (codes "invalid VLAN id")) (λ _.
            and_then (choose_mac spec.mac s) (λ c. ok (
              add_link spec.name (new_vnic spec over c.0.0 c.0.1)
                (record s { next_mac = c.1 }))))))))
      s

abbrev pub deletable : LinkKind → Bool
deletable phys = false
deletable other = false
deletable kind = true

unfoldable pub delete_link : Text → LinkKind → State → Answer
delete_link name kind s =
    commit
      (and_then (require_link s name) (λ link.
        if not (deletable kind)
        then err (unsupported (kind_text kind ++ codes " links cannot be deleted"))
        else and_then
            (require (same_kind link.kind kind)
              (name ++ codes ": invalid: not a " ++ kind_text kind))
            (λ _.
              and_then (require_unused s name)
                (λ _. ok (record s { links = remove text_dec name s.links })))))
      s

unfoldable pub set_mtu : Text → ℕ → State → Answer
set_mtu name mtu s =
    commit
      (and_then (require_link s name) (λ l.
        and_then
          (require (leb 576 mtu && leb mtu 9216) (name ++ codes ": invalid mtu " ++ show mtu))
          (λ _. ok (add_link name (record l { mtu = some mtu }) s))))
      s
