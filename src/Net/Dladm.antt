-- ===== src/Net/Dladm.antt =====
-- The rows of `dladm show-…` in parse.rs of crates/mandrake-net.
use mandrake.Common.{
  ℕ, ◌-◌, ◌^◌, ◌==◌, Bool, not, ◌||◌, List, [], ◌∷◌, ◌++◌, Option, none, some, if◌then◌else◌, map,
  keep, any,
}
use mandrake.Common.Text.{Text, codes, same_text}
use mandrake.Common.Text.Parts.{cons_head}
use mandrake.Common.Text.Lines.{lines}
use mandrake.Common.Text.Decimal.{parse_uint}
use mandrake.Net.{
  LinkKind, LinkState, MacMode, Duplex, LacpMode, LacpTimer, parse, Outcome, ok, err, and_then,
}
use mandrake.Net.Fields.{rows, field}
use mandrake.Net.Spelled.{
  opt, speed_mbps, from_class, link_state, mac_mode, duplex, lacp_mode, lacp_timer, mac_or_lower,
  opt_mac,
}

pub record LinkRow : Type 0 where
  pub name : Text
  pub kind : LinkKind
  pub mtu : Option ℕ
  pub state : LinkState
  pub over : List Text

-- `split` at spaces and commas
abbrev split_names : Text → List Text
split_names [] = [] ∷ []
split_names (c ∷ s) =
    let rest = split_names s in if c == b' ' || c == b',' then [] ∷ rest else cons_head c rest

abbrev names_over : Option Text → List Text
names_over none = []
names_over (some s) = keep (λ w. not (same_text w [])) (split_names s)

abbrev parsed : ℕ → Option Text → Option ℕ
parsed most none = none
parsed most (some s) = parse_uint most s

abbrev pub link_row : List Text → LinkRow
link_row f = record {
  name = field 0 f;
  kind = from_class (field 1 f);
  mtu = parsed (2 ^ 32 - 1) (opt (field 2 f));
  state = link_state (field 3 f);
  over = names_over (opt (field 5 f));
}

-- `into_iter().map(...).collect()` of what was read
abbrev pub map_rows : {A : Type 0} → (List Text → A) → Outcome (List (List Text)) → Outcome (List A)
map_rows f read = and_then read (λ fs. ok (map f fs))

unfoldable pub show_link : Text → Outcome (List LinkRow)
show_link out = map_rows link_row (rows (codes "dladm show-link") 6 (lines out))

pub record PhysRow : Type 0 where
  pub name : Text
  pub media : Option Text
  pub state : LinkState
  pub speed_mbps : Option ℕ
  pub duplex : Option Duplex
  pub device : Option Text

abbrev pub phys_row : List Text → PhysRow
phys_row f = record {
  name = field 0 f;
  media = opt (field 1 f);
  state = link_state (field 2 f);
  speed_mbps = speed_mbps (field 3 f);
  duplex = duplex (field 4 f);
  device = opt (field 5 f);
}

unfoldable pub show_phys : Text → Outcome (List PhysRow)
show_phys out = map_rows phys_row (rows (codes "dladm show-phys") 6 (lines out))

abbrev pub has_mac : Text → List (Text × Text) → Bool
has_mac name macs = any (λ e. same_text e.0 name) macs

-- The first entry of the name gets the address.
abbrev pub put_mac : Text → Text → List (Text × Text) → List (Text × Text)
put_mac name mac [] = []
put_mac name mac ((n, m) ∷ macs) =
    let rest = put_mac name mac macs in if same_text n name then (n, mac) ∷ macs else (n, m) ∷ rest

-- One row: a later one replaces an earlier one only from the primary slot.
abbrev pub add_mac : List Text → List (Text × Text) → List (Text × Text)
add_mac f macs = elim (opt (field 2 f)) [
  | none ↦ macs
  | some raw ↦
      if has_mac (field 0 f) macs
      then (if same_text (field 1 f) (codes "primary")
          then put_mac (field 0 f) (mac_or_lower raw) macs
          else macs)
      else macs ++ (field 0 f, mac_or_lower raw) ∷ []
]

abbrev pub add_macs : List (List Text) → List (Text × Text) → List (Text × Text)
add_macs [] macs = macs
add_macs (f ∷ fs) macs = add_macs fs (add_mac f macs)

unfoldable pub show_phys_macs : Text → Outcome (List (Text × Text))
show_phys_macs out =
    and_then (rows (codes "dladm show-phys -m") 5 (lines out)) (λ fs. ok (add_macs fs []))

pub record AggrRow : Type 0 where
  pub name : Text
  pub policy : Text
  pub lacp_mode : LacpMode
  pub lacp_timer : LacpTimer

abbrev pub aggr_row : List Text → AggrRow
aggr_row f = record {
  name = field 0 f;
  policy = field 1 f;
  lacp_mode = lacp_mode (field 3 f);
  lacp_timer = lacp_timer (field 4 f);
}

unfoldable pub show_aggr : Text → Outcome (List AggrRow)
show_aggr out = map_rows aggr_row (rows (codes "dladm show-aggr") 6 (lines out))

pub record AggrPortRow : Type 0 where
  pub aggr : Text
  pub port : Option Text
  pub speed_mbps : Option ℕ
  pub duplex : Option Duplex
  pub state : Text
  pub mac : Option Text
  pub port_state : Option Text

abbrev pub port_row : Text → List Text → AggrPortRow
port_row aggr f = record {
  aggr = aggr;
  port = opt (field 1 f);
  speed_mbps = speed_mbps (field 2 f);
  duplex = duplex (field 3 f);
  state = field 4 f;
  mac = opt_mac (field 5 f);
  port_state = opt (field 6 f);
}

-- A row without a link belongs to the last aggregation seen.
abbrev pub port_rows : Text → List (List Text) → List AggrPortRow
port_rows current [] = []
port_rows current (f ∷ fs) =
    let aggr = if same_text (field 0 f) [] then current else field 0 f in
    port_row aggr f ∷ port_rows aggr fs

unfoldable pub show_aggr_ports : Text → Outcome (List AggrPortRow)
show_aggr_ports out =
    and_then (rows (codes "dladm show-aggr -x") 7 (lines out)) (λ fs. ok (port_rows [] fs))

pub record VlanRow : Type 0 where
  pub name : Text
  pub vid : ℕ
  pub over : Text

abbrev pub vlan_row : List Text → Outcome VlanRow
vlan_row f = elim (parse_uint (2 ^ 16 - 1) (field 1 f)) [
  | none ↦ err (parse (codes "dladm show-vlan") (codes "bad vid: " ++ field 1 f))
  | some vid ↦ ok (record { name = field 0 f; vid = vid; over = field 2 f })
]

-- `collect()` into a `Result`: the first error wins.
unfoldable pub collect :
    {A : Type 0} → (List Text → Outcome A) → List (List Text) → Outcome (List A)
collect f [] = ok []
collect f (r ∷ rs) = and_then (f r) (λ a. and_then (collect f rs) (λ more. ok (a ∷ more)))

unfoldable pub show_vlan : Text → Outcome (List VlanRow)
show_vlan out = and_then (rows (codes "dladm show-vlan") 4 (lines out)) (collect vlan_row)

pub record VnicRow : Type 0 where
  pub name : Text
  pub over : Text
  pub speed_mbps : Option ℕ
  pub mac : Option Text
  pub mac_mode : MacMode
  pub vid : Option ℕ
  pub zone : Option Text

-- No VLAN is tagged 0.
abbrev tagged : Option ℕ → Option ℕ
tagged none = none
tagged (some v) = if v == 0 then none else some v

abbrev pub vnic_row : List Text → VnicRow
vnic_row f = record {
  name = field 0 f;
  over = field 1 f;
  speed_mbps = speed_mbps (field 2 f);
  mac = opt_mac (field 3 f);
  mac_mode = mac_mode (field 4 f);
  vid = tagged (parsed (2 ^ 16 - 1) (opt (field 5 f)));
  zone = opt (field 6 f);
}

unfoldable pub show_vnic : Text → Outcome (List VnicRow)
show_vnic out = map_rows vnic_row (rows (codes "dladm show-vnic") 7 (lines out))
