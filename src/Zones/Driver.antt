-- ===== src/Zones/Driver.antt =====
-- The operations of `impl Zones for FakeZones` of crates/mandrake-zones/src/fake.rs.
use mandrake.Common.{Bool, false, not, [], ◌∷◌, ◌++◌, none, some, any, if◌then◌else◌}
use mandrake.Common.Map.{lookup, contains, insert, remove}
use mandrake.Common.Text.{Text, codes, same_text, text_dec}
use mandrake.Zones.{
  configured, incomplete, installed, ready, running, shutting_down, down, ZoneConfig, ZoneSpec,
  Zones, command, absent, Outcome, ok, err, Answer, not_found, same_state, state_of, transition,
  valid_zone_name, apply_spec,
}

abbrev pub config_of : Text → Zones → Outcome ZoneConfig
config_of name zones = elim (lookup text_dec name zones) [
  | none ↦ err (absent name)
  | some e ↦ ok e.config
]

-- What `ZoneConfig::default()` leaves empty.
abbrev pub fresh : ZoneSpec → ZoneConfig
fresh spec = record {
  name = spec.name;
  brand = spec.brand;
  zonepath = spec.zonepath;
  autoboot = false;
  ip_type = codes "exclusive";
  nics = [];
  cpu_cap = none;
  memory_cap = none;
  attrs = [];
  datasets = [];
  devices = [];
  fs = [];
  other = [];
}

unfoldable pub create : ZoneSpec → Zones → Answer
create spec zones =
    if contains text_dec spec.name zones
    then (
      err (command (codes "zonecfg: zone '" ++ spec.name ++ codes "': Zone already exists")),
      zones,
    )
    else if not (valid_zone_name spec.name)
    then (err (command (codes "zonecfg: invalid zone name")), zones)
    else if any (λ e. same_text e.1.config.zonepath spec.zonepath) zones
    then (err (command (codes "zonecfg: zonepath " ++ spec.zonepath ++ codes " is in use")), zones)
    else (
      ok tt,
      insert text_dec spec.name
          (record { config = apply_spec spec (fresh spec); state = configured }) zones,
    )

unfoldable pub update : ZoneSpec → Zones → Answer
update spec zones = elim (lookup text_dec spec.name zones) [
  | none ↦ (err (not_found spec.name), zones)
  | some e ↦
      (ok tt, insert text_dec spec.name (record e { config = apply_spec spec e.config }) zones)
]

unfoldable pub set_attr : Text → Text → Text → Zones → Answer
set_attr name key value zones = elim (lookup text_dec name zones) [
  | none ↦ (err (not_found name), zones)
  | some e ↦ (
    ok tt,
    insert text_dec name
        (record e { config = record e.config { attrs = insert text_dec key value e.config.attrs } })
        zones,
  )
]

unfoldable pub install : Text → Zones → Answer
unfolding transition
install name =
    transition name (configured ∷ incomplete ∷ []) installed (codes "zone is already installed")

unfoldable pub boot : Text → Zones → Answer
unfolding transition
boot name zones =
    let boots =
      transition name (installed ∷ ready ∷ down ∷ []) running
        (codes "cannot boot: zone is not installed") zones in
    elim (state_of name zones) [
      | none ↦ (err (not_found name), zones)
      | some state ↦
          if same_state state running
          then (
            err (command (codes "zoneadm: zone '" ++ name ++ codes "': zone is already running")),
            zones,
          )
          else boots
    ]

unfoldable pub shutdown : Bool → Text → Zones → Answer
unfolding transition
shutdown reboot name =
    transition name (running ∷ []) (if reboot then running else installed)
      (codes "zone is not running")

unfoldable pub halt : Text → Zones → Answer
unfolding transition
halt name =
    transition name (running ∷ ready ∷ shutting_down ∷ down ∷ installed ∷ []) installed
      (codes "zone is not running")

unfoldable pub uninstall : Text → Zones → Answer
unfolding transition
uninstall name =
    transition name (installed ∷ incomplete ∷ down ∷ configured ∷ []) configured
      (codes "zone is running; cannot uninstall")

unfoldable pub delete : Text → Zones → Answer
delete name zones = elim (lookup text_dec name zones) [
  | none ↦ (err (not_found name), zones)
  | some e ↦
      if not (same_state e.state configured)
      then (
        err (
            command
              (codes "zonecfg: zone '" ++ name ++ codes "': zone is installed; cannot delete")),
        zones,
      )
      else (ok tt, remove text_dec name zones)
]
