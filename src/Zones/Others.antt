-- ===== src/Zones/Others.antt =====
-- What a call of the driver of fake.rs does to the zones that it does not name: nothing.
use mandrake.Common.{◌≡◌, ◌≢◌, List, [], ◌∷◌, if◌then◌else◌, arith, Option-cases, inl, inr}
use mandrake.Common.Map.{lookup, lookup-insert, lookup-remove}
use mandrake.Common.Text.{Text, codes, text_dec}
use mandrake.Zones.{
  ZoneState, configured, incomplete, installed, ready, running, shutting_down, down, ZoneSpec,
  Zones, transition,
}
use mandrake.Zones.Driver.{
  create, update, set_attr, install, boot, shutdown, halt, uninstall, delete,
}
use mandrake.Zones.Calls.{
  Call, creates, updates, sets, installs, boots, shuts_down, halts, uninstalls, deletes, perform,
  target, made, updated, attributed,
}

transition-others :
    (target : Text) (allowed : List ZoneState) (next : ZoneState) (why : Text) (zones : Zones)
    (name : Text)
    → target ≢ name
    → lookup text_dec name (transition target allowed next why zones).1 ≡ lookup text_dec name zones
unfolding transition
transition-others target allowed next why zones name other =
    elim (Option-cases (lookup text_dec target zones)) [
      | inl e ↦ ground arith
      | inr (x, e) ↦
          ground (arith, lookup-insert text_dec name target (record x { state = next }) zones)
    ]

create-others :
    (spec : ZoneSpec) (name : Text) (zones : Zones)
    → spec.name ≢ name
    → lookup text_dec name (create spec zones).1 ≡ lookup text_dec name zones
unfolding create
create-others spec name zones other =
    ground (arith, lookup-insert text_dec name spec.name (made spec) zones)

update-others :
    (spec : ZoneSpec) (name : Text) (zones : Zones)
    → spec.name ≢ name
    → lookup text_dec name (update spec zones).1 ≡ lookup text_dec name zones
unfolding update
update-others spec name zones other = elim (Option-cases (lookup text_dec spec.name zones)) [
  | inl e ↦ ground arith
  | inr (x, e) ↦ ground (arith, lookup-insert text_dec name spec.name (updated spec x) zones)
]

set_attr-others :
    (n key value name : Text) (zones : Zones)
    → n ≢ name
    → lookup text_dec name (set_attr n key value zones).1 ≡ lookup text_dec name zones
unfolding set_attr
set_attr-others n key value name zones other = elim (Option-cases (lookup text_dec n zones)) [
  | inl e ↦ ground arith
  | inr (x, e) ↦ ground (arith, lookup-insert text_dec name n (attributed key value x) zones)
]

-- Every call leaves the zones that it does not name as they were.
pub perform-others :
    (c : Call) (name : Text) (zones : Zones)
    → target c ≢ name
    → lookup text_dec name (perform c zones).1 ≡ lookup text_dec name zones
unfolding install boot shutdown halt uninstall delete
perform-others (creates spec) name zones other = create-others spec name zones other
perform-others (updates spec) name zones other = update-others spec name zones other
perform-others (sets n key value) name zones other = set_attr-others n key value name zones other
perform-others (installs n) name zones other =
    transition-others n (configured ∷ incomplete ∷ []) installed (codes "zone is already installed")
      zones name other
perform-others (boots n) name zones other = ground (
  arith,
  transition-others n (installed ∷ ready ∷ down ∷ []) running
      (codes "cannot boot: zone is not installed") zones name,
)
perform-others (shuts_down reboot n) name zones other =
    transition-others n (running ∷ []) (if reboot then running else installed)
      (codes "zone is not running") zones name other
perform-others (halts n) name zones other =
    transition-others n (running ∷ ready ∷ shutting_down ∷ down ∷ installed ∷ []) installed
      (codes "zone is not running") zones name other
perform-others (uninstalls n) name zones other =
    transition-others n (installed ∷ incomplete ∷ down ∷ configured ∷ []) configured
      (codes "zone is running; cannot uninstall") zones name other
perform-others (deletes n) name zones other = ground (arith, lookup-remove text_dec name n zones)
