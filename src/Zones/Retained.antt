-- ===== src/Zones/Retained.antt =====
-- What calls of the driver of fake.rs leave of a zone.
use mandrake.Common.{◌≡◌, ◌≢◌, refl, true, false, List, [], ◌∷◌, arith, All, Option-cases, inl, inr}
use mandrake.Common.Map.{lookup, lookup-insert, lookup-remove}
use mandrake.Common.Text.{Text, codes, text_dec}
use mandrake.Zones.{
  ZoneState, configured, incomplete, installed, ready, running, shutting_down, down, ZoneSpec,
  Zones, same_state, transition,
}
use mandrake.Zones.Driver.{
  create, update, set_attr, install, boot, shutdown, halt, uninstall, delete,
}
use mandrake.Zones.Calls.{
  Call, creates, updates, sets, installs, boots, shuts_down, halts, uninstalls, deletes, perform,
  target, is_uninstall, perform_all, has_root, made, updated, attributed,
}
use mandrake.Zones.Others.{perform-others}

transition-root :
    (target : Text) (allowed : List ZoneState) (next : ZoneState) (why : Text) (zones : Zones)
    (name : Text)
    → same_state next configured ≡ false
    → has_root name zones ≡ true
    → has_root name (transition target allowed next why zones).1 ≡ true
unfolding transition
transition-root target allowed next why zones name made h =
    elim (Option-cases (lookup text_dec target zones)) [
      | inl e ↦ ground arith
      | inr (x, e) ↦
          ground (arith, lookup-insert text_dec name target (record x { state = next }) zones)
    ]

create-root :
    (spec : ZoneSpec) (name : Text) (zones : Zones)
    → has_root name zones ≡ true
    → has_root name (create spec zones).1 ≡ true
unfolding create
create-root spec name zones h =
    ground (arith, lookup-insert text_dec name spec.name (made spec) zones)

update-root :
    (spec : ZoneSpec) (name : Text) (zones : Zones)
    → has_root name zones ≡ true
    → has_root name (update spec zones).1 ≡ true
unfolding update
update-root spec name zones h = elim (Option-cases (lookup text_dec spec.name zones)) [
  | inl e ↦ ground arith
  | inr (x, e) ↦ ground (arith, lookup-insert text_dec name spec.name (updated spec x) zones)
]

set_attr-root :
    (n key value name : Text) (zones : Zones)
    → has_root name zones ≡ true
    → has_root name (set_attr n key value zones).1 ≡ true
unfolding set_attr
set_attr-root n key value name zones h = elim (Option-cases (lookup text_dec n zones)) [
  | inl e ↦ ground arith
  | inr (x, e) ↦ ground (arith, lookup-insert text_dec name n (attributed key value x) zones)
]

delete-root :
    (n name : Text) (zones : Zones)
    → has_root name zones ≡ true
    → has_root name (delete n zones).1 ≡ true
unfolding delete
delete-root n name zones h = ground (arith, lookup-remove text_dec name n zones)

boot-root :
    (n name : Text) (zones : Zones)
    → has_root name zones ≡ true
    → has_root name (boot n zones).1 ≡ true
unfolding boot
boot-root n name zones h = ground (
  arith,
  transition-root n (installed ∷ ready ∷ down ∷ []) running
      (codes "cannot boot: zone is not installed") zones name,
)

has_root-lookup :
    (name : Text) (v w : Zones)
    → lookup text_dec name w ≡ lookup text_dec name v
    → has_root name v ≡ true
    → has_root name w ≡ true
has_root-lookup name v w same h = ground arith

perform-root :
    (c : Call) (name : Text) (zones : Zones)
    → is_uninstall name c ≡ false
    → has_root name zones ≡ true
    → has_root name (perform c zones).1 ≡ true
unfolding install shutdown halt uninstall
perform-root (creates spec) name zones u h = create-root spec name zones h
perform-root (updates spec) name zones u h = update-root spec name zones h
perform-root (sets n key value) name zones u h = set_attr-root n key value name zones h
perform-root (installs n) name zones u h =
    transition-root n (configured ∷ incomplete ∷ []) installed (codes "zone is already installed")
      zones name refl h
perform-root (boots n) name zones u h = boot-root n name zones h
perform-root (shuts_down true n) name zones u h =
    transition-root n (running ∷ []) running (codes "zone is not running") zones name refl h
perform-root (shuts_down false n) name zones u h =
    transition-root n (running ∷ []) installed (codes "zone is not running") zones name refl h
perform-root (halts n) name zones u h =
    transition-root n (running ∷ ready ∷ shutting_down ∷ down ∷ installed ∷ []) installed
      (codes "zone is not running") zones name refl h
perform-root (uninstalls n) name zones u h =
    has_root-lookup name zones (uninstall n zones).1
      (perform-others (uninstalls n) name zones (λ same. different same)) h
  where
    different : n ≢ name
    different same = ground arith
perform-root (deletes n) name zones u h = delete-root n name zones h

-- A zone that is past `configured` is neither removed nor made `configured` again by any calls of
-- which none uninstalls it.
pub perform_all-keeps_root :
    (calls : List Call) (name : Text) (zones : Zones)
    → All (λ c. is_uninstall name c ≡ false) calls
    → has_root name zones ≡ true
    → has_root name (perform_all calls zones) ≡ true
unfolding perform_all
perform_all-keeps_root [] name zones none_uninstalls h = h
perform_all-keeps_root (c ∷ calls) name zones none_uninstalls h =
    perform_all-keeps_root calls name (perform c zones).1 none_uninstalls.1
      (perform-root c name zones none_uninstalls.0 h)
