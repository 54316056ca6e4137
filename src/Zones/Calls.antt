-- ===== src/Zones/Calls.antt =====
-- Sequences of calls of the driver of fake.rs.
use mandrake.Common.{Bool, false, not, List, [], ◌∷◌, is_some_and}
use mandrake.Common.Map.{insert}
use mandrake.Common.Text.{Text, same_text, text_dec}
use mandrake.Zones.{configured, ZoneSpec, Entry, Zones, Answer, same_state, state_of, apply_spec}
use mandrake.Zones.Driver.{
  fresh, create, update, set_attr, install, boot, shutdown, halt, uninstall, delete,
}

-- A call of the driver that may change something.
pub data Call : Type 0 where
  creates : ZoneSpec → Call
  updates : ZoneSpec → Call
  sets : Text → Text → Text → Call
  installs : Text → Call
  boots : Text → Call
  shuts_down : Bool → Text → Call
  halts : Text → Call
  uninstalls : Text → Call
  deletes : Text → Call

abbrev pub perform : Call → Zones → Answer
perform (creates spec) = create spec
perform (updates spec) = update spec
perform (sets name key value) = set_attr name key value
perform (installs name) = install name
perform (boots name) = boot name
perform (shuts_down reboot name) = shutdown reboot name
perform (halts name) = halt name
perform (uninstalls name) = uninstall name
perform (deletes name) = delete name

abbrev pub target : Call → Text
target (creates spec) = spec.name
target (updates spec) = spec.name
target (sets name key value) = name
target (installs name) = name
target (boots name) = name
target (shuts_down reboot name) = name
target (halts name) = name
target (uninstalls name) = name
target (deletes name) = name

abbrev pub is_uninstall : Text → Call → Bool
is_uninstall name (uninstalls other) = same_text other name
is_uninstall name _ = false

unfoldable pub perform_all : List Call → Zones → Zones
perform_all [] zones = zones
perform_all (c ∷ calls) zones = perform_all calls (perform c zones).1

-- Configured zones are the only ones without a root.
abbrev pub has_root : Text → Zones → Bool
has_root name zones = is_some_and (state_of name zones) (λ s. not (same_state s configured))

abbrev pub made : ZoneSpec → Entry
made spec = record { config = apply_spec spec (fresh spec); state = configured }

abbrev pub updated : ZoneSpec → Entry → Entry
updated spec e = record e { config = apply_spec spec e.config }

abbrev pub attributed : Text → Text → Entry → Entry
attributed key value e = record e {
  config = record e.config { attrs = insert text_dec key value e.config.attrs };
}
