-- ===== src/Zones/Zoneadm.antt =====
-- `zoneadm_list` of crates/mandrake-zones/src/parse.rs: the output of `zoneadm list -pc`.
use mandrake.Common.{Bool, ◌||◌, List, [], ◌∷◌, ◌++◌, Option, none, some, if◌then◌else◌}
use mandrake.Common.Text.{Text, codes, same_text}
use mandrake.Common.Text.Parts.{trim, split}
use mandrake.Common.Text.Lines.{lines}
use mandrake.Zones.{
  ZoneState, configured, incomplete, installed, ready, running, shutting_down, down, unavailable,
  ZoneError, parse, Outcome, ok, err, and_then,
}

-- `from_zoneadm`; `mounted` counts as installed.
unfoldable pub from_zoneadm : Text → ZoneState
from_zoneadm s =
    if same_text s (codes "configured")
    then configured
    else if same_text s (codes "incomplete")
    then incomplete
    else if same_text s (codes "installed") || same_text s (codes "mounted")
    then installed
    else if same_text s (codes "ready")
    then ready
    else if same_text s (codes "running")
    then running
    else if same_text s (codes "shutting_down")
    then shutting_down
    else if same_text s (codes "down")
    then down
    else unavailable

pub record ZoneSummary : Type 0 where
  pub name : Text
  pub state : ZoneState
  pub brand : Text
  pub zonepath : Text
  pub uuid : Option Text
  pub exclusive_ip : Bool

abbrev pub too_few : Text → ZoneError
too_few line = parse (codes "zoneadm list") (codes "expected 7 fields: " ++ line)

abbrev pub summary : Text → Text → Text → Text → Text → Text → ZoneSummary
summary name state zonepath uuid brand ip = record {
  name = name;
  state = from_zoneadm state;
  brand = brand;
  zonepath = zonepath;
  uuid = if same_text uuid [] then none else some uuid;
  exclusive_ip = same_text ip (codes "excl");
}

-- One line of seven fields or more; none for the global zone.
abbrev pub row_of : Text → List Text → Outcome (Option ZoneSummary)
row_of line (id ∷ name ∷ state ∷ zonepath ∷ uuid ∷ brand ∷ ip ∷ more) =
    if same_text name (codes "global")
    then ok none
    else ok (some (summary name state zonepath uuid brand ip))
row_of line few = err (too_few line)

abbrev pub zoneadm_row : Text → Outcome (Option ZoneSummary)
zoneadm_row line = row_of line (split b':' line)

-- Blank lines are left out, and the global zone.
unfoldable pub zoneadm_rows : List Text → Outcome (List ZoneSummary)
zoneadm_rows [] = ok []
zoneadm_rows (line ∷ more) =
    if same_text (trim line) []
    then zoneadm_rows more
    else and_then (zoneadm_row line) (λ row.
      and_then (zoneadm_rows more) (λ rest. ok (elim row [ none ↦ rest | some z ↦ z ∷ rest ])))

unfoldable pub zoneadm_list : Text → Outcome (List ZoneSummary)
zoneadm_list out = zoneadm_rows (lines out)
