-- ===== src/Zones.antt =====
-- crates/mandrake-zones/src/fake.rs: the in-memory zones driver, with the types of types.rs, the zone
-- states of mandrake-core/src/zone.rs, and the tests on names of parse.rs. A map is a list of its
-- entries, so `list`, which shows their order, is left out.
pub mod Driver
pub mod Calls
pub mod Others
pub mod Retained
pub mod Attributes
pub mod Size
pub mod Parse
pub mod Zoneadm
pub mod Listed
pub mod Render
pub mod RoundTrip
use mandrake.Common.{
  ℕ, ◌+◌, ◌≡◌, Bool, true, false, not, ◌&&◌, ◌||◌, List, [], ◌∷◌, ◌++◌, Option, none, some, leb,
  if◌then◌else◌, ◌==◌, any, all, keep, is_some_and,
}
use mandrake.Common.Map.{lookup, contains, insert, remove}
use mandrake.Common.Text.{Text, codes, same_text, text_dec}
use mandrake.Common.Text.Parts.{strip_prefix, utf8_len}

pub data ZoneState : Type 0 where
  configured incomplete installed ready running shutting_down down unavailable : ZoneState

abbrev rank : ZoneState → ℕ
rank configured = 0
rank incomplete = 1
rank installed = 2
rank ready = 3
rank running = 4
rank shutting_down = 5
rank down = 6
rank unavailable = 7

abbrev pub same_state : ZoneState → ZoneState → Bool
same_state a b = rank a == rank b

abbrev pub as_str : ZoneState → Text
as_str configured = codes "configured"
as_str incomplete = codes "incomplete"
as_str installed = codes "installed"
as_str ready = codes "ready"
as_str running = codes "running"
as_str shutting_down = codes "shutting_down"
as_str down = codes "down"
as_str unavailable = codes "unavailable"

pub record ZoneNic : Type 0 where
  pub name : Text
  pub over : Text
  pub mac : Option Text
  pub vid : Option ℕ
  pub address : Option Text
  pub gateway : Option Text

pub record ZoneFs : Type 0 where
  pub dir : Text
  pub special : Text
  pub fs_type : Text
  pub options : List Text

-- A cap on CPUs is the bits of its `f64`.
pub record ZoneConfig : Type 0 where
  pub name : Text
  pub brand : Text
  pub zonepath : Text
  pub autoboot : Bool
  pub ip_type : Text
  pub nics : List ZoneNic
  pub cpu_cap : Option ℕ
  pub memory_cap : Option ℕ
  pub attrs : List (Text × Text)
  pub datasets : List Text
  pub devices : List Text
  pub fs : List ZoneFs
  pub other : List Text

pub record ZoneSpec : Type 0 where
  pub name : Text
  pub brand : Text
  pub zonepath : Text
  pub autoboot : Bool
  pub nics : List ZoneNic
  pub cpu_cap : Option ℕ
  pub memory_cap : Option ℕ
  pub devices : List Text
  pub fs : List ZoneFs
  pub attrs : List (Text × Text)

pub record Entry : Type 0 where
  pub config : ZoneConfig
  pub state : ZoneState

abbrev pub Zones : Type 0
Zones = List (Text × Entry)

-- The message of a tool that failed, output that was not understood, `NotFound`, and a request that
-- the tools cannot express.
pub data ZoneError : Type 0 where
  command : Text → ZoneError
  parse : Text → Text → ZoneError
  absent : Text → ZoneError
  unsupported : Text → ZoneError

pub data Outcome {ℓ} (A : Type ℓ) : Type ℓ where
  ok : A → Outcome A
  err : ZoneError → Outcome A

-- What `?` does with a call's result.
abbrev pub and_then {ℓ κ} : {A : Type ℓ} {B : Type κ} → Outcome A → (A → Outcome B) → Outcome B
and_then (ok a) f = f a
and_then (err e) f = err e

abbrev pub Answer : Type 0
Answer = Outcome (Unit {0}) × Zones

abbrev pub not_found : Text → ZoneError
not_found name = command (codes "zonecfg: zone '" ++ name ++ codes "': No such zone configured")

abbrev refused : Text → Text → ZoneError
refused name why = command (codes "zoneadm: zone '" ++ name ++ codes "': " ++ why)

abbrev pub state_of : Text → Zones → Option ZoneState
state_of name zones = elim (lookup text_dec name zones) [ none ↦ none | some e ↦ some e.state ]

unfoldable pub transition : Text → List ZoneState → ZoneState → Text → Zones → Answer
transition name allowed next refusal zones = elim (lookup text_dec name zones) [
  | none ↦ (err (not_found name), zones)
  | some e ↦
      if not (any (same_state e.state) allowed)
      then (err (refused name (refusal ++ codes " (state " ++ as_str e.state ++ codes ")")), zones)
      else (ok tt, insert text_dec name (record e { state = next }) zones)
]

-- `is_ascii_digit`, `is_ascii_alphanumeric`
abbrev pub ascii_digit : ℕ → Bool
ascii_digit c = leb b'0' c && leb c b'9'

abbrev pub ascii_alphanumeric : ℕ → Bool
ascii_alphanumeric c = ascii_digit c || (leb b'a' c && leb c b'z') || (leb b'A' c && leb c b'Z')

abbrev pub plain_attrs : List Text
plain_attrs =
    codes "hostname"
    ∷ codes "resolvers"
    ∷ codes "vcpus"
    ∷ codes "ram"
    ∷ codes "bootrom"
    ∷ codes "acpi"
    ∷ codes "vnc"
    ∷ codes "xhci"
    ∷ codes "bootdisk"
    ∷ codes "extra"
    ∷ codes "rng"
    ∷ codes "hostbridge"
    ∷ []

unfoldable pub is_managed_attr : Text → Bool
is_managed_attr key =
    any (same_text key) plain_attrs
    || any (λ p. is_some_and (strip_prefix p key) (all ascii_digit))
        (codes "disk" ∷ codes "cdrom" ∷ [])

abbrev head_ok : Text → Bool
head_ok [] = false
head_ok (c ∷ s) = ascii_alphanumeric c

-- The name's bytes are tested; those of a character beyond ASCII pass no test, as it does not.
unfoldable pub valid_zone_name : Text → Bool
valid_zone_name name =
    leb 1 (utf8_len name)
    && leb (utf8_len name) 63
    && head_ok name
    && all (λ c. ascii_alphanumeric c || c == b'_' || c == b'.' || c == b'-') name
    && not (same_text name (codes "global"))

abbrev pub insert_all : List (Text × Text) → List (Text × Text) → List (Text × Text)
insert_all [] m = m
insert_all ((k, v) ∷ more) m = insert_all more (insert text_dec k v m)

unfoldable pub apply_spec : ZoneSpec → ZoneConfig → ZoneConfig
apply_spec spec config = record config {
  autoboot = spec.autoboot;
  nics = spec.nics;
  cpu_cap = spec.cpu_cap;
  memory_cap = spec.memory_cap;
  devices = spec.devices;
  fs = spec.fs;
  attrs =
      insert_all spec.attrs
        (keep (λ e. not (is_managed_attr e.0) || contains text_dec e.0 spec.attrs) config.attrs);
}
