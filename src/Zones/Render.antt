-- ===== src/Zones/Render.antt =====
-- The renderers of crates/mandrake-zones/src/parse.rs: the zonecfg subcommands that create a zone,
-- change it, and set one attribute.
use mandrake.Common.{
  ℕ, Bool, true, false, not, ◌&&◌, List, [], ◌∷◌, ◌++◌, Option, none, some, is_some, if◌then◌else◌,
}
use mandrake.Common.Float.{Float}
use mandrake.Common.Map.{contains}
use mandrake.Common.Text.{Text, codes, text_dec}
use mandrake.Common.Text.Decimal.{show}
use mandrake.Zones.{ZoneNic, ZoneFs, ZoneConfig, ZoneSpec, is_managed_attr}

-- A loop that pushes lines for each element.
abbrev pub for_each {ℓ} : {A : Type ℓ} → (A → List Text) → List A → List Text
for_each f [] = []
for_each f (x ∷ xs) = f x ++ for_each f xs

abbrev pub if_some {ℓ} : {A : Type ℓ} → (A → Text) → Option A → List Text
if_some f none = []
if_some f (some x) = f x ∷ []

abbrev pub set : Text → Text → Text
set key value = codes "set " ++ key ++ b'=' ∷ value

unfoldable pub nic_commands : ZoneNic → List Text
nic_commands nic =
    codes "add anet"
      ∷ set (codes "linkname") nic.name
      ∷ set (codes "lower-link") nic.over
      ∷ if_some (set (codes "mac-address")) nic.mac
    ++ if_some (λ vid. set (codes "vlan-id") (show vid)) nic.vid
    ++ if_some (set (codes "allowed-address")) nic.address
    ++ if_some (set (codes "defrouter")) nic.gateway
    ++ codes "end" ∷ []

abbrev pub block : Text → Text → List Text
block kind line = kind ∷ line ∷ codes "end" ∷ []

abbrev pub cpu_commands : Float → Option ℕ → List Text
cpu_commands float none = []
cpu_commands float (some c) =
    block (codes "add capped-cpu") (set (codes "ncpus") (float.to_string c))

abbrev pub memory_commands : Option ℕ → List Text
memory_commands none = []
memory_commands (some m) = block (codes "add capped-memory") (set (codes "physical") (show m))

unfoldable pub cap_commands : Float → ZoneSpec → List Text
cap_commands float spec = cpu_commands float spec.cpu_cap ++ memory_commands spec.memory_cap

abbrev pub device_command : Text → List Text
device_command m = block (codes "add device") (set (codes "match") m)

unfoldable pub device_commands : ZoneSpec → List Text
device_commands spec = for_each device_command spec.devices

abbrev pub option_command : Text → List Text
option_command o = (codes "add options " ++ o) ∷ []

abbrev pub fs_command : ZoneFs → List Text
fs_command f =
    codes "add fs"
      ∷ set (codes "dir") f.dir
      ∷ set (codes "special") f.special
      ∷ set (codes "type") f.fs_type
      ∷ for_each option_command f.options
    ++ codes "end" ∷ []

unfoldable pub fs_commands : ZoneSpec → List Text
fs_commands spec = for_each fs_command spec.fs

abbrev pub quote : Text → Text
quote value = b'"' ∷ value ++ b'"' ∷ []

unfoldable pub attr_add : Text → Text → List Text
attr_add key value =
    codes "add attr"
    ∷ set (codes "name") key
    ∷ codes "set type=string"
    ∷ set (codes "value") (quote value)
    ∷ codes "end"
    ∷ []

abbrev pub bool_text : Bool → Text
bool_text true = codes "true"
bool_text false = codes "false"

unfoldable pub render_create : Float → ZoneSpec → List Text
render_create float spec =
    (codes "create -b"
      ∷ set (codes "brand") spec.brand
      ∷ set (codes "zonepath") spec.zonepath
      ∷ set (codes "autoboot") (bool_text spec.autoboot)
      ∷ codes "set ip-type=exclusive"
      ∷ [])
    ++ for_each nic_commands spec.nics
    ++ cap_commands float spec
    ++ device_commands spec
    ++ fs_commands spec
    ++ for_each (λ e. attr_add e.0 e.1) spec.attrs
    ++ codes "commit" ∷ []

abbrev pub when : Bool → Text → List Text
when true line = line ∷ []
when false line = []

abbrev pub nonempty {ℓ} : {A : Type ℓ} → List A → Bool
nonempty [] = false
nonempty (x ∷ xs) = true

abbrev pub attr_change : Text → Text → List Text
attr_change key value =
    (codes "select attr name=" ++ key) ∷ set (codes "value") (quote value) ∷ codes "end" ∷ []

unfoldable pub attr_update : ZoneConfig → Text × Text → List Text
attr_update current (key, value) =
    if contains text_dec key current.attrs then attr_change key value else attr_add key value

unfoldable pub attr_remove : ZoneSpec → Text × Text → List Text
attr_remove spec (key, value) =
    when (is_managed_attr key && not (contains text_dec key spec.attrs))
      (codes "remove attr name=" ++ key)

unfoldable pub render_update : Float → ZoneConfig → ZoneSpec → List Text
render_update float current spec =
    set (codes "autoboot") (bool_text spec.autoboot)
      ∷ when (nonempty current.nics) (codes "remove -F anet")
    ++ for_each nic_commands spec.nics
    ++ when (is_some current.cpu_cap) (codes "remove -F capped-cpu")
    ++ when (is_some current.memory_cap) (codes "remove -F capped-memory")
    ++ cap_commands float spec
    ++ when (nonempty current.devices) (codes "remove -F device")
    ++ when (nonempty current.fs) (codes "remove -F fs")
    ++ device_commands spec
    ++ fs_commands spec
    ++ for_each (attr_update current) spec.attrs
    ++ for_each (attr_remove spec) current.attrs
    ++ codes "commit" ∷ []

unfoldable pub render_set_attr : Text → Text → Bool → List Text
render_set_attr key value exists =
    (if exists then attr_change key value else attr_add key value) ++ codes "commit" ∷ []
