-- ===== src/Zones/RoundTrip/Create.antt =====
-- All the commands that create a zone.
use mandrake.Common.{
  ℕ, ◌≡◌, refl, ap, ◌∙◌, ◌<◌, ◌^◌, Bool, true, false, List, [], ◌∷◌, ◌++◌, some, All, all,
  ℕ_discrete,
}
use mandrake.Common.Float.{Float, IsExact}
use mandrake.Common.Text.{Text, codes, same_text, text_dec}
use mandrake.Common.Text.Lines.{unlines, lines-unlines, is_line}
use mandrake.Common.Text.Parts.{trim, is_whitespace}
use mandrake.Zones.{ZoneConfig, ZoneSpec, ok, apply_spec}
use mandrake.Zones.Driver.{fresh}
use mandrake.Zones.Parse.{
  read_lines, read_line, read_trimmed, outside, set_global, trimmed_setting, named, finish,
  zonecfg_export, unquote,
}
use mandrake.Zones.Render.{
  set, for_each, bool_text, nic_commands, fs_command, device_command, attr_add, cpu_commands,
  memory_commands, cap_commands, device_commands, fs_commands, render_create,
}
use mandrake.Common.Text.Trim.{trim-IsPlain}
use mandrake.Zones.RoundTrip.Keys
use mandrake.Zones.RoundTrip.Settings.{IsKey, IsValue, unquote-IsValue, set-IsPlain, setting-set}
use mandrake.Zones.RoundTrip.Blocks.{read_lines-cons, read_lines-append}
use mandrake.Zones.RoundTrip.Kinds.{at_top}
use mandrake.Zones.RoundTrip.Nics.{IsCleanNic, read_lines-nic_commands}
use mandrake.Zones.RoundTrip.Caps.{
  IsCpuCap, read_lines-device_command, read_lines-attr_add, read_lines-cpu_commands,
  read_lines-memory_commands,
}
use mandrake.Zones.RoundTrip.FileSystems.{IsCleanFs, read_lines-fs_command}
use mandrake.Zones.RoundTrip.Each.{
  read_lines-for_each, add_nic, add_device, add_fs, set_attr, each-add_nic, each-add_device,
  each-add_fs, each-set_attr,
}

-- What the syntax of a command can carry: values that are not quoted have nothing to trim and no
-- quotes of their own, numbers fit, and no value has an end of line in it.
pub record IsCleanSpec (float : Float) (spec : ZoneSpec) : Type 0 where
  pub brand : IsValue spec.brand
  pub has_brand : same_text spec.brand [] ≡ false
  pub zonepath : IsValue spec.zonepath
  pub nics : All IsCleanNic spec.nics
  pub cpu_cap : (c : ℕ) → spec.cpu_cap ≡ some c → IsCpuCap float c
  pub memory_cap : (n : ℕ) → spec.memory_cap ≡ some n → n < 2 ^ 53
  pub devices : All IsValue spec.devices
  pub fs : All IsCleanFs spec.fs
  pub attrs : All (λ e. IsValue e.0) spec.attrs
  pub lines : all is_line (render_create float spec) ≡ true

-- Outside every block, the line sets the config's own field.
read_line-global :
    (float : Float) (cfg : ZoneConfig) (key v : Text)
    → IsKey key
    → IsValue v
    → read_line float (at_top cfg) (set key v) ≡ ok (at_top (set_global (set key v) key v cfg))
unfolding read_trimmed outside codes text_dec ℕ_discrete
read_line-global float cfg key v k h =
    ap (read_trimmed float (at_top cfg)) (trim-IsPlain (set key v) (set-IsPlain key v k h.plain))
    ∙ rw (setting-set key v k h.plain, unquote-IsValue v h) refl

bool_text-IsValue : (b : Bool) → IsValue (bool_text b)
unfolding codes is_whitespace
bool_text-IsValue true = record { plain = record { starts = refl; ends = refl }; bare = refl }
bool_text-IsValue false = record { plain = record { starts = refl; ends = refl }; bare = refl }

read_line-autoboot :
    (float : Float) (cfg : ZoneConfig) (b : Bool)
    → read_line float (at_top cfg) (set (codes "autoboot") (bool_text b))
      ≡ ok (at_top (record cfg { autoboot = b }))
unfolding codes text_dec ℕ_discrete
read_line-autoboot float cfg true =
    read_line-global float cfg (codes "autoboot") (bool_text true) Keys.autoboot
      (bool_text-IsValue true)
read_line-autoboot float cfg false =
    read_line-global float cfg (codes "autoboot") (bool_text false) Keys.autoboot
      (bool_text-IsValue false)

-- The commands up to the first block.
abbrev opening : ZoneSpec → List Text
opening spec =
    codes "create -b"
    ∷ set (codes "brand") spec.brand
    ∷ set (codes "zonepath") spec.zonepath
    ∷ set (codes "autoboot") (bool_text spec.autoboot)
    ∷ codes "set ip-type=exclusive"
    ∷ []

abbrev opened : ZoneSpec → ZoneConfig
opened spec = record (fresh spec) { autoboot = spec.autoboot }

read_lines-opening :
    (float : Float) (spec : ZoneSpec)
    → IsCleanSpec float spec
    → read_lines float (at_top (named spec.name)) (opening spec) ≡ ok (at_top (opened spec))
unfolding codes text_dec ℕ_discrete read_lines read_trimmed outside trimmed_setting trim
    is_whitespace unquote
read_lines-opening float spec h =
    let cfg = named spec.name in
    let last =
      set (codes "autoboot") (bool_text spec.autoboot) ∷ codes "set ip-type=exclusive" ∷ [] in
    let rest = set (codes "zonepath") spec.zonepath ∷ last in
    let branded = record cfg { brand = spec.brand } in
    let placed = record branded { zonepath = spec.zonepath } in
    let booted = record placed { autoboot = spec.autoboot } in
    read_lines-cons float (at_top cfg) (at_top cfg) (codes "create -b")
      (set (codes "brand") spec.brand ∷ rest) _ refl
      (read_lines-cons float (at_top cfg) (at_top branded) (set (codes "brand") spec.brand) rest _
        (read_line-global float cfg (codes "brand") spec.brand Keys.brand h.brand)
        (read_lines-cons float (at_top branded) (at_top placed)
          (set (codes "zonepath") spec.zonepath) last _
          (read_line-global float branded (codes "zonepath") spec.zonepath Keys.zonepath h.zonepath)
          (read_lines-cons float (at_top placed) (at_top booted)
            (set (codes "autoboot") (bool_text spec.autoboot)) (codes "set ip-type=exclusive" ∷ [])
            _ (read_line-autoboot float placed spec.autoboot) refl)))

-- A list of commands turns one config into another.
abbrev Turns : Float → ZoneConfig → List Text → ZoneConfig → Type 0
Turns float cfg commands next = read_lines float (at_top cfg) commands ≡ ok (at_top next)

then-Turns :
    (float : Float) (a b c : ZoneConfig) (s t : List Text)
    → Turns float a s b
    → Turns float b t c
    → Turns float a (s ++ t) c
then-Turns float a b c s t h k = read_lines-append float (at_top a) (at_top b) s t _ h k

-- The config with the parts that the spec gives, up to each group of commands.
abbrev networked : ZoneSpec → ZoneConfig
networked spec = record (opened spec) { nics = spec.nics }

abbrev capped : ZoneSpec → ZoneConfig
capped spec = record (networked spec) { cpu_cap = spec.cpu_cap; memory_cap = spec.memory_cap }

abbrev equipped : ZoneSpec → ZoneConfig
equipped spec = record (capped spec) { devices = spec.devices; fs = spec.fs }

cap_commands-Turns :
    (float : Float) (spec : ZoneSpec)
    → IsExact float
    → IsCleanSpec float spec
    → Turns float (networked spec) (cap_commands float spec) (capped spec)
unfolding cap_commands
cap_commands-Turns float spec exact h =
    then-Turns float _ (record (networked spec) { cpu_cap = spec.cpu_cap }) _
      (cpu_commands float spec.cpu_cap) (memory_commands spec.memory_cap)
      (read_lines-cpu_commands float _ spec.cpu_cap refl h.cpu_cap)
      (read_lines-memory_commands float _ spec.memory_cap exact refl h.memory_cap)

commit-Turns :
    (float : Float) (cfg : ZoneConfig)
    → Turns float cfg
        (codes "commit" ∷ [])
        (record cfg { other = cfg.other ++ codes "commit" ∷ [] })
unfolding codes text_dec ℕ_discrete read_lines read_trimmed outside trimmed_setting trim
    is_whitespace
commit-Turns float cfg = refl

-- Up to the caps.
capped-Turns :
    (float : Float) (spec : ZoneSpec)
    → IsExact float
    → IsCleanSpec float spec
    → Turns float
        (named spec.name)
        (opening spec ++ for_each nic_commands spec.nics ++ cap_commands float spec)
        (capped spec)
capped-Turns float spec exact h =
    then-Turns float _ (networked spec) _ _ (cap_commands float spec)
      (then-Turns float _ (opened spec) _ (opening spec) (for_each nic_commands spec.nics)
        (read_lines-opening float spec h)
        (read_lines-for_each float nic_commands add_nic IsCleanNic (read_lines-nic_commands float)
            spec.nics (opened spec) h.nics
          ∙ ap (λ c. ok (at_top c)) (each-add_nic spec.nics (opened spec))))
      (cap_commands-Turns float spec exact h)

device_commands-Turns :
    (float : Float) (spec : ZoneSpec)
    → IsCleanSpec float spec
    → Turns float
        (capped spec)
        (for_each device_command spec.devices)
        (record (capped spec) { devices = spec.devices })
device_commands-Turns float spec h =
    read_lines-for_each float device_command add_device IsValue (read_lines-device_command float)
      spec.devices (capped spec) h.devices
    ∙ ap (λ c. ok (at_top c)) (each-add_device spec.devices (capped spec))

fs_commands-Turns :
    (float : Float) (spec : ZoneSpec)
    → IsCleanSpec float spec
    → Turns float
        (record (capped spec) { devices = spec.devices })
        (for_each fs_command spec.fs)
        (equipped spec)
fs_commands-Turns float spec h =
    read_lines-for_each float fs_command add_fs IsCleanFs (read_lines-fs_command float) spec.fs _
      h.fs
    ∙ ap (λ c. ok (at_top c))
        (each-add_fs spec.fs (record (capped spec) { devices = spec.devices }))

attrs-Turns :
    (float : Float) (spec : ZoneSpec)
    → IsCleanSpec float spec
    → Turns float
        (equipped spec)
        (for_each (λ e. attr_add e.0 e.1) spec.attrs)
        (apply_spec spec (fresh spec))
unfolding apply_spec
attrs-Turns float spec h =
    read_lines-for_each float (λ e. attr_add e.0 e.1) set_attr (λ e. IsValue e.0)
      (λ cfg e k. read_lines-attr_add float cfg e.0 e.1 k) spec.attrs (equipped spec) h.attrs
    ∙ ap (λ c. ok (at_top c)) (each-set_attr spec.attrs (equipped spec))

render_create-Turns :
    (float : Float) (spec : ZoneSpec)
    → IsExact float
    → IsCleanSpec float spec
    → Turns float
        (named spec.name)
        (render_create float spec)
        (record (apply_spec spec (fresh spec)) { other = codes "commit" ∷ [] })
unfolding render_create device_commands fs_commands apply_spec
render_create-Turns float spec exact h =
    then-Turns float _ (apply_spec spec (fresh spec)) _ _ (codes "commit" ∷ [])
      (then-Turns float _ (equipped spec) _ _ (for_each (λ e. attr_add e.0 e.1) spec.attrs)
        (then-Turns float _ (record (capped spec) { devices = spec.devices }) _ _
          (for_each fs_command spec.fs)
          (then-Turns float _ (capped spec) _ _ (for_each device_command spec.devices)
            (capped-Turns float spec exact h) (device_commands-Turns float spec h))
          (fs_commands-Turns float spec h))
        (attrs-Turns float spec h))
      (commit-Turns float (apply_spec spec (fresh spec)))

-- For a spec with a brand, whose unquoted values have nothing to trim and no quotes around them,
-- whose options are not empty, whose MAC addresses are not `auto`, and whose numbers are in range,
-- and that renders to commands of one line each, the commands that create the zone, one a line, are
-- read by the parser of an export as the config that the in-memory driver makes of that spec, with
-- `commit` as the only other line.
pub zonecfg_export-render_create :
    (float : Float) (spec : ZoneSpec)
    → IsExact float
    → IsCleanSpec float spec
    → zonecfg_export float spec.name (unlines (render_create float spec))
      ≡ ok (record (apply_spec spec (fresh spec)) { other = codes "commit" ∷ [] })
unfolding zonecfg_export apply_spec
zonecfg_export-render_create float spec exact h =
    ap (λ ls. finish (read_lines float (at_top (named spec.name)) ls))
      (lines-unlines (render_create float spec) h.lines)
    ∙ ap finish (render_create-Turns float spec exact h)
    ∙ rw h.has_brand refl
