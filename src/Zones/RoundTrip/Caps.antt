-- ===== src/Zones/RoundTrip/Caps.antt =====
-- The blocks of the caps, of a device and of an attribute.
use mandrake.Common.{
  ℕ, ◌≡◌, refl, sym, ap, ◌∙◌, ◌<◌, ◌^◌, true, [], ◌∷◌, ◌++◌, Option, none, some, arith, All,
  ℕ_discrete,
}
use mandrake.Common.Float.{Float, IsExact}
use mandrake.Common.Map.{insert}
use mandrake.Common.Text.{Text, codes, text_dec}
use mandrake.Common.Text.Parts.{trim, is_whitespace}
use mandrake.Common.Text.Trim.{trim-IsPlain}
use mandrake.Common.Text.Decimal.{split_number, show, show-All, is_digit}
use mandrake.Zones.{ZoneConfig, ok}
use mandrake.Zones.Size.{size, size_of}
use mandrake.Zones.Parse.{finish_resource, read_lines, outside, read_trimmed, unquote}
use mandrake.Zones.Render.{cpu_commands, memory_commands, device_command, attr_add, quote}
use mandrake.Zones.RoundTrip.Keys
use mandrake.Zones.RoundTrip.Settings.{IsValue, unquote-IsValue, quote-IsPlain, unquote-quote}
use mandrake.Zones.RoundTrip.Kinds.{at_top, read_block}
use mandrake.Zones.RoundTrip.Values.{show-IsValue, digits-IsPlain}

-- A device's block adds the device.
pub read_lines-device_command :
    (float : Float) (cfg : ZoneConfig) (m : Text)
    → IsValue m
    → read_lines float (at_top cfg) (device_command m)
      ≡ ok (at_top (record cfg { devices = cfg.devices ++ m ∷ [] }))
unfolding codes text_dec ℕ_discrete read_trimmed outside trim is_whitespace finish_resource
read_lines-device_command float cfg m h =
    read_block float cfg _ (codes "device") (codes "add device") ((codes "match", m) ∷ [])
      ((Keys.match, h.plain), tt) refl
      (ap (λ v. record cfg { devices = cfg.devices ++ v ∷ [] }) (unquote-IsValue m h))

-- An attribute's block sets the attribute, whatever its value is.
pub read_lines-attr_add :
    (float : Float) (cfg : ZoneConfig) (key value : Text)
    → IsValue key
    → read_lines float (at_top cfg) (attr_add key value)
      ≡ ok (at_top (record cfg { attrs = insert text_dec key value cfg.attrs }))
unfolding codes text_dec ℕ_discrete read_trimmed outside trim is_whitespace finish_resource attr_add
    unquote
read_lines-attr_add float cfg key value h =
    read_block float cfg _ (codes "attr") (codes "add attr")
      ((codes "name", key) ∷ (codes "type", codes "string") ∷ (codes "value", quote value) ∷ [])
      (
        (Keys.name, h.plain),
        (
          (Keys.type, record { starts = refl; ends = refl }),
          ((Keys.value, quote-IsPlain value), tt),
        ),
      )
      refl
      (ap (λ k. record cfg { attrs = insert text_dec k (unquote (quote value)) cfg.attrs })
          (unquote-IsValue key h)
        ∙ ap (λ v. record cfg { attrs = insert text_dec key v cfg.attrs }) (unquote-quote value))

-- A cap on CPUs that is read back from its own digits.
pub record IsCpuCap (float : Float) (c : ℕ) : Type 0 where
  pub value : IsValue (float.to_string c)
  pub reads : float.from_str (float.to_string c) ≡ some c

pub read_lines-cpu_commands :
    (float : Float) (cfg : ZoneConfig) (cap : Option ℕ)
    → cfg.cpu_cap ≡ none
    → ((c : ℕ) → cap ≡ some c → IsCpuCap float c)
    → read_lines float (at_top cfg) (cpu_commands float cap)
      ≡ ok (at_top (record cfg { cpu_cap = cap }))
unfolding codes text_dec ℕ_discrete read_trimmed outside trim is_whitespace finish_resource
    read_lines
read_lines-cpu_commands float cfg none e h = rw (sym e) refl
read_lines-cpu_commands float cfg (some c) e h =
    let cap = h c refl in
    read_block float cfg _ (codes "capped-cpu") (codes "add capped-cpu")
      ((codes "ncpus", float.to_string c) ∷ []) ((Keys.ncpus, cap.value.plain), tt) refl
      (ap (λ o. record cfg { cpu_cap = o })
        (ap float.from_str (unquote-IsValue _ cap.value) ∙ cap.reads))

split_number-digits : (s : Text) → All (λ c. is_digit c ≡ true) s → split_number s ≡ (s, [])
split_number-digits [] h = refl
split_number-digits (c ∷ s) h = rw (h.0, split_number-digits s h.1) refl

size_of-show :
    (float : Float) (n : ℕ) → IsExact float → n < 2 ^ 53 → size_of float (show n, []) ≡ some n
unfolding trim text_dec
size_of-show float n exact h = ground (
  arith,
  exact.reads n h,
  exact.once n h,
  exact.finite n h,
  exact.nonnegative n h,
  exact.rounds n h,
)

-- A number of bytes without a unit is that number.
pub size-show : (float : Float) (n : ℕ) → IsExact float → n < 2 ^ 53 → size float (show n) ≡ some n
unfolding size
size-show float n exact h =
    ap (λ s. size_of float (split_number s))
      (trim-IsPlain (show n) (digits-IsPlain (show n) (show-All n)))
    ∙ ap (size_of float) (split_number-digits (show n) (show-All n))
    ∙ size_of-show float n exact h

pub read_lines-memory_commands :
    (float : Float) (cfg : ZoneConfig) (cap : Option ℕ)
    → IsExact float
    → cfg.memory_cap ≡ none
    → ((n : ℕ) → cap ≡ some n → n < 2 ^ 53)
    → read_lines float (at_top cfg) (memory_commands cap)
      ≡ ok (at_top (record cfg { memory_cap = cap }))
unfolding codes text_dec ℕ_discrete read_trimmed outside trim is_whitespace finish_resource
    read_lines
read_lines-memory_commands float cfg none exact e h = rw (sym e) refl
read_lines-memory_commands float cfg (some n) exact e h =
    read_block float cfg _ (codes "capped-memory") (codes "add capped-memory")
      ((codes "physical", show n) ∷ []) ((Keys.physical, (show-IsValue n).plain), tt) refl
      (ap (λ o. record cfg { memory_cap = o })
        (ap (size float) (unquote-IsValue _ (show-IsValue n)) ∙ size-show float n exact (h n refl)))
