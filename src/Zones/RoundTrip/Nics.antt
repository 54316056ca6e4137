-- ===== src/Zones/RoundTrip/Nics.antt =====
-- The block of a NIC.
use mandrake.Common.{
  ℕ, ◌≡◌, refl, ap, ◌∙◌, ◌≤◌, false, List, [], ◌∷◌, ◌++◌, Option, none, some, arith, All,
  ℕ_discrete,
}
use mandrake.Common.Float.{Float}
use mandrake.Common.Text.{Text, codes, same_text, text_dec}
use mandrake.Common.Text.Parts.{trim, is_whitespace}
use mandrake.Common.Text.Decimal.{show, parse_uint, parse_uint-show}
use mandrake.Zones.{ZoneNic, ZoneConfig, ok}
use mandrake.Zones.Parse.{finish_resource, nic_of, read_lines, outside, read_trimmed}
use mandrake.Zones.Render.{nic_commands}
use mandrake.Zones.RoundTrip.Keys
use mandrake.Zones.RoundTrip.Settings.{IsKey, IsValue}
use mandrake.Zones.RoundTrip.Blocks.{sets}
use mandrake.Zones.RoundTrip.Kinds.{at_top, read_block}
use mandrake.Zones.RoundTrip.Values.{
  Each, IsClean, IsClean-IsSetting, values-IsClean, append-IsClean, show-IsValue,
}

-- Plain texts, a MAC that is given, and a VLAN id of 16 bits.
pub record IsCleanNic (nic : ZoneNic) : Type 0 where
  pub name : IsValue nic.name
  pub over : IsValue nic.over
  pub mac : Each (λ m. IsValue m × (same_text m (codes "auto") ≡ false)) nic.mac
  pub vid : (n : ℕ) → nic.vid ≡ some n → n ≤ 65535
  pub address : Each IsValue nic.address
  pub gateway : Each IsValue nic.gateway

abbrev opt : Text → Option Text → List (Text × Text)
opt key none = []
opt key (some v) = (key, v) ∷ []

abbrev shown : Option ℕ → Option Text
shown none = none
shown (some n) = some (show n)

abbrev nic_settings : ZoneNic → List (Text × Text)
nic_settings nic =
    (codes "linkname", nic.name)
    ∷ (codes "lower-link", nic.over)
    ∷ (opt (codes "mac-address") nic.mac
        ++ (opt (codes "vlan-id") (shown nic.vid)
            ++ (opt (codes "allowed-address") nic.address ++ opt (codes "defrouter") nic.gateway)))

nic_commands-sets :
    (nic : ZoneNic)
    → nic_commands nic ≡ codes "add anet" ∷ sets (nic_settings nic) ++ codes "end" ∷ []
unfolding nic_commands
nic_commands-sets nic = ground arith

opt-IsClean : (key : Text) (o : Option Text) → IsKey key → Each IsValue o → All IsClean (opt key o)
opt-IsClean key none k h = tt
opt-IsClean key (some v) k h = ((k, h), tt)

shown-Each : (o : Option ℕ) → Each IsValue (shown o)
shown-Each none = tt
shown-Each (some n) = show-IsValue n

mac-Each :
    (o : Option Text)
    → Each (λ m. IsValue m × (same_text m (codes "auto") ≡ false)) o
    → Each IsValue o
mac-Each none h = tt
mac-Each (some m) h = h.0

nic_settings-IsClean : (nic : ZoneNic) → IsCleanNic nic → All IsClean (nic_settings nic)
nic_settings-IsClean nic h = (
  (Keys.linkname, h.name),
  (
    (Keys.lower_link, h.over),
    append-IsClean (opt (codes "mac-address") nic.mac) _
        (opt-IsClean _ nic.mac Keys.mac_address (mac-Each nic.mac h.mac))
        (append-IsClean (opt (codes "vlan-id") (shown nic.vid)) _
          (opt-IsClean _ (shown nic.vid) Keys.vlan_id (shown-Each nic.vid))
          (append-IsClean (opt (codes "allowed-address") nic.address) _
            (opt-IsClean _ nic.address Keys.allowed_address h.address)
            (opt-IsClean _ nic.gateway Keys.defrouter h.gateway))),
  ),
)

-- A VLAN id of 16 bits is read back from its digits.
vid_back :
    (o : Option ℕ)
    → ((n : ℕ) → o ≡ some n → n ≤ 65535)
    → elim (shown o) [ none ↦ none | some v ↦ parse_uint 65535 v ] ≡ o
vid_back none h = refl
vid_back (some n) h = parse_uint-show 65535 n (h n refl)

nic_of-nic_settings : (nic : ZoneNic) → IsCleanNic nic → nic_of (nic_settings nic) ≡ nic
unfolding codes text_dec ℕ_discrete
nic_of-nic_settings nic h = ground (arith, vid_back nic.vid h.vid, h.mac)

-- A NIC's block adds the NIC.
pub read_lines-nic_commands :
    (float : Float) (cfg : ZoneConfig) (nic : ZoneNic)
    → IsCleanNic nic
    → read_lines float (at_top cfg) (nic_commands nic)
      ≡ ok (at_top (record cfg { nics = cfg.nics ++ nic ∷ [] }))
unfolding codes text_dec ℕ_discrete read_trimmed outside trim is_whitespace finish_resource
read_lines-nic_commands float cfg nic h =
    ap (read_lines float (at_top cfg)) (nic_commands-sets nic)
    ∙ read_block float cfg _ (codes "anet") (codes "add anet") (nic_settings nic)
        (IsClean-IsSetting (nic_settings nic) (nic_settings-IsClean nic h)) refl
        (ap (λ n. record cfg { nics = cfg.nics ++ n ∷ [] })
          (ap nic_of (values-IsClean (nic_settings nic) (nic_settings-IsClean nic h))
            ∙ nic_of-nic_settings nic h))
