-- ===== src/Zones/RoundTrip/Each.antt =====
-- A loop that pushes a block for each element.
use mathlib.Core.List.{append_assoc, append-nil}
use mandrake.Common.{◌≡◌, refl, ◌∙◌, List, [], ◌∷◌, ◌++◌, All}
use mandrake.Common.Float.{Float}
use mandrake.Common.Map.{insert}
use mandrake.Common.Text.{Text, text_dec}
use mandrake.Zones.{ZoneNic, ZoneFs, ZoneConfig, ok, insert_all}
use mandrake.Zones.Parse.{read_lines}
use mandrake.Zones.Render.{for_each}
use mandrake.Zones.RoundTrip.Blocks.{read_lines-append}
use mandrake.Zones.RoundTrip.Kinds.{at_top}

-- What a loop of pushes does to the config that is read, one element after the other.
abbrev pub each {ℓ} :
    {A : Type ℓ} → (A → ZoneConfig → ZoneConfig) → List A → ZoneConfig → ZoneConfig
each g [] cfg = cfg
each g (x ∷ xs) cfg = each g xs (g x cfg)

pub read_lines-for_each {ℓ} :
    {A : Type ℓ} (float : Float) (f : A → List Text) (g : A → ZoneConfig → ZoneConfig)
    (P : A → Type 0)
    → ((cfg : ZoneConfig) (x : A)
        → P x
        → read_lines float (at_top cfg) (f x) ≡ ok (at_top (g x cfg)))
    → (xs : List A) (cfg : ZoneConfig) → All P xs
    → read_lines float (at_top cfg) (for_each f xs) ≡ ok (at_top (each g xs cfg))
unfolding read_lines
read_lines-for_each float f g P one [] cfg h = refl
read_lines-for_each float f g P one (x ∷ xs) cfg h =
    read_lines-append float (at_top cfg) (at_top (g x cfg)) (f x) (for_each f xs) _ (one cfg x h.0)
      (read_lines-for_each float f g P one xs (g x cfg) h.1)

abbrev pub add_nic : ZoneNic → ZoneConfig → ZoneConfig
add_nic nic cfg = record cfg { nics = cfg.nics ++ nic ∷ [] }

abbrev pub add_device : Text → ZoneConfig → ZoneConfig
add_device m cfg = record cfg { devices = cfg.devices ++ m ∷ [] }

abbrev pub add_fs : ZoneFs → ZoneConfig → ZoneConfig
add_fs f cfg = record cfg { fs = cfg.fs ++ f ∷ [] }

abbrev pub set_attr : Text × Text → ZoneConfig → ZoneConfig
set_attr e cfg = record cfg { attrs = insert text_dec e.0 e.1 cfg.attrs }

pub each-add_nic :
    (nics : List ZoneNic) (cfg : ZoneConfig)
    → each add_nic nics cfg ≡ record cfg { nics = cfg.nics ++ nics }
each-add_nic [] cfg = rw (append-nil cfg.nics) refl
each-add_nic (x ∷ xs) cfg =
    each-add_nic xs (add_nic x cfg) ∙ rw (append_assoc cfg.nics (x ∷ []) xs) refl

pub each-add_device :
    (devices : List Text) (cfg : ZoneConfig)
    → each add_device devices cfg ≡ record cfg { devices = cfg.devices ++ devices }
each-add_device [] cfg = rw (append-nil cfg.devices) refl
each-add_device (x ∷ xs) cfg =
    each-add_device xs (add_device x cfg) ∙ rw (append_assoc cfg.devices (x ∷ []) xs) refl

pub each-add_fs :
    (fs : List ZoneFs) (cfg : ZoneConfig) → each add_fs fs cfg ≡ record cfg { fs = cfg.fs ++ fs }
each-add_fs [] cfg = rw (append-nil cfg.fs) refl
each-add_fs (x ∷ xs) cfg = each-add_fs xs (add_fs x cfg) ∙ rw (append_assoc cfg.fs (x ∷ []) xs) refl

pub each-set_attr :
    (attrs : List (Text × Text)) (cfg : ZoneConfig)
    → each set_attr attrs cfg ≡ record cfg { attrs = insert_all attrs cfg.attrs }
each-set_attr [] cfg = refl
each-set_attr ((k, v) ∷ attrs) cfg = each-set_attr attrs (set_attr (k, v) cfg)
