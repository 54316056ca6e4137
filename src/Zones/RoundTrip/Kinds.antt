-- ===== src/Zones/RoundTrip/Kinds.antt =====
-- The blocks of each kind: a NIC, the caps, a device, a file system, an attribute.
use mandrake.Common.{◌≡◌, refl, ap, ◌∙◌, List, [], ◌∷◌, ◌++◌, none, some, All, ℕ_discrete}
use mandrake.Common.Float.{Float}
use mandrake.Common.Text.{Text, codes, text_dec}
use mandrake.Common.Text.Parts.{trim, is_whitespace}
use mandrake.Zones.{ZoneConfig, ok}
use mandrake.Zones.Parse.{
  Resource, Reading, inside, read_line, read_trimmed, read_lines, finish_resource,
}
use mandrake.Zones.RoundTrip.Blocks.{
  sets, values, IsSetting, read_lines-cons, read_lines-append, read_lines-sets,
}

-- Nothing open.
abbrev pub at_top : ZoneConfig → Reading
at_top cfg = record { cfg = cfg; resource = none }

abbrev opened : ZoneConfig → Text → Reading
opened cfg kind = record {
  cfg = cfg;
  resource = some (record { kind = kind; props = []; body = [] });
}

read_line-end :
    (float : Float) (cfg : ZoneConfig) (res : Resource)
    → read_line float (record { cfg = cfg; resource = some res }) (codes "end")
      ≡ ok (at_top (finish_resource float cfg res))
unfolding read_trimmed inside codes text_dec ℕ_discrete trim is_whitespace
read_line-end float cfg res = refl

pub read_lines-end :
    (float : Float) (cfg : ZoneConfig) (res : Resource)
    → read_lines float (record { cfg = cfg; resource = some res }) (codes "end" ∷ [])
      ≡ ok (at_top (finish_resource float cfg res))
unfolding read_lines
read_lines-end float cfg res =
    read_lines-cons float (record { cfg = cfg; resource = some res }) _ (codes "end") [] _
      (read_line-end float cfg res) refl

pub read_block :
    (float : Float) (cfg next : ZoneConfig) (kind start : Text) (kvs : List (Text × Text))
    → All IsSetting kvs
    → read_line float (at_top cfg) start ≡ ok (opened cfg kind)
    → finish_resource float cfg (record { kind = kind; props = values kvs; body = sets kvs }) ≡ next
    → read_lines float (at_top cfg) (start ∷ sets kvs ++ codes "end" ∷ []) ≡ ok (at_top next)
unfolding read_lines
read_block float cfg next kind start kvs h opens closes =
    read_lines-cons float (at_top cfg) (opened cfg kind) start (sets kvs ++ codes "end" ∷ []) _
      opens
      (read_lines-append float (opened cfg kind) _ (sets kvs) (codes "end" ∷ []) _
        (read_lines-sets float cfg _ kvs h)
        (read_lines-end float cfg _ ∙ ap (λ c. ok (at_top c)) closes))
