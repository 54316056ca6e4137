-- ===== src/Zones/RoundTrip/FileSystems.antt =====
-- The block of a file system, with its `add options` lines.
use mathlib.Core.List.{append_assoc, append-nil}
use mandrake.Common.{◌≡◌, ◌≢◌, refl, ap, ◌∙◌, List, [], ◌∷◌, ◌++◌, none, some, All, ℕ_discrete}
use mandrake.Common.Float.{Float}
use mandrake.Common.Text.{Text, codes, text_dec}
use mandrake.Common.Text.Parts.{trim, is_whitespace}
use mandrake.Common.Text.Trim.{IsPlain, EndsPlain, trim-IsPlain}
use mandrake.Zones.{ZoneFs, ZoneConfig, ok}
use mandrake.Zones.Parse.{
  Resource, finish_resource, read_line, read_lines, inside, outside, setting, trimmed_setting,
  read_trimmed, options_of, fs_of,
}
use mandrake.Zones.Render.{fs_command, for_each, option_command}
use mandrake.Zones.RoundTrip.Keys
use mandrake.Zones.RoundTrip.Settings.{IsValue, unquote-IsValue}
use mandrake.Zones.RoundTrip.Blocks.{
  sets, values, read_lines-cons, read_lines-append, read_lines-sets,
}
use mandrake.Zones.RoundTrip.Kinds.{at_top, read_lines-end}

-- An option that a line can carry: not empty.
pub record IsOption (o : Text) : Type 0 where
  pub value : IsValue o
  pub nonempty : o ≢ []

pub record IsCleanFs (f : ZoneFs) : Type 0 where
  pub dir : IsValue f.dir
  pub special : IsValue f.special
  pub fs_type : IsValue f.fs_type
  pub options : All IsOption f.options

EndsPlain-prefix : (a v : Text) → v ≢ [] → EndsPlain v → EndsPlain (a ++ v)
EndsPlain-prefix [] v ne h = h
EndsPlain-prefix (c ∷ []) [] ne h = absurd (ne refl)
EndsPlain-prefix (c ∷ []) (d ∷ v) ne h = rw h refl
EndsPlain-prefix (c ∷ d ∷ a) v ne h = rw (EndsPlain-prefix (d ∷ a) v ne h) refl

option_line-IsPlain : (o : Text) → IsOption o → IsPlain (codes "add options " ++ o)
unfolding codes is_whitespace
option_line-IsPlain o h = record {
  starts = refl;
  ends = EndsPlain-prefix (codes "add options ") o h.nonempty h.value.plain.ends;
}

setting-option : (o : Text) → IsOption o → setting (codes "add options " ++ o) ≡ none
unfolding codes trimmed_setting
setting-option o h =
    ap trimmed_setting (trim-IsPlain (codes "add options " ++ o) (option_line-IsPlain o h))

-- Inside a block, an option's line is kept.
read_line-option :
    (float : Float) (cfg : ZoneConfig) (res : Resource) (o : Text)
    → IsOption o
    → read_line float (record { cfg = cfg; resource = some res }) (codes "add options " ++ o)
      ≡ ok (record {
        cfg = cfg;
        resource = some (record res { body = res.body ++ (codes "add options " ++ o) ∷ [] });
      })
unfolding read_trimmed inside codes text_dec ℕ_discrete
read_line-option float cfg res o h =
    ap (read_trimmed float (record { cfg = cfg; resource = some res }))
      (trim-IsPlain (codes "add options " ++ o) (option_line-IsPlain o h))
    ∙ rw (setting-option o h) refl

read_lines-options :
    (float : Float) (cfg : ZoneConfig) (res : Resource) (os : List Text)
    → All IsOption os
    → read_lines float (record { cfg = cfg; resource = some res }) (for_each option_command os)
      ≡ ok (record {
        cfg = cfg;
        resource = some (record res { body = res.body ++ for_each option_command os });
      })
unfolding read_lines
read_lines-options float cfg res [] h = rw (append-nil res.body) refl
read_lines-options float cfg res (o ∷ os) h =
    read_lines-cons float (record { cfg = cfg; resource = some res }) _ (codes "add options " ++ o)
      (for_each option_command os) _ (read_line-option float cfg res o h.0)
      (read_lines-options float cfg
          (record res { body = res.body ++ (codes "add options " ++ o) ∷ [] }) os h.1
        ∙ rw (append_assoc res.body ((codes "add options " ++ o) ∷ []) (for_each option_command os))
            refl)

options_of-for_each :
    (os : List Text) → All IsOption os → options_of (for_each option_command os) ≡ os
unfolding codes
options_of-for_each [] h = refl
options_of-for_each (o ∷ os) h =
    rw (trim-IsPlain o h.0.value.plain, options_of-for_each os h.1) refl

abbrev fs_settings : ZoneFs → List (Text × Text)
fs_settings f = (codes "dir", f.dir) ∷ (codes "special", f.special) ∷ (codes "type", f.fs_type) ∷ []

fs_of-fs_settings :
    (f : ZoneFs)
    → IsCleanFs f
    → fs_of (values (fs_settings f)) (sets (fs_settings f) ++ for_each option_command f.options) ≡ f
unfolding codes text_dec ℕ_discrete
fs_of-fs_settings f h =
    rw
      (
        unquote-IsValue f.dir h.dir,
        unquote-IsValue f.special h.special,
        unquote-IsValue f.fs_type h.fs_type,
        options_of-for_each f.options h.options,
      )
      refl

-- A file system's block adds the file system.
pub read_lines-fs_command :
    (float : Float) (cfg : ZoneConfig) (f : ZoneFs)
    → IsCleanFs f
    → read_lines float (at_top cfg) (fs_command f)
      ≡ ok (at_top (record cfg { fs = cfg.fs ++ f ∷ [] }))
unfolding codes text_dec ℕ_discrete read_trimmed outside trim is_whitespace finish_resource
    read_lines
read_lines-fs_command float cfg f h =
    let res : Resource = record { kind = codes "fs"; props = []; body = [] } in
    let written = sets (fs_settings f) in
    let options = for_each option_command f.options in
    let full : Resource = record {
      kind = codes "fs";
      props = values (fs_settings f);
      body = written ++ options;
    } in
    read_lines-cons float (at_top cfg) (record { cfg = cfg; resource = some res }) (codes "add fs")
      (written ++ (options ++ codes "end" ∷ [])) _ refl
      (read_lines-append float _ _ written (options ++ codes "end" ∷ []) _
        (read_lines-sets float cfg res (fs_settings f) (
          (Keys.dir, h.dir.plain),
          ((Keys.special, h.special.plain), ((Keys.type, h.fs_type.plain), tt)),
        ))
        (read_lines-append float _ _ options (codes "end" ∷ []) _
          (read_lines-options float cfg _ f.options h.options)
          (read_lines-end float cfg full
            ∙ ap (λ g. ok (at_top (record cfg { fs = cfg.fs ++ g ∷ [] })))
                (fs_of-fs_settings f h))))
