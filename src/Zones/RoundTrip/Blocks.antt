-- ===== src/Zones/RoundTrip/Blocks.antt =====
-- Lines read one after the other, and one `add ... end` block.
use mathlib.Core.List.{append_assoc, append-nil}
use mathlib.Core.Path.{fun_ext}
use mandrake.Common.{◌≡◌, refl, ap, ◌∙◌, List, [], ◌∷◌, ◌++◌, some, All}
use mandrake.Common.Float.{Float}
use mandrake.Common.Text.{Text}
use mandrake.Common.Text.Trim.{IsPlain}
use mandrake.Zones.{ZoneConfig, Outcome, ok, err, and_then}
use mandrake.Zones.Parse.{unquote, Resource, Reading, read_line, read_lines}
use mandrake.Zones.Render.{set}
use mandrake.Zones.RoundTrip.Settings.{IsKey, read_line-set}

abbrev pub sets : List (Text × Text) → List Text
sets [] = []
sets ((key, v) ∷ more) = set key v ∷ sets more

abbrev pub values : List (Text × Text) → List (Text × Text)
values [] = []
values ((key, v) ∷ more) = (key, unquote v) ∷ values more

abbrev pub IsSetting : Text × Text → Type 0
IsSetting e = IsKey e.0 × IsPlain e.1

module _ (float : Float) where
  pub read_lines-cons :
      (r s : Reading) (line : Text) (more : List Text) (x : Outcome Reading)
      → read_line float r line ≡ ok s
      → read_lines float s more ≡ x
      → read_lines float r (line ∷ more) ≡ x
  unfolding read_lines
  read_lines-cons r s line more x h k = ap (λ o. and_then o (λ t. read_lines float t more)) h ∙ k

  and_then_assoc :
      (o : Outcome Reading) (f g : Reading → Outcome Reading)
      → and_then o (λ t. and_then (f t) g) ≡ and_then (and_then o f) g
  and_then_assoc (ok t) f g = refl
  and_then_assoc (err e) f g = refl

  append_lines :
      (r : Reading) (a b : List Text)
      → read_lines float r (a ++ b) ≡ and_then (read_lines float r a) (λ t. read_lines float t b)
  unfolding read_lines
  append_lines r [] b = refl
  append_lines r (line ∷ a) b =
      ap (and_then (read_line float r line)) (fun_ext (λ s. append_lines s a b))
      ∙ and_then_assoc (read_line float r line) (λ s. read_lines float s a)
          (λ t. read_lines float t b)

  pub read_lines-append :
      (r s : Reading) (a b : List Text) (x : Outcome Reading)
      → read_lines float r a ≡ ok s
      → read_lines float s b ≡ x
      → read_lines float r (a ++ b) ≡ x
  read_lines-append r s a b x h k =
      append_lines r a b ∙ ap (λ o. and_then o (λ t. read_lines float t b)) h ∙ k

  pub read_lines-sets :
      (cfg : ZoneConfig) (res : Resource) (kvs : List (Text × Text))
      → All IsSetting kvs
      → read_lines float (record { cfg = cfg; resource = some res }) (sets kvs)
        ≡ ok (record {
          cfg = cfg;
          resource =
              some (record res { props = res.props ++ values kvs; body = res.body ++ sets kvs });
        })
  unfolding read_lines
  read_lines-sets cfg res [] h = rw (append-nil res.props, append-nil res.body) refl
  read_lines-sets cfg res ((key, v) ∷ kvs) h =
      read_lines-cons (record { cfg = cfg; resource = some res }) _ (set key v) (sets kvs) _
        (read_line-set float cfg res key v h.0.0 h.0.1)
        (read_lines-sets cfg
            (record res {
              props = res.props ++ (key, unquote v) ∷ [];
              body = res.body ++ set key v ∷ [];
            })
            kvs h.1
          ∙ rw
              (
                append_assoc res.props ((key, unquote v) ∷ []) (values kvs),
                append_assoc res.body (set key v ∷ []) (sets kvs),
              )
              refl)
