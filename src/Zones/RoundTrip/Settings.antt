-- ===== src/Zones/RoundTrip/Settings.antt =====
-- One `set key=value` line, written and read.
use mandrake.Common.{
  ℕ, ◌≡◌, refl, ap, subst, ◌∙◌, true, false, [], ◌∷◌, ◌++◌, none, some, arith, ◌==◌, all, not,
  ℕ_discrete,
}
use mandrake.Common.Float.{Float}
use mandrake.Common.Text.{Text, codes, text_dec}
use mandrake.Common.Text.Parts.{trim, is_whitespace, split_once}
use mandrake.Common.Text.Trim.{IsPlain, EndsPlain, EndsPlain-append, trim-IsPlain}
use mandrake.Zones.{ZoneConfig, ok}
use mandrake.Zones.Parse.{
  unquote, unquoted, strip_last, setting, trimmed_setting, pair_of, Resource, inside, read_line,
  read_trimmed,
}
use mandrake.Zones.Render.{set, quote}

-- A value that is written without quotes: nothing to trim, no quotes of its own.
pub record IsValue (v : Text) : Type 0 where
  pub plain : IsPlain v
  pub bare : unquoted v ≡ none

-- A key that a line may set.
pub record IsKey (key : Text) : Type 0 where
  pub no_equals : all (λ c. not (c == b'=')) key ≡ true
  pub trimmed : trim key ≡ key
  pub ends : EndsPlain (codes "set " ++ key ++ b'=' ∷ [])

split_once-append :
    (d : ℕ) (a b : Text)
    → all (λ c. not (c == d)) a ≡ true
    → split_once d (a ++ d ∷ b) ≡ some (a, b)
split_once-append d [] b h = ground arith
split_once-append d (c ∷ a) b h = ground (arith, split_once-append d a b)

append_nil : (key v : Text) → (key ++ b'=' ∷ []) ++ v ≡ key ++ b'=' ∷ v
append_nil [] v = refl
append_nil (c ∷ key) v = ap (◌∷◌ c) (append_nil key v)

-- The line has nothing to trim.
pub set-IsPlain : (key v : Text) → IsKey key → IsPlain v → IsPlain (set key v)
unfolding codes is_whitespace
set-IsPlain key v k p = record {
  starts = refl;
  ends =
      subst EndsPlain (ap (λ s. codes "set " ++ s) (append_nil key v))
        (EndsPlain-append (codes "set " ++ key ++ b'=' ∷ []) v k.ends p.ends);
}

pub setting-set :
    (key v : Text) → IsKey key → IsPlain v → setting (set key v) ≡ some (key, unquote v)
unfolding codes trimmed_setting
setting-set key v k p =
    ap trimmed_setting (trim-IsPlain (set key v) (set-IsPlain key v k p))
    ∙ ap pair_of (split_once-append b'=' key v k.no_equals)
    ∙ ap (λ j. some (j, unquote v)) k.trimmed

-- A value without quotes of its own is read as it stands.
pub unquote-IsValue : (v : Text) → IsValue v → unquote v ≡ v
unfolding unquote
unquote-IsValue v h = rw (trim-IsPlain v h.plain, h.bare) refl

strip_last-append : (d : ℕ) (s : Text) → strip_last d (s ++ d ∷ []) ≡ some s
strip_last-append d [] = ground arith
strip_last-append d (c ∷ []) = ground arith
strip_last-append d (c ∷ e ∷ s) = rw (strip_last-append d (e ∷ s)) refl

EndsPlain-last : (s : Text) (c : ℕ) → is_whitespace c ≡ false → EndsPlain (s ++ c ∷ [])
EndsPlain-last [] c h = ground arith
EndsPlain-last (d ∷ []) c h = ground arith
EndsPlain-last (d ∷ e ∷ s) c h = rw (EndsPlain-last (e ∷ s) c h) refl

pub quote-IsPlain : (v : Text) → IsPlain (quote v)
unfolding is_whitespace
quote-IsPlain v = record { starts = refl; ends = EndsPlain-last (b'"' ∷ v) b'"' refl }

-- A quoted value is read without its quotes, whatever it is.
pub unquote-quote : (v : Text) → unquote (quote v) ≡ v
unfolding unquote
unquote-quote v = rw (trim-IsPlain (quote v) (quote-IsPlain v), strip_last-append b'"' v) refl

-- Inside a block, the line adds its setting.
pub read_line-set :
    (float : Float) (cfg : ZoneConfig) (res : Resource) (key v : Text)
    → IsKey key
    → IsPlain v
    → read_line float (record { cfg = cfg; resource = some res }) (set key v)
      ≡ ok (record {
        cfg = cfg;
        resource = some (record res {
          props = res.props ++ (key, unquote v) ∷ [];
          body = res.body ++ set key v ∷ [];
        });
      })
unfolding read_trimmed inside codes text_dec ℕ_discrete
read_line-set float cfg res key v k p =
    ap (read_trimmed float (record { cfg = cfg; resource = some res }))
      (trim-IsPlain (set key v) (set-IsPlain key v k p))
    ∙ rw (setting-set key v k p) refl
