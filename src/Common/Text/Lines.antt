-- ===== src/Common/Text/Lines.antt =====
-- `str::lines`, and the text of a list of lines.
use mandrake.Common.{
  ℕ, ◌≡◌, refl, ap, ◌∙◌, Bool, true, false, List, [], ◌∷◌, ◌++◌, arith, if◌then◌else◌, ◌==◌, all,
  not, ◌&&◌, Bool-cases, inl, inr,
}
use mandrake.Common.Text.{Text}
use mandrake.Common.Text.Parts.{split}

-- A line loses the carriage return before its end.
abbrev pub strip_cr : Text → Text
strip_cr [] = []
strip_cr (c ∷ []) = if c == b'\r' then [] else c ∷ []
strip_cr (c ∷ d ∷ s) = c ∷ strip_cr (d ∷ s)

-- What follows the last end of line is a line unless it is empty.
abbrev pub lines_of : List Text → List Text
lines_of [] = []
lines_of ([] ∷ []) = []
lines_of ((c ∷ w) ∷ []) = (c ∷ w) ∷ []
lines_of (w ∷ v ∷ ws) = strip_cr w ∷ lines_of (v ∷ ws)

unfoldable pub lines : Text → List Text
lines s = lines_of (split b'\n' s)

unfoldable pub unlines : List Text → Text
unlines [] = []
unlines (w ∷ ws) = w ++ (b'\n' ∷ unlines ws)

abbrev ends_cr : Text → Bool
ends_cr [] = false
ends_cr (c ∷ []) = c == b'\r'
ends_cr (c ∷ d ∷ s) = ends_cr (d ∷ s)

-- The text is one line as it stands.
abbrev pub is_line : Text → Bool
is_line w = all (λ c. not (c == b'\n')) w && not (ends_cr w)

strip_cr-lem : (w : Text) → not (ends_cr w) ≡ true → strip_cr w ≡ w
strip_cr-lem [] h = refl
strip_cr-lem (c ∷ []) h = ground arith
strip_cr-lem (c ∷ d ∷ s) h = rw (strip_cr-lem (d ∷ s) h) refl

split-nonempty : (d : ℕ) (s : Text) → (w : Text) × (ws : List Text) × (split d s ≡ w ∷ ws)
split-nonempty d [] = ([], [], refl)
split-nonempty d (c ∷ s) =
    let (w, ws, e) = split-nonempty d s in
    elim (Bool-cases (c == d)) [
      | inl here ↦ ([], split d s, rw (here, e) refl)
      | inr later ↦ (c ∷ w, ws, rw (later, e) refl)
    ]

pub split-append :
    (d : ℕ) (w t : Text) → all (λ c. not (c == d)) w ≡ true → split d (w ++ (d ∷ t)) ≡ w ∷ split d t
split-append d [] t h = ground arith
split-append d (c ∷ w) t h = ground (arith, split-append d w t)

lines_of-cons :
    (w : Text) (ws : List Text) (v : Text) (vs : List Text)
    → ws ≡ v ∷ vs
    → lines_of (w ∷ ws) ≡ strip_cr w ∷ lines_of ws
lines_of-cons w ws v vs e = rw e refl

-- Lines that are written are read back.
pub lines-unlines : (ws : List Text) → all is_line ws ≡ true → lines (unlines ws) ≡ ws
unfolding lines unlines
lines-unlines [] h = refl
lines-unlines (w ∷ ws) h =
    let (v, vs, e) = split-nonempty b'\n' (unlines ws) in
    let (whole, rest, one) = three h in
    ap lines_of (split-append b'\n' w (unlines ws) whole)
    ∙ lines_of-cons w (split b'\n' (unlines ws)) v vs e
    ∙ cons_eq (strip_cr-lem w one) (lines-unlines ws rest)
  where
    three : {a b c : Bool} → (a && b) && c ≡ true → (a ≡ true) × (c ≡ true) × (b ≡ true)
    three h = (ground arith, ground arith, ground arith)

    cons_eq :
        {a b : Text} {us bs : List Text} → a ≡ b → us ≡ bs → ◌≡◌ {A = List Text} (a ∷ us) (b ∷ bs)
    cons_eq p q = cc
