-- ===== src/Net/Escaped.antt =====
-- Fields that are written as `dladm` and `ipadm` write them are read back.
use mandrake.Common.{
  ℕ, ◌≡◌, refl, sym, ap, ◌∙◌, Bool, true, false, List, [], ◌∷◌, ◌++◌, arith, ◌==◌, map, Bool-cases,
  inl, inr, suc, leb, ◌&&◌, not, length, all,
}
use mandrake.Common.Text.{Text, codes, same_text}
use mandrake.Common.Text.Parts.{cons_head, trim}
use mandrake.Common.Text.Lines.{is_line, lines, unlines, lines-unlines}
use mandrake.Net.{ok, and_then}
use mandrake.Net.Fields.{fields, rows, escape, line_of}

abbrev before : Text → List Text → List Text
before [] ws = ws
before (c ∷ f) ws = cons_head c (before f ws)

fields-colon : (s : Text) → fields (b':' ∷ s) ≡ [] ∷ fields s
unfolding fields
fields-colon [] = refl
fields-colon (d ∷ s) = refl

fields-plain :
    (c : ℕ) (s : Text)
    → c == b'\\' ≡ false
    → c == b':' ≡ false
    → fields (c ∷ s) ≡ cons_head c (fields s)
unfolding fields
fields-plain c [] h k = ground arith
fields-plain c (d ∷ s) h k = ground arith

fields-escape : (f t : Text) → fields (escape f ++ t) ≡ before f (fields t)
unfolding fields
fields-escape [] t = refl
fields-escape (c ∷ f) t = elim (Bool-cases (c == b':')) [
  | inl colon ↦ rw colon (ap (cons_head c) (fields-escape f t))
  | inr other ↦ elim (Bool-cases (c == b'\\')) [
    | inl slash ↦ rw (other, slash) (ap (cons_head c) (fields-escape f t))
    | inr plain ↦
        rw (other, plain)
          (fields-plain c (escape f ++ t) plain other ∙ ap (cons_head c) (fields-escape f t))
  ]
]

before-head : (f : Text) (ws : List Text) → before f ([] ∷ ws) ≡ f ∷ ws
before-head [] ws = refl
before-head (c ∷ f) ws = ap (cons_head c) (before-head f ws)

append_nil : (s : Text) → s ++ [] ≡ s
append_nil [] = refl
append_nil (c ∷ s) = ap (◌∷◌ c) (append_nil s)

pub append_assoc : (a b c : Text) → (a ++ b) ++ c ≡ a ++ (b ++ c)
append_assoc [] b c = refl
append_assoc (x ∷ a) b c = ap (◌∷◌ x) (append_assoc a b c)

line_of-cons :
    (f g : Text) (fs : List Text) → line_of (f ∷ g ∷ fs) ≡ escape f ++ (b':' ∷ line_of (g ∷ fs))
unfolding codes
line_of-cons f g fs = append_assoc (escape f) (codes ":") (line_of (g ∷ fs))

pub fields-line_of : (f : Text) (fs : List Text) → fields (line_of (f ∷ fs)) ≡ f ∷ fs
unfolding fields codes
fields-line_of f [] =
    ap fields (sym (append_nil (escape f))) ∙ fields-escape f [] ∙ before-head f []
fields-line_of f (g ∷ fs) =
    ap fields (line_of-cons f g fs)
    ∙ fields-escape f (b':' ∷ line_of (g ∷ fs))
    ∙ ap (before f) (fields-colon (line_of (g ∷ fs)) ∙ ap (◌∷◌ []) (fields-line_of g fs))
    ∙ before-head f (g ∷ fs)

-- A row of as many fields as are wanted, that is one line and not blank.
abbrev pub is_row : ℕ → List Text → Bool
is_row want fs =
    leb want (length fs) && is_line (line_of fs) && not (same_text (trim (line_of fs)) [])

rows-line_of :
    (command : Text) (want : ℕ) (table : List (List Text))
    → all (is_row (suc want)) table ≡ true
    → rows command (suc want) (map line_of table) ≡ ok table
unfolding rows and_then
rows-line_of command want [] h = refl
rows-line_of command want ([] ∷ table) h = ground arith
rows-line_of command want ((f ∷ fs) ∷ table) h =
    step (rows-line_of command want table (ground arith)) (fields-line_of f fs)
  where
    step :
        rows command (suc want) (map line_of table) ≡ ok table
        → fields (line_of (f ∷ fs)) ≡ f ∷ fs
        → rows command (suc want) (map line_of ((f ∷ fs) ∷ table)) ≡ ok ((f ∷ fs) ∷ table)
    step ih e = rw (e, ih) (ground arith)

-- A table of fields that is written one row a line, with `:` between the fields and a backslash
-- before each `:` and backslash in them, is read back, where every row has as many fields as are
-- wanted, and is one line that is not blank.
pub rows-unlines :
    (command : Text) (want : ℕ) (table : List (List Text))
    → all (is_row (suc want)) table ≡ true
    → rows command (suc want) (lines (unlines (map line_of table))) ≡ ok table
rows-unlines command want table h =
    ap (rows command (suc want)) (lines-unlines (map line_of table) (all_lines table h))
    ∙ rows-line_of command want table h
  where
    all_lines :
        (table : List (List Text))
        → all (is_row (suc want)) table ≡ true
        → all is_line (map line_of table) ≡ true
    all_lines [] h = refl
    all_lines (fs ∷ table) h = ground (arith, all_lines table)
