-- ===== src/Zones/Listed.antt =====
-- Which zones `zoneadm_list` of crates/mandrake-zones/src/parse.rs finds.
use mandrake.Common.{
  ◌≡◌, refl, ◌∙◌, Bool, true, false, ◌||◌, List, [], ◌∷◌, ◌++◌, Option, none, some, if◌then◌else◌,
  arith, Bool-cases, inl, inr, leb, length, all,
}
use mandrake.Common.Text.{Text, codes, same_text}
use mandrake.Common.Text.Parts.{trim, split}
use mandrake.Common.Text.Lines.{lines}
use mandrake.Zones.{ZoneError, ok, err}
use mandrake.Zones.Zoneadm.{ZoneSummary, zoneadm_list, zoneadm_rows, row_of, too_few, summary}

-- A line that is blank or has seven fields, and the second field.
abbrev pub blank : Text → Bool
blank line = same_text (trim line) []

abbrev pub fits : Text → Bool
fits line = blank line || leb 7 (length (split b':' line))

abbrev pub second : List Text → Text
second (id ∷ name ∷ more) = name
second few = []

-- The second fields of the lines that are not blank, but for the global zone.
abbrev pub named_in : List Text → List Text
named_in [] = []
named_in (line ∷ more) =
    let rest = named_in more in
    let name = second (split b':' line) in
    if blank line || same_text name (codes "global") then rest else name ∷ rest

abbrev pub names_of : List ZoneSummary → List Text
names_of [] = []
names_of (z ∷ zs) = z.name ∷ names_of zs

-- What one line gives, as a list.
abbrev found : Option ZoneSummary → List Text
found none = []
found (some z) = z.name ∷ []

abbrev listed : Text → List Text
listed name = if same_text name (codes "global") then [] else name ∷ []

row_of-wide :
    (line : Text) (fields : List Text)
    → leb 7 (length fields) ≡ true
    → (row : Option ZoneSummary) × (row_of line fields ≡ ok row)
      × (found row ≡ listed (second fields))
row_of-wide line (id ∷ name ∷ state ∷ zonepath ∷ uuid ∷ brand ∷ ip ∷ more) h =
    elim (Bool-cases (same_text name (codes "global"))) [
      | inl e ↦ (none, rw e refl, rw e refl)
      | inr e ↦ (some (summary name state zonepath uuid brand ip), rw e refl, rw e refl)
    ]
row_of-wide line _ h = cc

row_of-narrow :
    (line : Text) (fields : List Text)
    → leb 7 (length fields) ≡ false
    → row_of line fields ≡ err (too_few line)
row_of-narrow line (id ∷ name ∷ state ∷ zonepath ∷ uuid ∷ brand ∷ ip ∷ more) h = ground arith
row_of-narrow line _ h = refl

names_of-found :
    (row : Option ZoneSummary) (rest : List ZoneSummary)
    → names_of (elim row [ none ↦ rest | some z ↦ z ∷ rest ]) ≡ found row ++ names_of rest
names_of-found none rest = refl
names_of-found (some z) rest = refl

named_in-listed :
    (line : Text) (more : List Text) (row : Option ZoneSummary) (rest : List ZoneSummary)
    → blank line ≡ false
    → found row ≡ listed (second (split b':' line))
    → names_of rest ≡ named_in more
    → found row ++ names_of rest ≡ named_in (line ∷ more)
named_in-listed line more row rest e p q = rw (p, q) (ground arith)

fitting-zoneadm_rows :
    (ls : List Text)
    → all fits ls ≡ true
    → (zs : List ZoneSummary) × (zoneadm_rows ls ≡ ok zs) × (names_of zs ≡ named_in ls)
unfolding zoneadm_rows
fitting-zoneadm_rows [] h = ([], refl, refl)
fitting-zoneadm_rows (line ∷ more) h = elim (Bool-cases (blank line)) [
  | inl e ↦ let (zs, p, q) = fitting-zoneadm_rows more (ground arith) in (zs, rw e p, rw e q)
  | inr e ↦
      let (zs, p, q) = fitting-zoneadm_rows more (ground arith) in
      let (row, r, t) = row_of-wide line (split b':' line) (ground arith) in
      (
        elim row [ none ↦ zs | some z ↦ z ∷ zs ],
        rw (e, r, p) refl,
        names_of-found row zs ∙ named_in-listed line more row zs e t q,
      )
]

narrow-zoneadm_rows :
    (ls : List Text) → all fits ls ≡ false → (why : ZoneError) × (zoneadm_rows ls ≡ err why)
unfolding zoneadm_rows
narrow-zoneadm_rows [] h = absurd_of h
  where
    absurd_of : true ≡ false → (why : ZoneError) × (zoneadm_rows [] ≡ err why)
    absurd_of f = cc
narrow-zoneadm_rows (line ∷ more) h = elim (Bool-cases (blank line)) [
  | inl e ↦ let (why, p) = narrow-zoneadm_rows more (ground arith) in (why, rw e p)
  | inr e ↦ elim (Bool-cases (leb 7 (length (split b':' line)))) [
    | inl wide ↦
        let (row, r, t) = row_of-wide line (split b':' line) wide in
        let (why, p) = narrow-zoneadm_rows more (ground arith) in (why, rw (e, r, p) refl)
    | inr narrow ↦ (too_few line, rw (e, row_of-narrow line (split b':' line) narrow) refl)
  ]
]

-- Where every line of the output is blank or has seven fields or more, the zones that are found
-- have, in order, the second fields of the lines that are not blank, but for the global zone; where
-- some line is neither, the output is refused.
pub zoneadm_list-exact :
    (out : Text)
    → (all fits (lines out) ≡ true
        → (zs : List ZoneSummary) × (zoneadm_list out ≡ ok zs)
          × (names_of zs ≡ named_in (lines out)))
      × (all fits (lines out) ≡ false → (why : ZoneError) × (zoneadm_list out ≡ err why))
unfolding zoneadm_list
zoneadm_list-exact out = (fitting-zoneadm_rows (lines out), narrow-zoneadm_rows (lines out))
