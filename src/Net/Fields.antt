-- ===== src/Net/Fields.antt =====
-- The fields of one line of parsable output, in parse.rs of crates/mandrake-net.
use mandrake.Common.{ℕ, zero, suc, List, [], ◌∷◌, ◌++◌, leb, if◌then◌else◌, ◌==◌, length, map}
use mandrake.Common.Text.{Text, codes, same_text}
use mandrake.Common.Text.Parts.{cons_head, join, trim}
use mandrake.Common.Text.Decimal.{show}
use mandrake.Net.{parse, Outcome, ok, err, and_then}

-- A colon ends a field; a backslash stands before a character that is taken as it is, and is dropped
-- at the end of the line.
unfoldable pub fields : Text → List Text
fields [] = [] ∷ []
fields (c ∷ []) = if c == b'\\' then [] ∷ [] else if c == b':' then [] ∷ [] ∷ [] else (c ∷ []) ∷ []
fields (c ∷ d ∷ s) =
    let rest = fields (d ∷ s) in
    let after = fields s in
    if c == b'\\' then cons_head d after else if c == b':' then [] ∷ rest else cons_head c rest

-- The fields of every line that is not blank, each with as many as are wanted or more.
unfoldable pub rows : Text → ℕ → List Text → Outcome (List (List Text))
rows command want [] = ok []
rows command want (line ∷ more) =
    let rest = rows command want more in
    if same_text (trim line) []
    then rest
    else if leb want (length (fields line))
    then and_then rest (λ read. ok (fields line ∷ read))
    else err (parse command (codes "expected " ++ show want ++ codes " fields: " ++ line))

-- The fields that `rows` has counted are there.
abbrev pub field : ℕ → List Text → Text
field i [] = []
field zero (f ∷ fs) = f
field (suc i) (f ∷ fs) = field i fs

-- How `dladm` and `ipadm` write a field.
abbrev pub escape : Text → Text
escape [] = []
escape (c ∷ s) =
    if c == b':'
    then b'\\' ∷ c ∷ escape s
    else if c == b'\\'
    then b'\\' ∷ c ∷ escape s
    else c ∷ escape s

abbrev pub line_of : List Text → Text
line_of fs = join (codes ":") (map escape fs)
