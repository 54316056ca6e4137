-- ===== src/Common/Table.antt =====
-- SQL statements over the rows of a table.
use mathlib.Core.Bool.{Bool, not}
use mathlib.Core.List.{List, [], ◌∷◌, ◌++◌}
use mandrake.Common.Tests.{if◌then◌else◌}
use mandrake.Common.Lists.{keep}

module _ {ℓ} {A : Type ℓ} where
  -- `UPDATE … WHERE`: the rows that pass are changed in place.
  abbrev pub update_where : (A → Bool) → (A → A) → List A → List A
  update_where p f [] = []
  update_where p f (r ∷ rs) = let rest = update_where p f rs in (if p r then f r else r) ∷ rest

  -- `DELETE … WHERE`
  abbrev pub delete_where : (A → Bool) → List A → List A
  delete_where p = keep (λ r. not (p r))

  -- `INSERT`: a new row goes last.
  abbrev pub insert_row : A → List A → List A
  insert_row r rs = rs ++ r ∷ []
