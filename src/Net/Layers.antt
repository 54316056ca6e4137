-- ===== src/Net/Layers.antt =====
-- Links lie on links of the kinds that carry them, interfaces on links, and addresses on interfaces.
use mandrake.Common.{
  ◌≡◌, refl, ap, ◌∙◌, Bool, true, false, List, [], ◌∷◌, some, arith, any, all, is_some_and,
  Option-cases, inl, inr,
}
use mandrake.Common.Map.{lookup, insert, remove, lookup-insert, lookup-remove}
use mandrake.Common.Text.{Text, same_text, text_dec}
use mandrake.Zfs.Names.{same_text-sym}
use mandrake.Net.{LinkKind, phys, aggr, vlan, vnic, LinkInfo, same_kind}
use mandrake.Net.Links.{carries_vlan, carries_vnic, has_dependents}

-- Whether a link of the first kind carries links of the second.
abbrev pub sits_on : LinkKind → LinkKind → Bool
sits_on lower aggr = same_kind lower phys
sits_on lower vlan = carries_vlan lower
sits_on lower vnic = carries_vnic lower
sits_on lower kind = false

abbrev pub carried : List (Text × LinkInfo) → LinkKind → Text → Bool
carried links kind o = is_some_and (lookup text_dec o links) (λ p. sits_on p.kind kind)

abbrev pub layered : List (Text × LinkInfo) → LinkInfo → Bool
layered links l = all (carried links l.kind) l.over

abbrev pub Layered : List (Text × LinkInfo) → Type 0
Layered links =
    (k : Text) (l : LinkInfo) → lookup text_dec k links ≡ some l → layered links l ≡ true

all_mono :
    (p q : Text → Bool) (xs : List Text)
    → ((x : Text) → p x ≡ true → q x ≡ true)
    → all p xs ≡ true
    → all q xs ≡ true
all_mono p q [] f h = refl
all_mono p q (x ∷ xs) f h = ground (arith, f x, all_mono p q xs f)

-- A link that replaces none, or one of its kind, leaves the others carried.
carried-insert :
    (m : List (Text × LinkInfo)) (name : Text) (l : LinkInfo) (kind : LinkKind) (o : Text)
    → ((p : LinkInfo) → lookup text_dec name m ≡ some p → p.kind ≡ l.kind)
    → carried m kind o ≡ true
    → carried (insert text_dec name l m) kind o ≡ true
carried-insert m name l kind o same h = elim (text_dec name o) [
  | yes e ↦ elim (Option-cases (lookup text_dec name m)) [
    | inl gone ↦ ground (arith, lookup-insert text_dec o name l m, ap (λ x. lookup text_dec x m) e)
    | inr (p, found) ↦
        ground
          (arith, same p found, lookup-insert text_dec o name l m, ap (λ x. lookup text_dec x m) e)
  ]
  | no n ↦ ground (arith, lookup-insert text_dec o name l m)
]

pub insert-Layered :
    (m : List (Text × LinkInfo)) (name : Text) (l : LinkInfo)
    → ((p : LinkInfo) → lookup text_dec name m ≡ some p → p.kind ≡ l.kind)
    → layered m l ≡ true
    → Layered m
    → Layered (insert text_dec name l m)
insert-Layered m name l same new h k x e =
    all_mono (carried m x.kind) (carried (insert text_dec name l m) x.kind) x.over
      (λ o. carried-insert m name l x.kind o same) (old (text_dec name k))
  where
    here : name ≡ k → x ≡ l
    here p = ground (arith, lookup-insert text_dec k name l m)

    old : Dec (name ≡ k) → layered m x ≡ true
    old (yes p) = ap (layered m) (here p) ∙ new
    old (no n) = h k x (ground (arith, lookup-insert text_dec k name l m))

has_dependents-over :
    (name k : Text) (l : LinkInfo) (m : List (Text × LinkInfo))
    → has_dependents name m ≡ false
    → lookup text_dec k m ≡ some l
    → any (λ o. same_text o name) l.over ≡ false
has_dependents-over name k l [] h e = cc
has_dependents-over name k l ((j, w) ∷ m) h e = elim (text_dec j k) [
  | yes p ↦ ground arith
  | no n ↦ has_dependents-over name k l m (ground arith) (ground arith)
]

all-carried-remove :
    (m : List (Text × LinkInfo)) (name : Text) (kind : LinkKind) (over : List Text)
    → any (λ o. same_text o name) over ≡ false
    → all (carried m kind) over ≡ true
    → all (carried (remove text_dec name m) kind) over ≡ true
all-carried-remove m name kind [] h e = refl
all-carried-remove m name kind (o ∷ over) h e = ground (
  arith,
  all-carried-remove m name kind over,
  lookup-remove text_dec o name m,
  same_text-sym o name,
)

pub remove-Layered :
    (m : List (Text × LinkInfo)) (name : Text)
    → has_dependents name m ≡ false
    → Layered m
    → Layered (remove text_dec name m)
remove-Layered m name free h k x e =
    all-carried-remove m name x.kind x.over (has_dependents-over name k x m free kept) (h k x kept)
  where
    kept : lookup text_dec k m ≡ some x
    kept = ground (arith, lookup-remove text_dec k name m)
