-- ===== src/Net/Chains.antt =====
-- How far links lie on one another.
use mandrake.Common.{
  ℕ, ◌+◌, ◌≤◌, ◌≡◌, sym, ap, ◌∙◌, Bool, true, List, [], ◌∷◌, none, some, arith, any, all, length,
  is_some_and, Option-cases, inl, inr,
}
use mandrake.Common.Map.{lookup}
use mandrake.Common.Text.{Text, same_text, text_dec}
use mandrake.Net.{LinkKind, phys, aggr, vlan, etherstub, vnic, other, LinkInfo, State}
use mandrake.Net.Calls.{Call, perform_all}
use mandrake.Net.Grounded.{Grounded}
use mandrake.Net.Standing.{perform_all-Grounded}
use mandrake.Net.Layers.{Layered, carried, sits_on}

-- Each link is stored and lies on the next one, among others perhaps.
abbrev pub Chain : List (Text × LinkInfo) → List Text → Type 0
Chain m [] = Unit
Chain m (a ∷ []) = is_some_and (lookup text_dec a m) (λ l. true) ≡ true
Chain m (a ∷ b ∷ names) =
    (is_some_and (lookup text_dec a m) (λ l. any (λ o. same_text o b) l.over) ≡ true)
    × Chain m (b ∷ names)

-- How many links may lie below one of a kind.
abbrev depth : LinkKind → ℕ
depth phys = 0
depth aggr = 1
depth vlan = 2
depth etherstub = 0
depth vnic = 2
depth other = 0

depth-sits_on :
    (lower upper : LinkKind) → sits_on lower upper ≡ true → depth lower + 1 ≤ depth upper
depth-sits_on lower phys h = cc
depth-sits_on lower aggr h = ground arith
depth-sits_on lower vlan h = ground arith
depth-sits_on lower etherstub h = cc
depth-sits_on lower vnic h = ground arith
depth-sits_on lower other h = cc

depth-le : (kind : LinkKind) → depth kind ≤ 2
depth-le kind = ground arith

all-any :
    (p : Text → Bool) (b : Text) (xs : List Text)
    → all p xs ≡ true
    → any (λ o. same_text o b) xs ≡ true
    → p b ≡ true
all-any p b [] h e = cc
all-any p b (x ∷ xs) h e = elim (text_dec x b) [
  | yes same ↦ sym (ap p same) ∙ ground arith
  | no n ↦ all-any p b xs (ground arith) (ground arith)
]

below :
    (m : List (Text × LinkInfo)) (a : Text) (names : List Text) (l : LinkInfo)
    → Layered m
    → lookup text_dec a m ≡ some l
    → Chain m (a ∷ names)
    → length names ≤ depth l.kind
below m a [] l h e c = omega arith
below m a (b ∷ names) l h e c = elim (Option-cases (lookup text_dec b m)) [
  | inl gone ↦ ground (arith, lies)
  | inr (p, found) ↦
      omega
        (arith, below m b names p h found c.1, depth-sits_on p.kind l.kind (ground (arith, lies)))
]
  where
    lies : carried m l.kind b ≡ true
    lies = all-any (carried m l.kind) b l.over (h a l e) (ground arith)

-- Where every link lies over stored links of the kinds that may carry it, and interfaces and
-- addresses stand as they should, then after any calls of the driver no more than three links lie
-- one over the other.
pub Chain-bounded :
    (is_ip : Text → Bool) (calls : List Call) (s : State) (names : List Text)
    → Grounded s
    → Chain (perform_all is_ip calls s).links names
    → length names ≤ 3
Chain-bounded is_ip calls s [] g c = omega arith
Chain-bounded is_ip calls s (a ∷ names) g c = elim (Option-cases (lookup text_dec a t.links)) [
  | inl gone ↦ absurd (nothing names c gone)
  | inr (l, found) ↦ omega (
    arith,
    below t.links a names l (perform_all-Grounded is_ip calls s g).0 found c,
    depth-le l.kind,
  )
]
  where
    t : State
    t = perform_all is_ip calls s

    nothing : (names : List Text) → Chain t.links (a ∷ names) → lookup text_dec a t.links ≡ none → ⊥
    nothing [] k gone = ground arith
    nothing (b ∷ names) k gone = ground arith
