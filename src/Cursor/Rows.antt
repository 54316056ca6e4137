-- ===== src/Cursor/Rows.antt =====
-- Lists of rows: what a test keeps, what a page takes and what it leaves.
use mandrake.Common.{
  ℕ, zero, suc, ◌-◌, ◌≤◌, ◌≡◌, refl, sym, ap, ◌∙◌, Bool, true, List, [], ◌∷◌, ◌++◌, none, some,
  arith, length, take, drop, last?, keep, All, take-append-drop, length-take, Bool-cases,
  Option-cases, inl, inr, subst,
}

module _ {A : Type 0} where
  pub keep-All : (p : A → Bool) (xs : List A) → All (λ x. p x ≡ true) xs → keep p xs ≡ xs
  keep-All p [] h = refl
  keep-All p (x ∷ xs) h = ground (arith, keep-All p xs h.1)

  pub keep-keep :
      (p q : A → Bool) (xs : List A)
      → ((x : A) → q x ≡ true → p x ≡ true)
      → keep q (keep p xs) ≡ keep q xs
  keep-keep p q [] h = refl
  keep-keep p q (x ∷ xs) h = ground (arith, h x, keep-keep p q xs h)

  pub All-keep : (P : A → Type 0) (p : A → Bool) (xs : List A) → All P xs → All P (keep p xs)
  All-keep P p [] h = tt
  All-keep P p (x ∷ xs) h = elim (Bool-cases (p x)) [
    | inl e ↦ rw e (h.0, All-keep P p xs h.1)
    | inr e ↦ rw e (All-keep P p xs h.1)
  ]

  pub keep_passes : (p : A → Bool) (xs : List A) → All (λ x. p x ≡ true) (keep p xs)
  keep_passes p [] = tt
  keep_passes p (x ∷ xs) = elim (Bool-cases (p x)) [
    | inl e ↦ rw (e, e) (refl, keep_passes p xs)
    | inr e ↦ rw e (keep_passes p xs)
  ]

  pub last-cons :
      (x : A) (xs : List A) → last? (x ∷ xs) ≡ (elim (last? xs) [ none ↦ some x | some l ↦ some l ])
  last-cons x [] = refl
  last-cons x (y ∷ []) = refl
  last-cons x (y ∷ z ∷ xs) = ground (arith, last-cons y (z ∷ xs))

  pub last_none : (xs : List A) → last? xs ≡ none → xs ≡ []
  last_none [] e = refl
  last_none (x ∷ xs) e = ground (arith, last-cons x xs)

  pub drop_rest : (n : ℕ) (xs : List A) → take n xs ≡ [] → drop n xs ≡ xs
  drop_rest n xs e = sym (ap (λ t. t ++ drop n xs) e) ∙ take-append-drop n xs

  pub All-last :
      (P : A → Type 0) (n : ℕ) (xs : List A) {l : A} → All P xs → last? (take n xs) ≡ some l → P l
  All-last P zero xs h e = cc
  All-last P (suc n) [] h e = cc
  All-last P (suc n) (x ∷ xs) {l} h e = elim (Option-cases (last? (take n xs))) [
    | inl k ↦ subst P (ground (arith, last-cons x (take n xs))) h.0
    | inr (m, k) ↦ subst P (ground (arith, last-cons x (take n xs))) (All-last P n xs h.1 k)
  ]

  pub take_all : (n : ℕ) (xs : List A) → length xs ≤ n → take n xs ≡ xs
  take_all zero [] h = refl
  take_all (suc n) [] h = refl
  take_all zero (x ∷ xs) h = ground arith
  take_all (suc n) (x ∷ xs) h = ap (◌∷◌ x) (take_all n xs (omega arith))

  pub take-take : (n : ℕ) (xs : List A) → take n (take (suc n) xs) ≡ take n xs
  take-take zero xs = refl
  take-take (suc n) [] = refl
  take-take (suc n) (x ∷ xs) = ap (◌∷◌ x) (take-take n xs)

  pub last_some :
      (n : ℕ) (xs : List A) → 1 ≤ n → n ≤ length xs → (l : A) × (last? (take n xs) ≡ some l)
  last_some n xs h k = elim (Option-cases (last? (take n xs))) [
    | inr found ↦ found
    | inl e ↦ absurd (ground (arith, length-take n xs, ap length (last_none (take n xs) e)))
  ]

  pub length-drop : (n : ℕ) (ys : List A) → length (drop n ys) ≡ length ys - n
  length-drop zero ys = omega arith
  length-drop (suc n) [] = omega arith
  length-drop (suc n) (y ∷ ys) = omega (arith, length-drop n ys)

  pub append_nil : (xs : List A) → xs ++ [] ≡ xs
  append_nil [] = refl
  append_nil (x ∷ xs) = ap (◌∷◌ x) (append_nil xs)
