-- ===== src/Net/WalkFinds.antt =====
-- What the loop of `compute_protection` of crates/mandraked/src/routes/network.rs finds.
use mandrake.Common.{
  ℕ, zero, suc, ◌+◌, ◌≡◌, ◌⊎◌, ◌↔◌, refl, ap, subst, Bool, true, false, ◌&&◌, ◌||◌, List, [], ◌∷◌,
  Option, some, arith, any, length, Bool-cases, inl, inr,
}
use mandrake.Common.Text.{Text, same_text, text_dec}
use mandrake.Net.{LinkInfo, AddressInfo}
use mandrake.Net.Protect.{
  Protection, walk, push_all, beneath, total_over, is_management, seeds, compute_protection,
}
use mandrake.Zfs.Names.{is_in}

-- The second link is the first, or one that lies beneath it.
pub data Beneath (links : List LinkInfo) : Text → Text → Type 0 where
  here : (n : Text) → Beneath links n n
  below : (n o k : Text) → is_in o (beneath n links) ≡ true → Beneath links o k → Beneath links n k

is_in-push_all :
    (k : Text) (over stack : List Text)
    → is_in k (push_all over stack) ≡ (is_in k over || is_in k stack)
is_in-push_all k [] stack = refl
is_in-push_all k (o ∷ over) stack = ground (arith, is_in-push_all k over (o ∷ stack))

module _ (links : List LinkInfo) where
  abbrev From : List Text → Text → Type 0
  From stack k = (n : Text) × (is_in n stack ≡ true) × Beneath links n k

  same : (a b : Text) → same_text a b ≡ true → a ≡ b
  same a b h = elim (text_dec a b) [ yes e ↦ e | no n ↦ absurd (other n) ]
    where
      other : (a ≡ b → ⊥) → ⊥
      other n = ground arith

  pushed-From :
      (name : Text) (stack : List Text) (k : Text)
      → From (push_all (beneath name links) stack) k
      → From (name ∷ stack) k
  pushed-From name stack k (n, i, b) = elim (Bool-cases (is_in n (beneath name links))) [
    | inl over ↦ (name, ground arith, below name n k over b)
    | inr other ↦ (n, ground (arith, is_in-push_all n (beneath name links) stack), b)
  ]

  walk_sound :
      (fuel : ℕ) (stack seen r : List Text) (k : Text)
      → walk links fuel stack seen ≡ some r
      → is_in k r ≡ true
      → (is_in k seen ≡ true) ⊎ From stack k
  unfolding walk
  walk_sound fuel [] seen r k e i = inl (ground arith)
  walk_sound zero (name ∷ stack) seen r k e i = cc
  walk_sound (suc fuel) (name ∷ stack) seen r k e i = elim (Bool-cases (is_in name seen)) [
    | inl old ↦ skip (walk_sound fuel stack seen r k (ground arith) i)
    | inr new ↦
        push
          (walk_sound fuel (push_all (beneath name links) stack) (name ∷ seen) r k (ground arith) i)
          (Bool-cases (same_text name k))
  ]
    where
      skip : (is_in k seen ≡ true) ⊎ From stack k → (is_in k seen ≡ true) ⊎ From (name ∷ stack) k
      skip (inl h) = inl h
      skip (inr (n, j, b)) = inr (n, ground arith, b)

      push :
          (is_in k (name ∷ seen) ≡ true) ⊎ From (push_all (beneath name links) stack) k
          → (same_text name k ≡ true) ⊎ (same_text name k ≡ false)
          → (is_in k seen ≡ true) ⊎ From (name ∷ stack) k
      push (inl h) (inl s) =
          inr (name, ground arith, subst (Beneath links name) (same name k s) (here name))
      push (inl h) (inr s) = inl (ground arith)
      push (inr f) s = inr (pushed-From name stack k f)

  walk-keeps :
      (fuel : ℕ) (stack seen r : List Text) (k : Text)
      → walk links fuel stack seen ≡ some r
      → (is_in k seen || is_in k stack) ≡ true
      → is_in k r ≡ true
  unfolding walk
  walk-keeps fuel [] seen r k e i = ground arith
  walk-keeps zero (name ∷ stack) seen r k e i = cc
  walk-keeps (suc fuel) (name ∷ stack) seen r k e i = elim (Bool-cases (is_in name seen)) [
    | inl old ↦
        walk-keeps fuel stack seen r k (ground arith) (elim (Bool-cases (same_text name k)) [
          | inl s ↦ ground (arith, ap (λ x. is_in x seen) (same name k s))
          | inr s ↦ ground arith
        ])
    | inr new ↦
        walk-keeps fuel (push_all (beneath name links) stack) (name ∷ seen) r k (ground arith)
          (ground (arith, is_in-push_all k (beneath name links) stack))
  ]

  -- What lies beneath a name that was seen was seen or is on the stack.
  abbrev Closed : List Text → List Text → Type 0
  Closed seen stack =
      (n o : Text)
      → is_in n seen ≡ true
      → is_in o (beneath n links) ≡ true
      → (is_in o seen || is_in o stack) ≡ true

  walk-Closed :
      (fuel : ℕ) (stack seen r : List Text)
      → walk links fuel stack seen ≡ some r
      → Closed seen stack
      → Closed r []
  unfolding walk
  walk-Closed fuel [] seen r e c = subst (λ x. Closed x []) (ground arith) c
  walk-Closed zero (name ∷ stack) seen r e c = cc
  walk-Closed (suc fuel) (name ∷ stack) seen r e c = elim (Bool-cases (is_in name seen)) [
    | inl old ↦
        walk-Closed fuel stack seen r (ground arith)
          (λ n o i j. skip old n o i j (Bool-cases (same_text name o)))
    | inr new ↦
        walk-Closed fuel (push_all (beneath name links) stack) (name ∷ seen) r (ground arith)
          (λ n o i j. push n o i j (Bool-cases (same_text name n)))
  ]
    where
      skip :
          is_in name seen ≡ true
          → (n o : Text) → is_in n seen ≡ true
          → is_in o (beneath n links) ≡ true
          → (same_text name o ≡ true) ⊎ (same_text name o ≡ false)
          → (is_in o seen || is_in o stack) ≡ true
      skip old n o i j (inl s) = ground (arith, ap (λ x. is_in x seen) (same name o s))
      skip old n o i j (inr s) = ground (arith, c n o i j)

      push :
          (n o : Text)
          → is_in n (name ∷ seen) ≡ true
          → is_in o (beneath n links) ≡ true
          → (same_text name n ≡ true) ⊎ (same_text name n ≡ false)
          → (is_in o (name ∷ seen) || is_in o (push_all (beneath name links) stack)) ≡ true
      push n o i j (inl s) = ground (
        arith,
        is_in-push_all o (beneath name links) stack,
        ap (λ x. is_in o (beneath x links)) (same name n s),
      )
      push n o i j (inr s) = ground (arith, is_in-push_all o (beneath name links) stack, c n o)

  Closed-Beneath :
      (r : List Text)
      → Closed r []
      → (n k : Text) → Beneath links n k
      → is_in n r ≡ true
      → is_in k r ≡ true
  Closed-Beneath r c n _ (here _) i = i
  Closed-Beneath r c n k (below _ o _ j b) i = Closed-Beneath r c o k b (ground (arith, c n o i j))

module _ {Ip : Type 0} (parse_ip : Text → Option Ip) (same_ip : Ip → Ip → Bool)
    (ips : List Ip) where
  -- An interface of an address that the daemon is reached on.
  abbrev pub carries : List AddressInfo → Text → Bool
  carries addresses n =
      any (λ a. is_management parse_ip same_ip ips a && same_text a.interface n) addresses

  is_in-seeds :
      (addresses : List AddressInfo) (stack : List Text) (n : Text)
      → is_in n (seeds parse_ip same_ip ips addresses stack)
        ≡ (carries addresses n || is_in n stack)
  is_in-seeds [] stack n = refl
  is_in-seeds (a ∷ addresses) stack n = elim (Bool-cases (is_management parse_ip same_ip ips a)) [
    | inl e ↦ rw e (ground (arith, is_in-seeds addresses (a.interface ∷ stack) n))
    | inr e ↦ rw e (is_in-seeds addresses stack n)
  ]

  found_by :
      (links : List LinkInfo) (addresses : List AddressInfo) (p : Protection)
      → compute_protection parse_ip same_ip ips links addresses ≡ some p
      → walk links
          (length (seeds parse_ip same_ip ips addresses []) + total_over links)
          (seeds parse_ip same_ip ips addresses [])
          []
        ≡ some p.links
  unfolding compute_protection
  found_by links addresses p e = ground arith

  -- The links that are protected are exactly the interfaces of the addresses that the daemon is
  -- reached on and the links that lie beneath them, at any depth.
  pub compute_protection-exact :
      (links : List LinkInfo) (addresses : List AddressInfo) (p : Protection) (k : Text)
      → compute_protection parse_ip same_ip ips links addresses ≡ some p
      → (is_in k p.links ≡ true) ↔ ((n : Text) × (carries addresses n ≡ true) × Beneath links n k)
  compute_protection-exact links addresses p k e = (there, back)
    where
      fuel : ℕ
      fuel = length (seeds parse_ip same_ip ips addresses []) + total_over links

      seed : List Text
      seed = seeds parse_ip same_ip ips addresses []

      there : is_in k p.links ≡ true → (n : Text) × (carries addresses n ≡ true) × Beneath links n k
      there i = elim (walk_sound links fuel seed [] p.links k (found_by links addresses p e) i) [
        | inl h ↦ absurd (nothing h)
        | inr (n, j, b) ↦ (n, ground (arith, is_in-seeds addresses [] n), b)
      ]
        where
          nothing : is_in k [] ≡ true → ⊥
          nothing h = cc

      back : (n : Text) × (carries addresses n ≡ true) × Beneath links n k → is_in k p.links ≡ true
      back (n, c, b) =
          Closed-Beneath links p.links
            (walk-Closed links fuel seed [] p.links (found_by links addresses p e) (λ n o i j. cc))
            n k b
            (walk-keeps links fuel seed [] p.links n (found_by links addresses p e)
              (ground (arith, is_in-seeds addresses [] n)))
