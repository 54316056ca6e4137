-- ===== src/Auth/Limiter/Window.antt =====
-- The queue of one key: its hits stand in order of time, so popping the front leaves exactly the
-- hits of the window.
use mandrake.Common.{
  ℕ, ◌-◌, ◌≤◌, ◌<◌, ◌≡◌, refl, Bool, false, List, [], ◌∷◌, ◌++◌, arith, ltb, length, last?,
  count_if, All, is_some_and,
}
use mandrake.Auth.Limiter.{drop_expired}

-- The hits stand in order, none later than `now`.
abbrev pub IsOrdered : ℕ → List ℕ → Type 0
IsOrdered now [] = Unit
IsOrdered now (t ∷ q) = (t ≤ now) × All (λ u. t ≤ u) q × IsOrdered now q

-- A hit counts at `now` while it is younger than the window.
abbrev pub is_recent : ℕ → ℕ → ℕ → Bool
is_recent window now t = ltb (now - t) window

abbrev pub recent : ℕ → ℕ → List ℕ → ℕ
recent window now q = count_if (is_recent window now) q

pub IsOrdered-later : (now at : ℕ) (q : List ℕ) → now ≤ at → IsOrdered now q → IsOrdered at q
IsOrdered-later now at [] le h = tt
IsOrdered-later now at (t ∷ q) le h = (omega arith, h.1, IsOrdered-later now at q le h.2)

All-le : (a b : ℕ) (q : List ℕ) → a ≤ b → All (λ u. b ≤ u) q → All (λ u. a ≤ u) q
All-le a b [] le h = tt
All-le a b (t ∷ q) le h = (omega arith, All-le a b q le h.1)

-- Behind a recent hit all are recent.
recent-All :
    (window now t : ℕ) (q : List ℕ)
    → now - t < window
    → All (λ u. t ≤ u) q
    → recent window now q ≡ length q
recent-All window now t [] r h = refl
recent-All window now t (u ∷ q) r h = ground (arith, recent-All window now t q r h.1)

-- Popping the expired front leaves as many hits as are recent.
pub length-drop_expired :
    (window now : ℕ) (q : List ℕ)
    → IsOrdered now q
    → length (drop_expired window now q) ≡ recent window now q
unfolding drop_expired
length-drop_expired window now [] h = refl
length-drop_expired window now (t ∷ q) h =
    ground (arith, length-drop_expired window now q h.2, recent-All window now t q)

-- At no later time does popping change what counts.
pub recent-drop_expired :
    (window now at : ℕ) (q : List ℕ)
    → now ≤ at
    → recent window at (drop_expired window now q) ≡ recent window at q
unfolding drop_expired
recent-drop_expired window now at [] le = refl
recent-drop_expired window now at (t ∷ q) le =
    ground (arith, recent-drop_expired window now at q le)

pub drop_expired-IsOrdered :
    (window now : ℕ) (q : List ℕ) → IsOrdered now q → IsOrdered now (drop_expired window now q)
unfolding drop_expired
drop_expired-IsOrdered window now [] h = tt
drop_expired-IsOrdered window now (t ∷ q) h =
    ground (arith, drop_expired-IsOrdered window now q h.2)

All-push :
    (t now : ℕ) (q : List ℕ) → t ≤ now → All (λ u. t ≤ u) q → All (λ u. t ≤ u) (q ++ now ∷ [])
All-push t now [] le h = (le, tt)
All-push t now (u ∷ q) le h = (h.0, All-push t now q le h.1)

pub push-IsOrdered : (now : ℕ) (q : List ℕ) → IsOrdered now q → IsOrdered now (q ++ now ∷ [])
push-IsOrdered now [] h = (omega arith, tt, tt)
push-IsOrdered now (t ∷ q) h = (h.0, All-push t now q h.0 h.1, push-IsOrdered now q h.2)

-- If the newest hit has expired, all have.
pub recent_none :
    (window now at : ℕ) (q : List ℕ)
    → now ≤ at
    → IsOrdered now q
    → is_some_and (last? q) (is_recent window now) ≡ false
    → recent window at q ≡ 0
recent_none window now at [] le h e = refl
recent_none window now at (t ∷ []) le h e = ground arith
recent_none window now at (t ∷ u ∷ q) le h e =
    ground (arith, recent_none window now at (u ∷ q) le h.2 e, recent_old window now at t u q)
  where
    recent_old :
        (window now at t u : ℕ) (q : List ℕ)
        → recent window at (u ∷ q) ≡ 0
        → t ≤ u
        → ltb (at - t) window ≡ false
    recent_old window now at t u q z le = ground arith
