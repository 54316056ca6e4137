-- ===== src/Net/Shown.antt =====
-- A route that cli.rs of crates/mandrake-net adds, as a line of `route -p show`, is read back.
use mandrake.Common.{
  ℕ, ◌≡◌, ◌≢◌, refl, ap, ◌∙◌, Bool, true, false, not, List, [], ◌∷◌, ◌++◌, Option, arith, all,
  or_else,
}
use mandrake.Common.Text.{Text, codes}
use mandrake.Common.Text.Parts.{trim, is_whitespace, join, strip_prefix}
use mandrake.Common.Text.Trim.{EndsPlain}
use mandrake.Net.{AddressFamily, inet, inet6, family_of, new_route}
use mandrake.Net.Netstat.{split_whitespace, pieces, no_blanks}
use mandrake.Net.Persistent.{PersistentRoute, nothing_said, words, said_route, persistent_route}
use mandrake.Net.Commands.{route_args, family_args, destination_args}
use mandrake.Net.Escaped.{append_assoc}
use mandrake.Net.Recorded.{
  is_positional, listed_destination, read_words, persistent, read_words-route_args,
}

-- A word is not empty and has no white space.
abbrev pub is_word : Text → Bool
is_word [] = false
is_word (c ∷ w) = all (λ x. not (is_whitespace x)) (c ∷ w)

abbrev pub line_of : List Text → Text
line_of ws = join (codes " ") ws

pieces-append :
    (w t : Text)
    → all (λ x. not (is_whitespace x)) w ≡ true
    → pieces (w ++ (b' ' ∷ t)) ≡ w ∷ pieces t
unfolding is_whitespace
pieces-append [] t h = refl
pieces-append (c ∷ w) t h = ground (arith, pieces-append w t)

pieces-alone : (w : Text) → all (λ x. not (is_whitespace x)) w ≡ true → pieces w ≡ w ∷ []
pieces-alone [] h = refl
pieces-alone (c ∷ w) h = ground (arith, pieces-alone w)

word-all : (w : Text) → is_word w ≡ true → all (λ x. not (is_whitespace x)) w ≡ true
word-all [] h = cc
word-all (c ∷ w) h = h

line_of-cons : (w v : Text) (ws : List Text) → line_of (w ∷ v ∷ ws) ≡ w ++ (b' ' ∷ line_of (v ∷ ws))
unfolding codes
line_of-cons w v ws = append_assoc w (b' ' ∷ []) (line_of (v ∷ ws))

pieces-line_of :
    (w : Text) (ws : List Text) → all is_word (w ∷ ws) ≡ true → pieces (line_of (w ∷ ws)) ≡ w ∷ ws
pieces-line_of w [] h = pieces-alone w (word-all w (ground arith))
pieces-line_of w (v ∷ ws) h =
    ap pieces (line_of-cons w v ws)
    ∙ pieces-append w (line_of (v ∷ ws)) (word-all w (ground arith))
    ∙ ap (◌∷◌ w) (pieces-line_of v ws (ground arith))

no_blanks-words : (ws : List Text) → all is_word ws ≡ true → no_blanks ws ≡ ws
no_blanks-words [] h = refl
no_blanks-words ([] ∷ ws) h = cc
no_blanks-words ((c ∷ w) ∷ ws) h = ground (arith, no_blanks-words ws)

split_whitespace-line_of :
    (w : Text) (ws : List Text)
    → all is_word (w ∷ ws) ≡ true
    → split_whitespace (line_of (w ∷ ws)) ≡ w ∷ ws
unfolding split_whitespace
split_whitespace-line_of w ws h = ap no_blanks (pieces-line_of w ws h) ∙ no_blanks-words (w ∷ ws) h

append_nonempty : (a v : Text) → v ≢ [] → a ++ v ≢ []
append_nonempty [] v ne e = ne e
append_nonempty (x ∷ a) v ne e = cc

-- The end is decided by what stands last.
EndsPlain-cons : (c : ℕ) (s : Text) → s ≢ [] → EndsPlain s → EndsPlain (c ∷ s)
EndsPlain-cons c [] ne k = absurd (ne refl)
EndsPlain-cons c (x ∷ s) ne k = ground arith

EndsPlain-before : (a v : Text) → v ≢ [] → EndsPlain v → EndsPlain (a ++ v)
EndsPlain-before [] v ne h = h
EndsPlain-before (c ∷ a) v ne h =
    EndsPlain-cons c (a ++ v) (append_nonempty a v ne) (EndsPlain-before a v ne h)

word-EndsPlain : (w : Text) → all (λ x. not (is_whitespace x)) w ≡ true → EndsPlain w
word-EndsPlain [] h = refl
word-EndsPlain (c ∷ []) h = ground arith
word-EndsPlain (c ∷ d ∷ w) h = ground (arith, word-EndsPlain (d ∷ w))

line_of_nonempty : (w : Text) (ws : List Text) → all is_word (w ∷ ws) ≡ true → line_of (w ∷ ws) ≢ []
line_of_nonempty [] [] h = cc
line_of_nonempty (c ∷ w) [] h = cc
line_of_nonempty w (v ∷ ws) h =
    append_nonempty (w ++ codes " ") (line_of (v ∷ ws)) (line_of_nonempty v ws (ground arith))

line_of-EndsPlain :
    (w : Text) (ws : List Text) → all is_word (w ∷ ws) ≡ true → EndsPlain (line_of (w ∷ ws))
line_of-EndsPlain w [] h = word-EndsPlain w (word-all w (ground arith))
line_of-EndsPlain w (v ∷ ws) h =
    EndsPlain-before (w ++ codes " ") (line_of (v ∷ ws)) (line_of_nonempty v ws (ground arith))
      (line_of-EndsPlain v ws (ground arith))

-- A line of `route -p show`.
abbrev pub shown : List Text → Text
shown ws = codes "persistent: " ++ line_of ws

abbrev read_rest : Text → Option PersistentRoute
read_rest rest =
    let said = words (split_whitespace rest) nothing_said in said_route said said.positional

abbrev after_heading : Text → Text
after_heading t = or_else (strip_prefix (codes "persistent:") t) t

abbrev pub route_words : List Text → List Text
route_words ws = codes "route" ∷ codes "add" ∷ ws

trim-shown :
    (ws : List Text)
    → EndsPlain (line_of (route_words ws))
    → line_of (route_words ws) ≢ []
    → trim (shown (route_words ws)) ≡ shown (route_words ws)
unfolding trim codes is_whitespace
trim-shown ws h ne = EndsPlain-before (codes "persistent: ") (line_of (route_words ws)) ne h

rest-shown :
    (w : Text) (ws : List Text)
    → EndsPlain (line_of (route_words (w ∷ ws)))
    → trim (after_heading (shown (route_words (w ∷ ws)))) ≡ line_of (route_words (w ∷ ws))
unfolding trim codes is_whitespace
rest-shown w ws h = h

route_words-all :
    (w : Text) (ws : List Text)
    → all is_word (w ∷ ws) ≡ true
    → all is_word (route_words (w ∷ ws)) ≡ true
unfolding codes is_whitespace
route_words-all w ws h = h

persistent_route-shown :
    (w : Text) (ws : List Text)
    → all is_word (w ∷ ws) ≡ true
    → persistent_route (shown (route_words (w ∷ ws))) ≡ read_words (route_words (w ∷ ws))
unfolding persistent_route
persistent_route-shown w ws h =
    ap (λ t. read_rest (trim (after_heading t))) (trim-shown (w ∷ ws) plain filled)
    ∙ ap read_rest (rest-shown w ws plain)
    ∙ ap (λ tok. let said = words tok nothing_said in said_route said said.positional)
        (split_whitespace-line_of (codes "route") (codes "add" ∷ w ∷ ws) all_words)
  where
    all_words : all is_word (route_words (w ∷ ws)) ≡ true
    all_words = route_words-all w ws h

    plain : EndsPlain (line_of (route_words (w ∷ ws)))
    plain = line_of-EndsPlain (codes "route") (codes "add" ∷ w ∷ ws) all_words

    filled : line_of (route_words (w ∷ ws)) ≢ []
    filled = line_of_nonempty (codes "route") (codes "add" ∷ w ∷ ws) all_words

args_shown :
    (ws : List Text)
    → ws ≢ []
    → all is_word ws ≡ true
    → persistent_route (shown (route_words ws)) ≡ read_words (route_words ws)
args_shown [] ne h = absurd (ne refl)
args_shown (w ∷ ws) ne h = persistent_route-shown w ws h

all_append :
    (u v : List Text) → all is_word u ≡ true → all is_word v ≡ true → all is_word (u ++ v) ≡ true
all_append [] v h k = k
all_append (x ∷ u) v h k = ground (arith, all_append u v)

family_args-words : (family : AddressFamily) → all is_word (family_args family) ≡ true
unfolding codes is_whitespace
family_args-words inet = refl
family_args-words inet6 = refl

destination_args-words : (d : Text) → is_word d ≡ true → all is_word (destination_args d) ≡ true
unfolding destination_args codes is_whitespace
destination_args-words d h = ground arith

route_args-words :
    (d g : Text)
    → is_word d ≡ true
    → is_word g ≡ true
    → all is_word (route_args (new_route d g)) ≡ true
route_args-words d g h k =
    all_append (family_args (family_of g) ++ destination_args d) (g ∷ [])
      (all_append (family_args (family_of g)) (destination_args d) (family_args-words (family_of g))
        (destination_args-words d h))
      (ground arith)

ends_in : (u v : List Text) (g : Text) → (u ++ v) ++ g ∷ [] ≢ []
ends_in [] [] g = cc
ends_in [] (x ∷ v) g = cc
ends_in (x ∷ u) v g = cc

-- A line of `route -p show` that repeats the words of the command that adds a route is read back as
-- a persistent route with the family of its gateway and the same destination, with the prefix length
-- of a host where it is neither `default` nor has one, provided that destination and gateway are
-- words, neither empty nor with white space in them, and no options and no verbs.
pub persistent_route-route_args :
    (d g : Text)
    → is_positional d ≡ true
    → is_positional g ≡ true
    → is_word d ≡ true
    → is_word g ≡ true
    → persistent_route (shown (route_words (route_args (new_route d g))))
      ≡ persistent (family_of g) (listed_destination d (family_of g)) g
persistent_route-route_args d g h k wd wg =
    args_shown (route_args (new_route d g))
      (ends_in (family_args (family_of g)) (destination_args d) g) (route_args-words d g wd wg)
    ∙ read_words-route_args d g h k
