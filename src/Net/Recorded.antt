-- ===== src/Net/Recorded.antt =====
-- A route that cli.rs of crates/mandrake-net adds is read back by `persistent_route` of parse.rs.
use mandrake.Common.{
  ℕ, ◌≡◌, refl, ap, ◌∙◌, Bool, true, false, not, ◌||◌, List, [], ◌∷◌, ◌++◌, Option, none, some,
  arith, if◌then◌else◌, Bool-cases, inl, inr, ℕ_discrete, ◌⊎◌,
}
use mandrake.Common.Text.{Text, codes, same_text, text_dec}
use mandrake.Common.Text.Parts.{starts_with}
use mandrake.Net.{AddressFamily, inet, inet6, family_of, new_route}
use mandrake.Net.Netstat.{has_slash}
use mandrake.Net.Persistent.{
  PersistentRoute, Said, nothing_said, words, say, skips, said_route, persistent_destination,
  host_bits,
}
use mandrake.Net.Commands.{route_args, destination_args, family_args}

-- A word that `route` takes neither for an option nor for a verb.
abbrev pub is_positional : Text → Bool
is_positional w =
    not (starts_with (codes "-") w || same_text w (codes "add") || same_text w (codes "route"))

-- How the reader writes a destination without a prefix length.
abbrev pub listed_destination : Text → AddressFamily → Text
listed_destination destination family =
    if same_text destination (codes "default") || has_slash destination
    then destination
    else destination ++ codes "/" ++ host_bits family

-- The words of a line after its heading.
abbrev pub read_words : List Text → Option PersistentRoute
read_words tok = let said = words tok nothing_said in said_route said said.positional

no_option : (w rest : Text) → starts_with (codes "-") w ≡ false → same_text w (b'-' ∷ rest) ≡ false
unfolding codes
no_option [] rest h = ground arith
no_option (c ∷ w) rest h = elim (text_dec (c ∷ w) (b'-' ∷ rest)) [
  | yes e ↦ absurd (dash (head c w rest e))
  | no n ↦ ground (arith, n)
]
  where
    head : (c : ℕ) (w rest : Text) → ◌≡◌ {A = Text} (c ∷ w) (b'-' ∷ rest) → c ≡ b'-'
    head c w rest e = cc

    dash : c ≡ b'-' → ⊥
    dash e = ground arith

say-positional :
    (w : Text) (said : Said)
    → is_positional w ≡ true
    → say w said ≡ record said { positional = said.positional ++ w ∷ [] }
unfolding say codes
say-positional w said h = ground (
  arith,
  no_option w (codes "host") (ground arith),
  no_option w (codes "inet") (ground arith),
  no_option w (codes "inet6") (ground arith),
  no_option w (codes "netmask") (ground arith),
  no_option w (codes "ifp") (ground arith),
  no_option w (codes "ifa") (ground arith),
)

-- A word that takes no other with it.
abbrev alone : Text → Bool
alone x = not (same_text x (codes "-netmask") || skips x)

words-say :
    (x : Text) (tok : List Text) (said : Said)
    → alone x ≡ true
    → words (x ∷ tok) said ≡ words tok (say x said)
unfolding words
words-say x [] said h = refl
words-say x (y ∷ tok) said h = ground arith

positional-alone : (w : Text) → is_positional w ≡ true → alone w ≡ true
unfolding codes
positional-alone w h = ground (
  arith,
  no_option w (codes "netmask") (ground arith),
  no_option w (codes "ifp") (ground arith),
  no_option w (codes "ifa") (ground arith),
)

words-positional :
    (w : Text) (tok : List Text) (said : Said)
    → is_positional w ≡ true
    → words (w ∷ tok) said ≡ words tok (record said { positional = said.positional ++ w ∷ [] })
words-positional w tok said h =
    words-say w tok said (positional-alone w h) ∙ ap (words tok) (say-positional w said h)

-- The two words that a line is read to, after its options.
two_words :
    (d g : Text) (said : Said)
    → is_positional d ≡ true
    → is_positional g ≡ true
    → words (d ∷ g ∷ []) said ≡ record said { positional = (said.positional ++ d ∷ []) ++ g ∷ [] }
unfolding words
two_words d g said h k =
    words-positional d (g ∷ []) said h
    ∙ words-positional g [] (record said { positional = said.positional ++ d ∷ [] }) k

abbrev hosts : Text → Bool
hosts d = not (same_text d (codes "default") || has_slash d)

host_word :
    (tok : List Text) (said : Said)
    → words (codes "-host" ∷ tok) said ≡ words tok (record said { host = true })
unfolding codes text_dec ℕ_discrete say
host_word tok said = words-say (codes "-host") tok said refl

net_word : (tok : List Text) (said : Said) → words (codes "-net" ∷ tok) said ≡ words tok said
unfolding codes text_dec ℕ_discrete say
net_word tok said = words-say (codes "-net") tok said refl

inet6_word :
    (tok : List Text) (said : Said)
    → words (codes "-inet6" ∷ tok) said ≡ words tok (record said { family = some inet6 })
unfolding codes text_dec ℕ_discrete say
inet6_word tok said = words-say (codes "-inet6") tok said refl

add_words :
    (tok : List Text)
    → words (codes "route" ∷ codes "add" ∷ tok) nothing_said
      ≡ words tok (record nothing_said { is_add = true })
unfolding codes text_dec ℕ_discrete say
add_words tok =
    words-say (codes "route") (codes "add" ∷ tok) nothing_said refl
    ∙ words-say (codes "add") tok nothing_said refl

abbrev then_two : Text → Text → Said → Bool → Said
then_two d g said host = record said {
  host = host;
  positional = (said.positional ++ d ∷ []) ++ g ∷ [];
}

destination_said :
    (d g : Text) (said : Said)
    → is_positional d ≡ true
    → is_positional g ≡ true
    → words (destination_args d ++ g ∷ []) said ≡ then_two d g said (said.host || hosts d)
unfolding destination_args
destination_said d g said h k = by (text_dec d (codes "default")) (Bool-cases (has_slash d))
  where
    by :
        Dec (d ≡ codes "default")
        → (has_slash d ≡ true) ⊎ (has_slash d ≡ false)
        → words (destination_args d ++ g ∷ []) said ≡ then_two d g said (said.host || hosts d)
    by (yes e) slash =
        ap (λ tok. words tok said) (ground arith)
        ∙ two_words d g said h k
        ∙ ap (then_two d g said) (ground arith)
    by (no n) (inl net) =
        ap (λ tok. words tok said) (ground (arith, n))
        ∙ net_word (d ∷ g ∷ []) said
        ∙ two_words d g said h k
        ∙ ap (then_two d g said) (ground arith)
    by (no n) (inr host) =
        ap (λ tok. words tok said) (ground (arith, n))
        ∙ host_word (d ∷ g ∷ []) said
        ∙ two_words d g (record said { host = true }) h k
        ∙ ap (then_two d g said) (ground (arith, n))

abbrev given_family : AddressFamily → Option AddressFamily
given_family inet = none
given_family inet6 = some inet6

-- What is said by the words of a command that adds a route.
abbrev all_said : Text → Text → AddressFamily → Said
all_said d g family = record {
  family = given_family family;
  netmask = none;
  host = hosts d;
  is_add = true;
  positional = d ∷ g ∷ [];
}

words-args :
    (d g : Text) (family : AddressFamily)
    → is_positional d ≡ true
    → is_positional g ≡ true
    → words
        (family_args family ++ destination_args d ++ g ∷ [])
        (record nothing_said { is_add = true })
      ≡ all_said d g family
words-args d g inet h k = destination_said d g (record nothing_said { is_add = true }) h k
words-args d g inet6 h k =
    inet6_word (destination_args d ++ g ∷ []) (record nothing_said { is_add = true })
    ∙ destination_said d g (record nothing_said { is_add = true; family = some inet6 }) h k

destination-listed :
    (d g : Text) (said family : AddressFamily)
    → persistent_destination (all_said d g said) family d ≡ listed_destination d family
destination-listed d g said family = ground arith

abbrev pub persistent : AddressFamily → Text → Text → Option PersistentRoute
persistent family destination gateway =
    some (record { family = family; destination = destination; gateway = gateway })

all_said-route :
    (d g : Text) (family : AddressFamily)
    → family_of g ≡ family
    → said_route (all_said d g family) (d ∷ g ∷ [])
      ≡ persistent family (listed_destination d family) g
all_said-route d g inet e =
    ap (λ f. persistent f (persistent_destination (all_said d g inet) f d) g) e
    ∙ ap (λ x. persistent inet x g) (destination-listed d g inet inet)
all_said-route d g inet6 e = ap (λ x. persistent inet6 x g) (destination-listed d g inet6 inet6)

-- The words of the command that adds a route are read back as a persistent route with the family of
-- its gateway and the same destination, with the prefix length of a host where it is neither
-- `default` nor has one, provided that destination and gateway are no options and no verbs.
pub read_words-route_args :
    (d g : Text)
    → is_positional d ≡ true
    → is_positional g ≡ true
    → read_words (codes "route" ∷ codes "add" ∷ route_args (new_route d g))
      ≡ persistent (family_of g) (listed_destination d (family_of g)) g
read_words-route_args d g h k =
    ap (λ said. said_route said said.positional)
      (add_words (route_args (new_route d g)) ∙ words-args d g (family_of g) h k)
    ∙ all_said-route d g (family_of g) refl
