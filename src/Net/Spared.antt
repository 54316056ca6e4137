-- ===== src/Net/Spared.antt =====
-- The routes of crates/mandraked/src/routes/network.rs take nothing away from the management path.
use mandrake.Common.{
  ◌≡◌, ◌≢◌, refl, sym, ap, ◌∙◌, subst, Bool, true, false, ◌&&◌, ◌||◌, List, [], ◌∷◌, Option, none,
  some, arith, is_some, Bool-cases, Option-cases, inl, inr, any,
}
use mandrake.Common.Map.{lookup, lookup-remove}
use mandrake.Common.Text.{Text, same_text, text_dec}
use mandrake.Core.Role.{Ident}
use mandrake.Daemon.Handler.{Result, ok, err}
use mandrake.Auth.Extract.{Auth}
use mandrake.Net.{LinkKind, LinkInfo, AddressInfo, State, Answer, Outcome, and_then, commit}
use mandrake.Net.Links.{delete_link}
use mandrake.Net.Addresses.{delete_address}
use mandrake.Net.Protect.{Protection, compute_protection, is_management, management_names, put_name}
use mandrake.Net.WalkEnds.{compute_protection-ends}
use mandrake.Net.WalkFinds.{Beneath, carries, compute_protection-exact}
use mandrake.Net.Removal.{
  may_remove_link, remove_link, may_remove_address, remove_address, and_check, refuse_if, or_refuse,
  then_drive, driven,
}
use mandrake.Zfs.Names.{is_in}

delete_link-lookup :
    (name k : Text) (kind : LinkKind) (s : State)
    → name ≢ k
    → lookup text_dec k (delete_link name kind s).1.links ≡ lookup text_dec k s.links
unfolding delete_link commit and_then
delete_link-lookup name k kind s n = ground (arith, lookup-remove text_dec k name s.links)

delete_address-lookup :
    (name k : Text) (s : State)
    → name ≢ k
    → lookup text_dec k (delete_address name s).1.addresses ≡ lookup text_dec k s.addresses
unfolding delete_address commit and_then
delete_address-lookup name k s n = ground (arith, lookup-remove text_dec k name s.addresses)

is_in-put_name :
    (name k : Text) (names : List Text)
    → is_in k (put_name name names) ≡ (same_text name k || is_in k names)
is_in-put_name name k names = elim (text_dec name k) [
  | yes e ↦ ground (arith, ap (λ n. is_in n names) e)
  | no n ↦ ground (arith, n)
]

driven-state : (a : Answer) → (driven a).1 ≡ a.1
driven-state (Outcome.ok done, t) = refl
driven-state (Outcome.err e, t) = refl

-- What the call leaves, when it is made only for what passed the checks.
then_drive-keeps :
    {A : Type 0} (P : State → Type 0) (r : Result A) (call : A → Answer) (s : State)
    → P s
    → ((a : A) → r ≡ ok a → P (call a).1)
    → P (then_drive r call s).1
unfolding then_drive
then_drive-keeps P (ok a) call s p f = subst P (sym (driven-state (call a))) (f a refl)
then_drive-keeps P (err e) call s p f = p

module _ {Ip : Type 0} (parse_ip : Text → Option Ip) (same_ip : Ip → Ip → Bool)
    (derived : Text → Ident) (auth : Auth) (ips : List Ip) where
  may_remove_link-lem :
      (links : List LinkInfo) (addresses : List AddressInfo) (id : Ident) (kind : LinkKind)
      (info : LinkInfo) (p : Protection)
      → may_remove_link parse_ip same_ip derived auth ips links addresses id kind ≡ ok info
      → compute_protection parse_ip same_ip ips links addresses ≡ some p
      → is_in info.name p.links ≡ false
  unfolding may_remove_link and_check refuse_if or_refuse
  may_remove_link-lem links addresses id kind info p h e = ground arith

  -- A request to delete a link, whoever makes it and whatever it names, leaves every link as it was
  -- that carries an address the daemon is reached on, or lies beneath one that does, in the lists
  -- that the request goes by.
  pub remove_link_spares :
      (links : List LinkInfo) (addresses : List AddressInfo) (id : Ident) (kind : LinkKind)
      (s : State) (n k : Text)
      → carries parse_ip same_ip ips addresses n ≡ true
      → Beneath links n k
      → lookup text_dec k
          (remove_link parse_ip same_ip derived auth ips links addresses id kind s).1.links
        ≡ lookup text_dec k s.links
  unfolding remove_link
  remove_link_spares links addresses id kind s n k c b =
      then_drive-keeps (λ t. lookup text_dec k t.links ≡ lookup text_dec k s.links) _ _ s refl
        (λ info h. delete_link-lookup info.name k kind s (other info h))
    where
      other :
          (info : LinkInfo)
          → may_remove_link parse_ip same_ip derived auth ips links addresses id kind ≡ ok info
          → info.name ≢ k
      other info h e =
          elim (Option-cases (compute_protection parse_ip same_ip ips links addresses)) [
            | inl gone ↦ never gone (compute_protection-ends parse_ip same_ip ips links addresses)
            | inr (p, found) ↦
                clash p (may_remove_link-lem links addresses id kind info p h found) (
                  (compute_protection-exact parse_ip same_ip ips links addresses p k found).1
                    (n, c, b))
          ]
        where
          never :
              compute_protection parse_ip same_ip ips links addresses ≡ none
              → is_some (compute_protection parse_ip same_ip ips links addresses) ≡ true
              → ⊥
          never gone ends = ground arith

          clash : (p : Protection) → is_in info.name p.links ≡ false → is_in k p.links ≡ true → ⊥
          clash p free taken = ground (arith, ap (λ x. is_in x p.links) e)

  -- An address of this name is one that the daemon is reached on.
  abbrev pub reached : List AddressInfo → Text → Bool
  reached addresses k =
      any (λ a. is_management parse_ip same_ip ips a && same_text a.name k) addresses

  is_in-management_names :
      (addresses : List AddressInfo) (names : List Text) (k : Text)
      → is_in k (management_names parse_ip same_ip ips addresses names)
        ≡ (reached addresses k || is_in k names)
  is_in-management_names [] names k = refl
  is_in-management_names (a ∷ addresses) names k =
      elim (Bool-cases (is_management parse_ip same_ip ips a)) [
        | inl e ↦ rw e (
            is_in-management_names addresses (put_name a.name names) k
            ∙ ground (arith, is_in-put_name a.name k names))
        | inr e ↦ rw e (is_in-management_names addresses names k)
      ]

  may_remove_address-lem :
      (addresses : List AddressInfo) (id : Ident) (info : AddressInfo)
      → may_remove_address parse_ip same_ip derived auth ips addresses id ≡ ok info
      → is_in info.name (management_names parse_ip same_ip ips addresses []) ≡ false
  unfolding may_remove_address and_check refuse_if or_refuse compute_protection
  may_remove_address-lem addresses id info h = ground arith

  -- A request to delete an address, whoever makes it and whatever it names, leaves every address as
  -- it was whose name is that of an address the daemon is reached on, in the list that the request
  -- goes by.
  pub remove_address_spares :
      (addresses : List AddressInfo) (id : Ident) (s : State) (k : Text)
      → reached addresses k ≡ true
      → lookup text_dec k
          (remove_address parse_ip same_ip derived auth ips addresses id s).1.addresses
        ≡ lookup text_dec k s.addresses
  unfolding remove_address
  remove_address_spares addresses id s k r =
      then_drive-keeps (λ t. lookup text_dec k t.addresses ≡ lookup text_dec k s.addresses) _ _ s
        refl (λ info h. delete_address-lookup info.name k s (other info h))
    where
      other :
          (info : AddressInfo)
          → may_remove_address parse_ip same_ip derived auth ips addresses id ≡ ok info
          → info.name ≢ k
      other info h e =
          clash (may_remove_address-lem addresses id info h) (is_in-management_names addresses [] k)
        where
          clash :
              is_in info.name (management_names parse_ip same_ip ips addresses []) ≡ false
              → is_in k (management_names parse_ip same_ip ips addresses [])
                ≡ (reached addresses k || is_in k [])
              → ⊥
          clash free is =
              ground
                (arith, ap (λ x. is_in x (management_names parse_ip same_ip ips addresses [])) e)
