-- ===== src/Net/Removal.antt =====
-- The deletion of links and addresses in crates/mandraked/src/routes/network.rs, up to the driver's
-- call, with what the caches gave for links and addresses. Ids and IP addresses are parameters.
use mandrake.Common.{
  ◌==◌, Bool, true, false, not, List, [], ◌∷◌, ◌++◌, Option, none, some, if◌then◌else◌, find?,
}
use mandrake.Common.Text.{Text, codes}
use mandrake.Common.Text.Parts.{join}
use mandrake.Core.Problem.{Problem, typed, with_detail, not_found, internal}
use mandrake.Core.Role.{Ident, operator}
use mandrake.Daemon.Handler.{Result, ok, err}
use mandrake.Auth.Extract.{Auth, require}
use mandrake.Net.{LinkKind, LinkInfo, AddressInfo, kind_text, same_kind, State, Answer, Outcome}
use mandrake.Net.Links.{delete_link}
use mandrake.Net.Addresses.{delete_address}
use mandrake.Net.Failures.{problem_of}
use mandrake.Net.Protect.{Protection, compute_protection}
use mandrake.Zfs.Names.{is_in}

abbrev pub protected_error : Text → Problem
protected_error what =
    with_detail (typed 403 (codes "protected") (codes "Forbidden"))
      (what ++ codes " carries the management address and cannot be changed through the API")

-- `?`
unfoldable pub and_check : {A B : Type 0} → Result A → (A → Result B) → Result B
and_check (ok a) f = f a
and_check (err p) f = err p

unfoldable pub refuse_if : Bool → Problem → Result (Unit {0})
refuse_if test p = if test then err p else ok tt

unfoldable pub or_refuse : {A : Type 0} → Option A → Problem → Result A
or_refuse none p = err p
or_refuse (some a) p = ok a

-- The links that lie on one, by name.
abbrev pub dependents : Text → List LinkInfo → List Text
dependents name [] = []
dependents name (l ∷ links) =
    let rest = dependents name links in if is_in name l.over then l.name ∷ rest else rest

abbrev pub busy : Text → List Text → Problem
busy name names =
    with_detail (typed 409 (codes "busy") (codes "Conflict"))
      (name ++ codes " is in use by " ++ join (codes ", ") names)

abbrev is_empty : List Text → Bool
is_empty [] = true
is_empty (n ∷ names) = false

-- The driver's answer as the route gives it.
abbrev pub driven : Answer → Result (Unit {0}) × State
driven (Outcome.ok done, t) = (ok tt, t)
driven (Outcome.err e, t) = (err (problem_of e), t)

-- The driver is called when all checks let the request pass.
unfoldable pub then_drive :
    {A : Type 0} → Result A → (A → Answer) → State → Result (Unit {0}) × State
then_drive (ok a) call s = driven (call a)
then_drive (err p) call s = (err p, s)

module _ {Ip : Type 0} (parse_ip : Text → Option Ip) (same_ip : Ip → Ip → Bool)
    (derived : Text → Ident) where
  abbrev pub protection : List Ip → List LinkInfo → List AddressInfo → Result Protection
  protection ips links addresses =
      or_refuse (compute_protection parse_ip same_ip ips links addresses) internal

  unfoldable pub may_remove_link :
      Auth → List Ip → List LinkInfo → List AddressInfo → Ident → LinkKind → Result LinkInfo
  may_remove_link auth ips links addresses id kind = and_check (require auth operator) (λ _.
      and_check (or_refuse (find? (λ l. derived l.name == id) links) (not_found (codes "link")))
        (λ info.
          and_check (refuse_if (not (same_kind info.kind kind)) (not_found (kind_text kind))) (λ _.
            and_check (protection ips links addresses) (λ prot.
              and_check
                (refuse_if (is_in info.name prot.links)
                  (protected_error (kind_text kind ++ codes " `" ++ info.name ++ codes "`")))
                (λ _.
                  and_check
                    (refuse_if (not (is_empty (dependents info.name links)))
                      (busy info.name (dependents info.name links)))
                    (λ _. ok info))))))

  unfoldable pub remove_link :
      Auth
      → List Ip
      → List LinkInfo
      → List AddressInfo
      → Ident
      → LinkKind
      → State
      → Result (Unit {0}) × State
  remove_link auth ips links addresses id kind s =
      then_drive (may_remove_link auth ips links addresses id kind)
        (λ info. delete_link info.name kind s) s

  unfoldable pub may_remove_address : Auth → List Ip → List AddressInfo → Ident → Result AddressInfo
  may_remove_address auth ips addresses id = and_check (require auth operator) (λ _.
      and_check
        (or_refuse (find? (λ a. derived a.name == id) addresses) (not_found (codes "address")))
        (λ info. and_check (protection ips [] addresses) (λ prot.
          and_check
            (refuse_if (is_in info.name prot.addresses)
              (protected_error (codes "address `" ++ info.name ++ codes "`")))
            (λ _. ok info))))

  unfoldable pub remove_address :
      Auth → List Ip → List AddressInfo → Ident → State → Result (Unit {0}) × State
  remove_address auth ips addresses id s =
      then_drive (may_remove_address auth ips addresses id) (λ info. delete_address info.name s) s
