-- ===== src/Net/Protect.antt =====
-- The management path of crates/mandraked/src/routes/network.rs: what carries the address that a
-- request came in on. The IP addresses and their parser are parameters.
use mandrake.Common.{
  ℕ, zero, suc, ◌+◌, Bool, List, [], ◌∷◌, Option, none, some, if◌then◌else◌, any, find?, length,
  is_some_and,
}
use mandrake.Common.Text.{Text, codes, same_text}
use mandrake.Common.Text.Parts.{split_head, strip_prefix, rsplit_once, trim}
use mandrake.Net.{LinkInfo, AddressInfo}
use mandrake.Zfs.Names.{is_in}

-- The sets of names, as lists.
pub record Protection : Type 0 where
  pub addresses : List Text
  pub links : List Text

-- `HashSet::insert`
abbrev pub put_name : Text → List Text → List Text
put_name name names = if is_in name names then names else name ∷ names

-- `extend` of a stack whose top comes first.
abbrev pub push_all : List Text → List Text → List Text
push_all [] stack = stack
push_all (o ∷ over) stack = push_all over (o ∷ stack)

abbrev pub find_link : Text → List LinkInfo → Option LinkInfo
find_link name links = find? (λ l. same_text l.name name) links

-- What a name that was not seen pushes.
abbrev pub beneath : Text → List LinkInfo → List Text
beneath name links = elim (find_link name links) [ none ↦ [] | some l ↦ l.over ]

-- The loop on the stack, on fuel; none where the fuel does not suffice.
unfoldable pub walk : List LinkInfo → ℕ → List Text → List Text → Option (List Text)
walk links fuel [] seen = some seen
walk links zero (name ∷ stack) seen = none
walk links (suc fuel) (name ∷ stack) seen =
    let skipped = walk links fuel stack seen in
    let pushed = walk links fuel (push_all (beneath name links) stack) (name ∷ seen) in
    if is_in name seen then skipped else pushed

-- As many steps as there are names on the stack and over links.
abbrev pub total_over : List LinkInfo → ℕ
total_over [] = 0
total_over (l ∷ links) = length l.over + total_over links

module _ {Ip : Type 0} (parse_ip : Text → Option Ip) (same_ip : Ip → Ip → Bool) where
  abbrev pub address_ip : AddressInfo → Option Ip
  address_ip a = elim a.address [ none ↦ none | some s ↦ parse_ip (split_head b'/' s) ]

  -- An address that the daemon is reached on.
  abbrev pub is_management : List Ip → AddressInfo → Bool
  is_management ips a = is_some_and (address_ip a) (λ ip. any (same_ip ip) ips)

  abbrev pub management_names : List Ip → List AddressInfo → List Text → List Text
  management_names ips [] names = names
  management_names ips (a ∷ addresses) names =
      management_names ips addresses (if is_management ips a then put_name a.name names else names)

  abbrev pub seeds : List Ip → List AddressInfo → List Text → List Text
  seeds ips [] stack = stack
  seeds ips (a ∷ addresses) stack =
      seeds ips addresses (if is_management ips a then a.interface ∷ stack else stack)

  abbrev with_links : List Text → Option (List Text) → Option Protection
  with_links addresses none = none
  with_links addresses (some links) = some (record { addresses = addresses; links = links })

  unfoldable pub compute_protection : List Ip → List LinkInfo → List AddressInfo → Option Protection
  compute_protection ips links addresses =
      let stack = seeds ips addresses [] in
      with_links (management_names ips addresses [])
        (walk links (length stack + total_over links) stack [])

  -- The part of a `Host` header that is the address: between brackets, or before the last colon.
  abbrev pub host_name : Text → Text
  host_name host = elim (strip_prefix (codes "[") host) [
    | some rest ↦ split_head b']' rest
    | none ↦ elim (rsplit_once b':' host) [ none ↦ host | some (h, _) ↦ h ]
  ]

  unfoldable pub host_ip : Option Text → Option Ip
  host_ip none = none
  host_ip (some header) = elim (parse_ip (trim header)) [
    | some ip ↦ some ip
    | none ↦ parse_ip (host_name (trim header))
  ]
