-- ===== src/Net/Addresses.antt =====
-- The calls of fake.rs on addresses. Whether a text is an IP address is a parameter.
use mandrake.Common.{
  ◌-◌, ◌^◌, Bool, true, false, not, ◌&&◌, ◌||◌, List, [], ◌∷◌, ◌++◌, Option, none, some,
  if◌then◌else◌, is_some,
}
use mandrake.Common.Map.{contains, insert, remove}
use mandrake.Common.Text.{Text, codes, same_text, text_dec}
use mandrake.Common.Text.Parts.{split_once}
use mandrake.Common.Text.Decimal.{parse_uint}
use mandrake.Net.{
  AddressKind, static, dhcp, addrconf, AddressFamily, inet, family_of, InterfaceInfo, AddressInfo,
  interface_of, AddressSpec, State, Outcome, ok, and_then, Answer, commit, tool_error, require,
}

-- What stands before the first slash and after it; all of it, and nothing, where there is none.
abbrev pub split_prefix : Text → Text × Text
split_prefix a = elim (split_once b'/' a) [ none ↦ (a, []) | some parts ↦ parts ]

abbrev pub is_blank : Text → Bool
is_blank [] = true
is_blank (c ∷ s) = false

-- An address, with a prefix length of eight bits or none.
abbrev pub valid_address : (Text → Bool) → Text → Bool
valid_address is_ip a =
    is_ip (split_prefix a).0
    && (is_blank (split_prefix a).1 || is_some (parse_uint (2 ^ 8 - 1) (split_prefix a).1))

abbrev static_address : (Text → Bool) → Option Text → Outcome (Option Text)
static_address is_ip none = tool_error (codes "invalid: a static address needs an address")
static_address is_ip (some a) =
    if valid_address is_ip a then ok (some a) else tool_error (a ++ codes ": invalid address")

unfoldable pub address_of : (Text → Bool) → AddressSpec → Outcome (Option Text)
address_of is_ip spec = elim spec.kind [
  | static ↦ static_address is_ip spec.address
  | dhcp ↦ ok none
  | addrconf ↦ ok (some (codes "fe80::20c:29ff:feab:cdef/10"))
]

abbrev pub new_interface : Text → Text → InterfaceInfo
new_interface name class = record { name = name; class = class; state = codes "ok"; over = none }

-- `entry(name).or_insert_with(...)`
abbrev pub ensure_interface : Text → List (Text × InterfaceInfo) → List (Text × InterfaceInfo)
ensure_interface name m =
    if contains text_dec name m then m else insert text_dec name (new_interface name (codes "ip")) m

abbrev pub family_or : AddressFamily → Option Text → AddressFamily
family_or family none = family
family_or family (some a) = family_of a

abbrev pub new_address : Text → AddressKind → Option Text → Bool → AddressFamily → AddressInfo
new_address addrobj kind address persistent family = record {
  name = addrobj;
  interface = interface_of addrobj;
  kind = kind;
  family = family_or family address;
  address = address;
  state = codes "ok";
  persistent = persistent;
}

abbrev pub put_address : AddressInfo → State → State
put_address a s = record s {
  interfaces = ensure_interface a.interface s.interfaces;
  addresses = insert text_dec a.name a s.addresses;
}

unfoldable pub create_address : (Text → Bool) → AddressSpec → State → Answer
create_address is_ip spec s =
    commit
      (and_then
        (require
          (same_text (interface_of spec.addrobj) (codes "lo0")
            || contains text_dec (interface_of spec.addrobj) s.links)
          (interface_of spec.addrobj ++ codes ": object not found"))
        (λ _.
          and_then
            (require (not (contains text_dec spec.addrobj s.addresses))
              (codes "cannot create address: Object already exists"))
            (λ _. and_then (address_of is_ip spec) (λ address. ok (
              put_address (new_address spec.addrobj spec.kind address (not spec.temporary) inet)
                s)))))
      s

unfoldable pub delete_address : Text → State → Answer
delete_address name s =
    commit
      (and_then
        (require (contains text_dec name s.addresses)
          (codes "cannot delete address: Object not found"))
        (λ _. ok (record s { addresses = remove text_dec name s.addresses })))
      s
