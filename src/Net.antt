-- ===== src/Net.antt =====
-- crates/mandrake-net: the in-memory network driver of src/fake.rs and the parsers of src/parse.rs,
-- with the types of src/types.rs and those of crates/mandrake-core/src/network.rs that they use. A map
-- is a list of its entries.
pub mod Mac
pub mod Links
pub mod Addresses
pub mod Routes
pub mod Typical
pub mod Calls
pub mod Fields
pub mod Spelled
pub mod Dladm
pub mod Assemble
pub mod Assembled
pub mod Ipadm
pub mod Masks
pub mod Escaped
pub mod Prefixes
pub mod Netstat
pub mod Persistent
pub mod Commands
pub mod Cli
pub mod Outcomes
pub mod Layers
pub mod Grounded
pub mod Standing
pub mod Protect
pub mod WalkEnds
pub mod WalkFinds
pub mod Failures
pub mod Removal
pub mod Normal
pub mod Spared
pub mod Requests
pub mod Recorded
pub mod Shown
pub mod Chains
pub mod RouteTable
pub mod RouteCalls
use mandrake.Common.{
  ℕ, ◌≡◌, Bool, true, false, not, ◌&&◌, ◌||◌, List, [], ◌∷◌, ◌++◌, Option, none, some, leb, ◌==◌,
  any, if◌then◌else◌,
}
use mandrake.Common.Text.{Text, codes, same_text}
use mandrake.Common.Text.Parts.{split_head}

pub data LinkKind : Type 0 where
  phys aggr vlan etherstub vnic other : LinkKind

pub data LinkState : Type 0 where
  up down unknown : LinkState

pub data MacMode : Type 0 where
  auto fixed random factory : MacMode

pub data Duplex : Type 0 where
  full half unknown : Duplex

pub data LacpMode : Type 0 where
  off active passive : LacpMode

pub data LacpTimer : Type 0 where
  short long : LacpTimer

pub data AddressKind : Type 0 where
  static dhcp addrconf : AddressKind

pub data AddressFamily : Type 0 where
  inet inet6 : AddressFamily

pub data RouteKind : Type 0 where
  static interface dynamic : RouteKind

abbrev pub kind_text : LinkKind → Text
kind_text phys = codes "phys"
kind_text aggr = codes "aggr"
kind_text vlan = codes "vlan"
kind_text etherstub = codes "etherstub"
kind_text vnic = codes "vnic"
kind_text other = codes "other"

abbrev kind_rank : LinkKind → ℕ
kind_rank phys = 0
kind_rank aggr = 1
kind_rank vlan = 2
kind_rank etherstub = 3
kind_rank vnic = 4
kind_rank other = 5

-- `==` of kinds, of families and of kinds of routes.
abbrev pub same_kind : LinkKind → LinkKind → Bool
same_kind a b = kind_rank a == kind_rank b

abbrev pub same_family : AddressFamily → AddressFamily → Bool
same_family inet inet = true
same_family inet6 inet6 = true
same_family a b = false

abbrev pub is_static : RouteKind → Bool
is_static static = true
is_static kind = false

abbrev pub is_up : LinkState → Bool
is_up up = true
is_up state = false

-- `AddressFamily::of`
abbrev pub family_of : Text → AddressFamily
family_of address = if any (λ c. c == b':') address then inet6 else inet

pub record AggrPort : Type 0 where
  pub name : Text
  pub state : Text
  pub speed_mbps : Option ℕ

pub record AggrInfo : Type 0 where
  pub policy : Text
  pub lacp_mode : LacpMode
  pub lacp_timer : LacpTimer
  pub ports : List AggrPort

pub record LinkInfo : Type 0 where
  pub name : Text
  pub kind : LinkKind
  pub state : LinkState
  pub over : List Text
  pub mtu : Option ℕ
  pub mac : Option Text
  pub mac_mode : Option MacMode
  pub vid : Option ℕ
  pub speed_mbps : Option ℕ
  pub duplex : Option Duplex
  pub device : Option Text
  pub media : Option Text
  pub aggr : Option AggrInfo
  pub zone : Option Text

-- `LinkInfo::new`
abbrev pub new_link : Text → LinkKind → LinkInfo
new_link name kind = record {
  name = name;
  kind = kind;
  state = LinkState.unknown;
  over = [];
  mtu = none;
  mac = none;
  mac_mode = none;
  vid = none;
  speed_mbps = none;
  duplex = none;
  device = none;
  media = none;
  aggr = none;
  zone = none;
}

pub record InterfaceInfo : Type 0 where
  pub name : Text
  pub class : Text
  pub state : Text
  pub over : Option Text

pub record AddressInfo : Type 0 where
  pub name : Text
  pub interface : Text
  pub kind : AddressKind
  pub family : AddressFamily
  pub address : Option Text
  pub state : Text
  pub persistent : Bool

-- What comes before the first slash of an address object's name.
abbrev pub interface_of : Text → Text
interface_of addrobj = split_head b'/' addrobj

pub record RouteInfo : Type 0 where
  pub destination : Text
  pub gateway : Option Text
  pub family : AddressFamily
  pub interface : Option Text
  pub flags : Option Text
  pub kind : RouteKind
  pub persistent : Bool

pub record AggrSpec : Type 0 where
  pub name : Text
  pub ports : List Text
  pub policy : Text
  pub lacp_mode : LacpMode
  pub lacp_timer : LacpTimer

pub record VlanSpec : Type 0 where
  pub name : Text
  pub vid : ℕ
  pub over : Text

pub record VnicSpec : Type 0 where
  pub name : Text
  pub over : Text
  pub mac : Option Text
  pub vid : Option ℕ
  pub mtu : Option ℕ

pub record AddressSpec : Type 0 where
  pub addrobj : Text
  pub kind : AddressKind
  pub address : Option Text
  pub temporary : Bool

pub record RouteSpec : Type 0 where
  pub destination : Text
  pub gateway : Text
  pub family : AddressFamily

-- `RouteSpec::new`
abbrev pub new_route : Text → Text → RouteSpec
new_route destination gateway = record {
  destination = destination;
  gateway = gateway;
  family = family_of gateway;
}

-- The message of a tool that failed, output that was not understood, `NotFound` and `Unsupported`.
pub data NetError : Type 0 where
  command : Text → NetError
  parse : Text → Text → NetError
  absent : Text → NetError
  unsupported : Text → NetError

pub record State : Type 0 where
  pub links : List (Text × LinkInfo)
  pub interfaces : List (Text × InterfaceInfo)
  pub addresses : List (Text × AddressInfo)
  pub routes : List RouteInfo
  pub next_mac : ℕ

pub data Outcome {ℓ} (A : Type ℓ) : Type ℓ where
  ok : A → Outcome A
  err : NetError → Outcome A

-- `?`
unfoldable pub and_then {ℓ κ} : {A : Type ℓ} {B : Type κ} → Outcome A → (A → Outcome B) → Outcome B
and_then (ok a) f = f a
and_then (err e) f = err e

abbrev pub Answer : Type 0
Answer = Outcome (Unit {0}) × State

-- What a call makes of the state when it goes ahead, which is nothing when it is refused.
unfoldable pub commit : Outcome State → State → Answer
commit (ok t) s = (ok tt, t)
commit (err e) s = (err e, s)

abbrev pub tool_error {ℓ} : {A : Type ℓ} → Text → Outcome A
tool_error message = err (command message)

-- A check that lets pass, or refuses with a message.
unfoldable pub require : Bool → Text → Outcome (Unit {0})
require test message = if test then ok tt else tool_error message
