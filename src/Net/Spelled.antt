-- ===== src/Net/Spelled.antt =====
-- How the host's tools spell what crates/mandrake-net and crates/mandrake-core/src/network.rs read.
use mandrake.Common.{
  ℕ, ◌-◌, ◌*◌, ◌^◌, ◌||◌, [], Option, none, some, ltb, leb, if◌then◌else◌, or_else,
}
use mathlib.Core.List.{reverse}
use mandrake.Common.Text.{Text, codes, same_text}
use mandrake.Common.Text.Parts.{trim, split_head, strip_prefix}
use mandrake.Common.Text.Decimal.{parse_uint}
use mandrake.Zones.Size.{lower}
use mandrake.Net.{
  LinkKind, phys, aggr, vlan, etherstub, vnic, other, LinkState, MacMode, Duplex, LacpMode,
  LacpTimer, AddressKind,
}
use mandrake.Net.Mac.{normalize_mac}

-- `--`, `-`, `?`, `none` and nothing mean that a field does not apply.
unfoldable pub opt : Text → Option Text
opt s =
    if same_text s []
      || same_text s (codes "--")
      || same_text s (codes "-")
      || same_text s (codes "?")
      || same_text s (codes "none")
    then none
    else some s

unfoldable pub strip_suffix : Text → Text → Option Text
strip_suffix tail s = elim (strip_prefix (reverse tail) (reverse s)) [
  | none ↦ none
  | some front ↦ some (reverse front)
]

-- Digits, and what they are counted in.
abbrev speed_unit : Text → Text × ℕ
speed_unit s = elim (strip_suffix (codes "Gb") s) [
  | some d ↦ (d, 1000)
  | none ↦ (or_else (strip_suffix (codes "Mb") s) s, 1)
]

-- `checked_mul`, but for 0
abbrev scaled : Option ℕ → ℕ → Option ℕ
scaled none unit = none
scaled (some n) unit =
    if ltb 0 n then (if leb (n * unit) (2 ^ 32 - 1) then some (n * unit) else none) else none

unfoldable pub speed_mbps : Text → Option ℕ
speed_mbps s = elim (opt s) [
  | none ↦ none
  | some t ↦
      let (digits, unit) = speed_unit (trim t) in
      scaled (parse_uint (2 ^ 32 - 1) (trim digits)) unit
]

unfoldable pub from_class : Text → LinkKind
from_class class =
    if same_text class (codes "phys")
    then phys
    else if same_text class (codes "aggr")
    then aggr
    else if same_text class (codes "vlan")
    then vlan
    else if same_text class (codes "etherstub")
    then etherstub
    else if same_text class (codes "vnic")
    then vnic
    else other

unfoldable pub link_state : Text → LinkState
link_state s =
    if same_text s (codes "up")
    then LinkState.up
    else if same_text s (codes "down")
    then LinkState.down
    else LinkState.unknown

unfoldable pub mac_mode : Text → MacMode
mac_mode s =
    let word = trim (split_head b',' s) in
    if same_text word (codes "fixed")
    then MacMode.fixed
    else if same_text word (codes "random")
    then MacMode.random
    else if same_text word (codes "factory")
    then MacMode.factory
    else MacMode.auto

unfoldable pub duplex_of : Text → Duplex
duplex_of s =
    if same_text s (codes "full")
    then Duplex.full
    else if same_text s (codes "half")
    then Duplex.half
    else Duplex.unknown

-- `duplex`
abbrev pub duplex : Text → Option Duplex
duplex s = elim (opt s) [ none ↦ none | some d ↦ some (duplex_of d) ]

unfoldable pub lacp_mode : Text → LacpMode
lacp_mode s =
    if same_text s (codes "active")
    then LacpMode.active
    else if same_text s (codes "passive")
    then LacpMode.passive
    else LacpMode.off

unfoldable pub lacp_timer : Text → LacpTimer
lacp_timer s = if same_text s (codes "long") then LacpTimer.long else LacpTimer.short

unfoldable pub address_kind : Text → Option AddressKind
address_kind s =
    if same_text s (codes "static")
    then some AddressKind.static
    else if same_text s (codes "dhcp")
    then some AddressKind.dhcp
    else if same_text s (codes "addrconf")
    then some AddressKind.addrconf
    else none

-- A MAC address in the usual form, or what stands there in lower case.
abbrev pub mac_or_lower : Text → Text
mac_or_lower m = or_else (normalize_mac m) (lower m)

abbrev pub opt_mac : Text → Option Text
opt_mac s = elim (opt s) [ none ↦ none | some m ↦ some (mac_or_lower m) ]

-- `as_str` of the modes and timers
abbrev pub lacp_mode_text : LacpMode → Text
lacp_mode_text LacpMode.off = codes "off"
lacp_mode_text LacpMode.active = codes "active"
lacp_mode_text LacpMode.passive = codes "passive"

abbrev pub lacp_timer_text : LacpTimer → Text
lacp_timer_text LacpTimer.short = codes "short"
lacp_timer_text LacpTimer.long = codes "long"
