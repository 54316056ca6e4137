-- ===== src/Net/Commands.antt =====
-- The commands of crates/mandrake-net/src/cli.rs.
use mandrake.Common.{ℕ, Bool, List, [], ◌∷◌, ◌++◌, Option, none, some, if◌then◌else◌}
use mandrake.Common.Text.{Text, codes, same_text}
use mandrake.Common.Text.Decimal.{show}
use mandrake.Core.Shell.{Command, plain_command, privileged_command}
use mandrake.Net.{
  LinkKind, phys, aggr, vlan, etherstub, vnic, other, AddressKind, AddressFamily, inet, inet6,
  AggrSpec, VlanSpec, VnicSpec, AddressSpec, RouteSpec, interface_of, Outcome, ok, err, unsupported,
  and_then,
}
use mandrake.Net.Spelled.{lacp_mode_text, lacp_timer_text}
use mandrake.Net.Netstat.{has_slash}

abbrev pub delete_subcommand : LinkKind → Option Text
delete_subcommand aggr = some (codes "delete-aggr")
delete_subcommand vlan = some (codes "delete-vlan")
delete_subcommand etherstub = some (codes "delete-etherstub")
delete_subcommand vnic = some (codes "delete-vnic")
delete_subcommand phys = none
delete_subcommand other = none

abbrev pub family_args : AddressFamily → List Text
family_args inet6 = codes "-inet6" ∷ []
family_args inet = []

unfoldable pub destination_args : Text → List Text
destination_args destination =
    if same_text destination (codes "default")
    then codes "default" ∷ []
    else if has_slash destination
    then codes "-net" ∷ destination ∷ []
    else codes "-host" ∷ destination ∷ []

abbrev pub route_args : RouteSpec → List Text
route_args spec = family_args spec.family ++ destination_args spec.destination ++ spec.gateway ∷ []

abbrev pub route_command : Text → RouteSpec → Command
route_command verb spec = privileged_command (codes "route") (codes "-p" ∷ verb ∷ route_args spec)

abbrev port_args : List Text → List Text
port_args [] = []
port_args (port ∷ ports) = codes "-l" ∷ port ∷ port_args ports

unfoldable pub create_aggr_command : AggrSpec → Command
create_aggr_command spec = privileged_command (codes "dladm") (
    codes "create-aggr"
    ∷ (port_args spec.ports
        ++ codes "-P"
          ∷ spec.policy
          ∷ codes "-L"
          ∷ lacp_mode_text spec.lacp_mode
          ∷ codes "-T"
          ∷ lacp_timer_text spec.lacp_timer
          ∷ spec.name
          ∷ []))

unfoldable pub create_vlan_command : VlanSpec → Command
create_vlan_command spec =
    privileged_command (codes "dladm")
      (codes "create-vlan" ∷ codes "-l" ∷ spec.over ∷ codes "-v" ∷ show spec.vid ∷ spec.name ∷ [])

-- An option with its value, if there is one.
abbrev pub option_args : {A : Type 0} → Text → (A → Text) → Option A → List Text
option_args flag write none = []
option_args flag write (some a) = flag ∷ write a ∷ []

abbrev pub mtu_property : ℕ → Text
mtu_property mtu = codes "mtu=" ++ show mtu

unfoldable pub create_vnic_command : VnicSpec → Command
create_vnic_command spec = privileged_command (codes "dladm") (
    codes "create-vnic"
    ∷ codes "-l"
    ∷ spec.over
    ∷ (option_args (codes "-m") (λ m. m) spec.mac
        ++ option_args (codes "-v") show spec.vid
        ++ option_args (codes "-p") mtu_property spec.mtu
        ++ spec.name ∷ []))

abbrev address_kind_text : AddressKind → Text
address_kind_text AddressKind.static = codes "static"
address_kind_text AddressKind.dhcp = codes "dhcp"
address_kind_text AddressKind.addrconf = codes "addrconf"

abbrev temporary_args : Bool → List Text
temporary_args temporary = if temporary then codes "-t" ∷ [] else []

abbrev pub create_if_command : AddressSpec → Command
create_if_command spec =
    privileged_command (codes "ipadm")
      (codes "create-if" ∷ (temporary_args spec.temporary ++ interface_of spec.addrobj ∷ []))

abbrev given_address : AddressKind → Option Text → Outcome (List Text)
given_address AddressKind.static none =
    err (unsupported (codes "a static address needs an address"))
given_address AddressKind.static (some address) = ok (codes "-a" ∷ address ∷ [])
given_address AddressKind.dhcp address = ok []
given_address AddressKind.addrconf address = ok []

unfoldable pub create_addr_command : AddressSpec → Outcome Command
create_addr_command spec = and_then (given_address spec.kind spec.address) (λ given. ok (
    privileged_command (codes "ipadm") (
      codes "create-addr"
      ∷ (temporary_args spec.temporary
          ++ codes "-T" ∷ address_kind_text spec.kind ∷ (given ++ spec.addrobj ∷ [])))))

-- `dladm <args> -p -o <columns>`
abbrev pub dladm : List Text → Text → Command
dladm args columns = plain_command (codes "dladm") (args ++ codes "-p" ∷ codes "-o" ∷ columns ∷ [])

abbrev pub ipadm : Text → Text → Command
ipadm show columns = plain_command (codes "ipadm") (show ∷ codes "-p" ∷ codes "-o" ∷ columns ∷ [])
