-- ===== src/Net/Typical.antt =====
-- The hosts that fake.rs begins with, and the calls that set them up.
use mandrake.Common.{Bool, true, false, ◌||◌, [], ◌∷◌, ◌++◌, Option, none, some, if◌then◌else◌}
use mandrake.Common.Map.{insert}
use mandrake.Common.Text.{Text, codes, text_dec}
use mandrake.Common.Text.Parts.{starts_with}
use mathlib.Core.List.{reverse}
use mandrake.Net.{
  phys, up, down, Duplex, AddressKind, AddressFamily, inet, inet6, family_of, RouteKind, is_static,
  LinkInfo, new_link, State,
}
use mandrake.Net.Links.{add_link}
use mandrake.Net.Addresses.{new_interface, new_address, put_address}

-- `FakeNet::new`
abbrev pub empty_host : State
empty_host = record { links = []; interfaces = []; addresses = []; routes = []; next_mac = 0 }

abbrev pub new_phys : Text → Bool → Text → LinkInfo
new_phys name is_up mac = record (new_link name phys) {
  state = if is_up then up else down;
  mtu = some 1500;
  mac = some mac;
  speed_mbps = if is_up then some 1000 else none;
  duplex = some (if is_up then Duplex.full else Duplex.unknown);
  device = some name;
  media = some (codes "Ethernet");
}

abbrev pub add_phys : Text → Bool → Text → State → State
add_phys name is_up mac s = add_link name (new_phys name is_up mac) s

abbrev pub add_interface : Text → Text → State → State
add_interface name class s = record s {
  interfaces = insert text_dec name (new_interface name class) s.interfaces;
}

-- The family of an address of a kind that has no text yet.
abbrev pub kind_family : AddressKind → AddressFamily
kind_family AddressKind.addrconf = inet6
kind_family AddressKind.static = inet
kind_family AddressKind.dhcp = inet

abbrev pub add_address : Text → AddressKind → Option Text → State → State
add_address addrobj kind address s =
    put_address (new_address addrobj kind address true (kind_family kind)) s

abbrev ends_with : Text → Text → Bool
ends_with tail s = starts_with (reverse tail) (reverse s)

abbrev pub route_flags : RouteKind → Text → Text
route_flags RouteKind.static destination = codes "UG"
route_flags RouteKind.interface destination =
    if ends_with (codes "/32") destination || ends_with (codes "/128") destination
    then codes "UH"
    else codes "U"
route_flags RouteKind.dynamic destination = codes "UGD"

abbrev pub seed_route : Text → Text → RouteKind → Option Text → State → State
seed_route destination gateway kind interface s = record s {
  routes =
      s.routes
      ++ record {
        destination = destination;
        gateway = some gateway;
        family = family_of gateway;
        interface = interface;
        flags = some (route_flags kind destination);
        kind = kind;
        persistent = is_static kind;
      }
        ∷ [];
}

abbrev typical_ports : State
typical_ports = add_phys (codes "e1000g3") false (codes "00:0c:29:ab:cd:f2") (
    add_phys (codes "e1000g2") true (codes "00:0c:29:ab:cd:f1") (
      add_phys (codes "e1000g1") true (codes "00:0c:29:ab:cd:f0")
        (add_phys (codes "e1000g0") true (codes "00:0c:29:ab:cd:ef") empty_host)))

abbrev typical_addresses : State
typical_addresses =
    add_address (codes "e1000g0/v4") AddressKind.static (some (codes "192.168.1.10/24")) (
      add_address (codes "lo0/v6") AddressKind.static (some (codes "::1/128")) (
        add_address (codes "lo0/v4") AddressKind.static (some (codes "127.0.0.1/8"))
          (add_interface (codes "lo0") (codes "loopback") typical_ports)))

-- `FakeNet::typical`
unfoldable pub typical : State
typical =
    seed_route (codes "default") (codes "192.168.1.1") RouteKind.static (some (codes "e1000g0")) (
      seed_route (codes "192.168.1.0/24") (codes "192.168.1.10") RouteKind.interface
        (some (codes "e1000g0"))
        (seed_route (codes "::1/128") (codes "::1") RouteKind.interface (some (codes "lo0")) (
          seed_route (codes "127.0.0.1/32") (codes "127.0.0.1") RouteKind.interface
            (some (codes "lo0")) typical_addresses)))
