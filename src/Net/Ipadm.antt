-- ===== src/Net/Ipadm.antt =====
-- The rows of `ipadm show-…` in parse.rs of crates/mandrake-net.
use mandrake.Common.{◌==◌, List, ◌++◌, none, some, any}
use mandrake.Common.Text.{Text, codes}
use mandrake.Common.Text.Lines.{lines}
use mandrake.Net.{
  InterfaceInfo, AddressInfo, AddressKind, interface_of, parse, Outcome, ok, err, and_then,
}
use mandrake.Net.Addresses.{family_or}
use mandrake.Net.Typical.{kind_family}
use mandrake.Net.Fields.{rows, field}
use mandrake.Net.Spelled.{opt, address_kind}
use mandrake.Net.Dladm.{map_rows, collect}

abbrev pub interface_row : List Text → InterfaceInfo
interface_row f = record {
  name = field 0 f;
  class = field 1 f;
  state = field 2 f;
  over = opt (field 5 f);
}

unfoldable pub show_if : Text → Outcome (List InterfaceInfo)
show_if out = map_rows interface_row (rows (codes "ipadm show-if") 6 (lines out))

abbrev read_address : List Text → AddressKind → AddressInfo
read_address f kind = record {
  name = field 0 f;
  interface = interface_of (field 0 f);
  kind = kind;
  family = family_or (kind_family kind) (opt (field 5 f));
  address = opt (field 5 f);
  state = field 2 f;
  persistent = any (λ c. c == b'U') (field 4 f);
}

abbrev pub address_row : List Text → Outcome AddressInfo
address_row f = elim (address_kind (field 1 f)) [
  | none ↦ err (parse (codes "ipadm show-addr") (codes "unknown address type: " ++ field 1 f))
  | some kind ↦ ok (read_address f kind)
]

unfoldable pub show_addr : Text → Outcome (List AddressInfo)
show_addr out = and_then (rows (codes "ipadm show-addr") 6 (lines out)) (collect address_row)
