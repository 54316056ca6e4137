-- ===== src/Scenarios/Hosting.antt =====
-- The theorems on zones, on a host with two zones.
use mandrake.Common.{true, false, List, [], ◌∷◌, none}
use mandrake.Common.Text.{codes}
use mandrake.Zones.{running, ZoneConfig, ZoneSpec, Zones}
use mandrake.Zones.Calls.{Call, halts, deletes, uninstalls}

abbrev web : ZoneConfig
web = record {
  name = codes "web";
  brand = codes "lx";
  zonepath = codes "/z/web";
  autoboot = true;
  ip_type = codes "exclusive";
  nics = [];
  cpu_cap = none;
  memory_cap = none;
  attrs = (codes "hostname", codes "old") ∷ (codes "mandrake-id", codes "1") ∷ [];
  datasets = [];
  devices = [];
  fs = [];
  other = [];
}

abbrev zones : Zones
zones =
    (codes "web", record { config = web; state = running })
    ∷ (
      codes "db",
      record {
        config = record web { name = codes "db"; zonepath = codes "/z/db" };
        state = running;
      },
    )
    ∷ []

abbrev spec : ZoneSpec
spec = record {
  name = codes "web";
  brand = codes "lx";
  zonepath = codes "/z/web";
  autoboot = false;
  nics = [];
  cpu_cap = none;
  memory_cap = none;
  devices = [];
  fs = [];
  attrs = (codes "vcpus", codes "2") ∷ [];
}

-- Halting the web zone and trying to delete it, and uninstalling another.
abbrev calls : List Call
calls = halts (codes "web") ∷ deletes (codes "web") ∷ uninstalls (codes "db") ∷ []
