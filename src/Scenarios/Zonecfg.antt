-- ===== src/Scenarios/Zonecfg.antt =====
-- The round trip through the commands of zonecfg, for a zone with a block of every kind.
use mandrake.Common.{ℕ, ◌≡◌, ◌<◌, refl, true, [], ◌∷◌, none, some, arith, ℕ_discrete}
use mandrake.Common.Float.{IsExact}
use mandrake.Common.Text.{Text, codes, text_dec}
use mandrake.Common.Text.Decimal.{show, parse_uint-show, digits}
use mandrake.Common.Text.Lines.{unlines}
use mandrake.Common.Text.Parts.{is_whitespace}
use mandrake.Zones.{ZoneNic, ZoneFs, ZoneSpec, ok, apply_spec}
use mandrake.Zones.Driver.{fresh}
use mandrake.Zones.Parse.{zonecfg_export}
use mandrake.Zones.Render.{
  render_create, cap_commands, device_commands, fs_commands, nic_commands, attr_add,
}
use mandrake.Zones.RoundTrip.Nics.{IsCleanNic}
use mandrake.Zones.RoundTrip.FileSystems.{IsCleanFs}
use mandrake.Zones.RoundTrip.Caps.{IsCpuCap}
use mandrake.Zones.RoundTrip.Values.{show-IsValue}
use mandrake.Zones.RoundTrip.Create.{IsCleanSpec, zonecfg_export-render_create}
use mandrake.Common.{all, ◌++◌}
use mandrake.Common.Text.Lines.{lines}
use mandrake.Common.Text.Parts.{trim}
use mandrake.Zones.Listed.{fits, named_in}
use mandrake.Scenarios.Storage.{whole}

whole-IsExact : IsExact whole
whole-IsExact = record {
  reads = λ n h. parse_uint-show 9007199254740991 n (omega arith);
  once = λ n h. omega arith;
  finite = λ n h. refl;
  nonnegative = λ n h. refl;
  rounds = λ n h. refl;
}

abbrev nic : ZoneNic
nic = record {
  name = codes "net0";
  over = codes "ixgbe0";
  mac = some (codes "2:8:20:a1:b2:c3");
  vid = some 20;
  address = none;
  gateway = some (codes "10.0.0.1");
}

abbrev data_fs : ZoneFs
data_fs = record {
  dir = codes "/data";
  special = codes "/t/d";
  fs_type = codes "lofs";
  options = codes "ro" ∷ codes "nodevices" ∷ [];
}

abbrev spec : ZoneSpec
spec = record {
  name = codes "web";
  brand = codes "lx";
  zonepath = codes "/z/web";
  autoboot = true;
  nics = nic ∷ [];
  cpu_cap = some 2;
  memory_cap = some 4096;
  devices = codes "/dev/zvol/rdsk/t/v" ∷ [];
  fs = data_fs ∷ [];
  attrs = (codes "hostname", codes " web \" ") ∷ [];
}

nic-IsClean : IsCleanNic nic
unfolding codes is_whitespace text_dec ℕ_discrete
nic-IsClean = record {
  name = record { plain = record { starts = refl; ends = refl }; bare = refl };
  over = record { plain = record { starts = refl; ends = refl }; bare = refl };
  mac = (record { plain = record { starts = refl; ends = refl }; bare = refl }, refl);
  vid = λ n e. ground arith;
  address = tt;
  gateway = record { plain = record { starts = refl; ends = refl }; bare = refl };
}

data_fs-IsClean : IsCleanFs data_fs
unfolding codes is_whitespace
data_fs-IsClean = record {
  dir = record { plain = record { starts = refl; ends = refl }; bare = refl };
  special = record { plain = record { starts = refl; ends = refl }; bare = refl };
  fs_type = record { plain = record { starts = refl; ends = refl }; bare = refl };
  options = (
    record {
      value = record { plain = record { starts = refl; ends = refl }; bare = refl };
      nonempty = λ e. cc;
    },
    (
      record {
        value = record { plain = record { starts = refl; ends = refl }; bare = refl };
        nonempty = λ e. cc;
      },
      tt,
    ),
  );
}

two-IsCpuCap : (c : ℕ) → c < 9007199254740992 → IsCpuCap whole c
two-IsCpuCap c h = record {
  value = show-IsValue c;
  reads = parse_uint-show 9007199254740991 c (omega arith);
}

spec-IsClean : IsCleanSpec whole spec
unfolding codes is_whitespace text_dec ℕ_discrete render_create cap_commands device_commands
    fs_commands nic_commands attr_add show digits
spec-IsClean = record {
  brand = record { plain = record { starts = refl; ends = refl }; bare = refl };
  has_brand = refl;
  zonepath = record { plain = record { starts = refl; ends = refl }; bare = refl };
  nics = (nic-IsClean, tt);
  cpu_cap = λ c e. two-IsCpuCap c (ground arith);
  memory_cap = λ n e. ground arith;
  devices = (record { plain = record { starts = refl; ends = refl }; bare = refl }, tt);
  fs = (data_fs-IsClean, tt);
  attrs = (record { plain = record { starts = refl; ends = refl }; bare = refl }, tt);
  lines = refl;
}

zonecfg_export-render_create_example :
    zonecfg_export whole (codes "web") (unlines (render_create whole spec))
    ≡ ok (record (apply_spec spec (fresh spec)) { other = codes "commit" ∷ [] })
zonecfg_export-render_create_example =
    zonecfg_export-render_create whole spec whole-IsExact spec-IsClean

abbrev listing : Text
listing =
    codes "0:global:running:/::ipkg:shared\n"
    ++ codes "\n"
    ++ codes "1:web:running:/z/web:u1:lx:excl\n"

listing-fits : all fits (lines listing) ≡ true
unfolding lines codes text_dec trim is_whitespace
listing-fits = refl

listing-named_in : named_in (lines listing) ≡ codes "web" ∷ []
unfolding lines codes text_dec ℕ_discrete trim is_whitespace
listing-named_in = refl
