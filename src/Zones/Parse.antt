-- ===== src/Zones/Parse.antt =====
-- `zonecfg_export` of crates/mandrake-zones/src/parse.rs: the output of `zonecfg export`.
use mandrake.Common.{
  ℕ, false, ◌||◌, List, [], ◌∷◌, ◌++◌, Option, none, some, if◌then◌else◌, ◌==◌, or_else,
}
use mandrake.Common.Float.{Float}
use mandrake.Common.Map.{insert}
use mandrake.Common.Text.{Text, codes, same_text, text_dec}
use mandrake.Common.Text.Parts.{trim, strip_prefix, starts_with, split_once, join}
use mandrake.Common.Text.Lines.{lines}
use mandrake.Common.Text.Decimal.{parse_uint}
use mandrake.Zones.{ZoneNic, ZoneFs, ZoneConfig, ZoneError, parse, Outcome, ok, err, and_then}
use mandrake.Zones.Size.{size}

-- `strip_suffix` of one character.
abbrev pub strip_last : ℕ → Text → Option Text
strip_last d [] = none
strip_last d (c ∷ []) = if c == d then some [] else none
strip_last d (c ∷ e ∷ s) = elim (strip_last d (e ∷ s)) [ none ↦ none | some r ↦ some (c ∷ r) ]

abbrev pub unquoted : Text → Option Text
unquoted [] = none
unquoted (c ∷ s) = if c == b'"' then strip_last b'"' s else none

unfoldable pub unquote : Text → Text
unquote v = or_else (unquoted (trim v)) (trim v)

abbrev pub pair_of : Option (Text × Text) → Option (Text × Text)
pair_of none = none
pair_of (some (k, v)) = some (trim k, unquote v)

unfoldable pub trimmed_setting : Text → Option (Text × Text)
trimmed_setting line = elim (strip_prefix (codes "set ") line) [
  | none ↦ none
  | some rest ↦ pair_of (split_once b'=' rest)
]

abbrev pub setting : Text → Option (Text × Text)
setting line = trimmed_setting (trim line)

pub record Resource : Type 0 where
  pub kind : Text
  pub props : List (Text × Text)
  pub body : List Text

abbrev pub get : List (Text × Text) → Text → Option Text
get [] k = none
get ((j, v) ∷ props) k = let rest = get props k in if same_text j k then some v else rest

-- `filter_map` of the lines `add options ...`.
abbrev pub options_of : List Text → List Text
options_of [] = []
options_of (l ∷ more) =
    let rest = options_of more in
    elim (strip_prefix (codes "add options ") l) [ none ↦ rest | some o ↦ trim o ∷ rest ]

abbrev pub nic_of : List (Text × Text) → ZoneNic
nic_of props = record {
  name = or_else (get props (codes "linkname")) [];
  over = or_else (get props (codes "lower-link")) [];
  mac = elim (get props (codes "mac-address")) [
    | none ↦ none
    | some m ↦ if same_text m (codes "auto") then none else some m
  ];
  vid = elim (get props (codes "vlan-id")) [ none ↦ none | some v ↦ parse_uint 65535 v ];
  address = get props (codes "allowed-address");
  gateway = get props (codes "defrouter");
}

abbrev pub fs_of : List (Text × Text) → List Text → ZoneFs
fs_of props body = record {
  dir = or_else (get props (codes "dir")) [];
  special = or_else (get props (codes "special")) [];
  fs_type = or_else (get props (codes "type")) [];
  options = options_of body;
}

abbrev pub add_attr : List (Text × Text) → ZoneConfig → ZoneConfig
add_attr props cfg = elim (get props (codes "name")) [
  | none ↦ cfg
  | some k ↦ elim (get props (codes "value")) [
    | none ↦ cfg
    | some v ↦ record cfg { attrs = insert text_dec k v cfg.attrs }
  ]
]

unfoldable pub finish_resource : Float → ZoneConfig → Resource → ZoneConfig
finish_resource float cfg res =
    if same_text res.kind (codes "anet")
    then record cfg { nics = cfg.nics ++ nic_of res.props ∷ [] }
    else if same_text res.kind (codes "capped-cpu")
    then record cfg {
      cpu_cap = elim (get res.props (codes "ncpus")) [ none ↦ none | some n ↦ float.from_str n ];
    }
    else if same_text res.kind (codes "capped-memory")
    then record cfg {
      memory_cap = elim (get res.props (codes "physical")) [ none ↦ none | some p ↦ size float p ];
    }
    else if same_text res.kind (codes "attr")
    then add_attr res.props cfg
    else if same_text res.kind (codes "dataset")
    then elim (get res.props (codes "name")) [
      | none ↦ cfg
      | some n ↦ record cfg { datasets = cfg.datasets ++ n ∷ [] }
    ]
    else if same_text res.kind (codes "device")
    then elim (get res.props (codes "match")) [
      | none ↦ cfg
      | some m ↦ record cfg { devices = cfg.devices ++ m ∷ [] }
    ]
    else if same_text res.kind (codes "fs")
    then record cfg { fs = cfg.fs ++ fs_of res.props res.body ∷ [] }
    else record cfg {
      other =
          cfg.other
          ++ (codes "add " ++ res.kind ++ codes "; " ++ join (codes "; ") res.body ++ codes "; end")
            ∷ [];
    }

-- The config so far, and the block that is open.
pub record Reading : Type 0 where
  pub cfg : ZoneConfig
  pub resource : Option Resource

abbrev pub unexpected : Text → Text → ZoneError
unexpected kind line =
    parse (codes "zonecfg export") (codes "unexpected line in " ++ kind ++ codes ": " ++ line)

-- A trimmed line inside a block.
unfoldable pub inside : Float → ZoneConfig → Resource → Text → Outcome Reading
inside float cfg res line =
    if same_text line (codes "end")
    then ok (record { cfg = finish_resource float cfg res; resource = none })
    else elim (setting line) [
      | some s ↦ ok (record {
        cfg = cfg;
        resource = some (record res { props = res.props ++ s ∷ []; body = res.body ++ line ∷ [] });
      })
      | none ↦
          if starts_with (codes "add ") line
          then ok
              (record { cfg = cfg; resource = some (record res { body = res.body ++ line ∷ [] }) })
          else err (unexpected res.kind line)
    ]

abbrev pub keep_other : Text → ZoneConfig → ZoneConfig
keep_other line cfg = record cfg { other = cfg.other ++ line ∷ [] }

abbrev pub set_global : Text → Text → Text → ZoneConfig → ZoneConfig
set_global line k v cfg =
    if same_text k (codes "brand")
    then record cfg { brand = v }
    else if same_text k (codes "zonepath")
    then record cfg { zonepath = v }
    else if same_text k (codes "autoboot")
    then record cfg { autoboot = same_text v (codes "true") }
    else if same_text k (codes "ip-type")
    then record cfg { ip_type = v }
    else keep_other line cfg

-- A trimmed line outside every block; `create -b` opens the config.
unfoldable pub outside : ZoneConfig → Text → Reading
outside cfg line = elim (strip_prefix (codes "add ") line) [
  | some kind ↦ record {
    cfg = cfg;
    resource = some (record { kind = trim kind; props = []; body = [] });
  }
  | none ↦ record {
    cfg = elim (setting line) [
      | some (k, v) ↦ set_global line k v cfg
      | none ↦ if starts_with (codes "create") line then cfg else keep_other line cfg
    ];
    resource = none;
  }
]

-- One line of the export, trimmed.
unfoldable pub read_trimmed : Float → Reading → Text → Outcome Reading
read_trimmed float r line =
    if same_text line [] || starts_with (codes "#") line
    then ok r
    else elim r.resource [ some res ↦ inside float r.cfg res line | none ↦ ok (outside r.cfg line) ]

abbrev pub read_line : Float → Reading → Text → Outcome Reading
read_line float r raw = read_trimmed float r (trim raw)

unfoldable pub read_lines : Float → Reading → List Text → Outcome Reading
read_lines float r [] = ok r
read_lines float r (raw ∷ more) =
    and_then (read_line float r raw) (λ next. read_lines float next more)

-- `ZoneConfig::default`, under its name.
abbrev pub named : Text → ZoneConfig
named name = record {
  name = name;
  brand = [];
  zonepath = [];
  autoboot = false;
  ip_type = [];
  nics = [];
  cpu_cap = none;
  memory_cap = none;
  attrs = [];
  datasets = [];
  devices = [];
  fs = [];
  other = [];
}

-- A block that is still open at the end is dropped.
abbrev pub finish : Outcome Reading → Outcome ZoneConfig
finish (err e) = err e
finish (ok r) =
    if same_text r.cfg.brand []
    then err (parse (codes "zonecfg export") (codes "no brand"))
    else ok r.cfg

unfoldable pub zonecfg_export : Float → Text → Text → Outcome ZoneConfig
zonecfg_export float name out =
    finish (read_lines float (record { cfg = named name; resource = none }) (lines out))
