-- ===== src/Config.antt =====
-- internal/config/config.go: the configuration and its validation. Texts are bytes, durations are
-- nanoseconds; `DefaultSpeedKMH` of a network is left out, and so are the policies that the
-- registry attaches to a source. The file and the YAML library are arguments of `load`.
pub mod Asset
pub mod Policy
pub mod Save
pub mod Loop
pub mod Laws
pub mod Loading
mod Tests
use geoverse_map_server.Base.{
  ℕ, suc, ◌+◌, ◌*◌, Bool, true, false, List, [], ◌∷◌, ◌++◌, Option, none, some, not, ◌&&◌, ◌||◌,
  ◌==◌, leb, if◌then◌else◌,
}
use geoverse_map_server.Base.Ints.{ℤ, pos, ltz}
use geoverse_map_server.Base.Results.{Result, ok, error, and_then}
use geoverse_map_server.Base.Strings.{same, is_empty, listed, has_prefix, trim_space, split_on}
use geoverse_map_server.Base.Text.{Text, str}
use geoverse_map_server.Config.Asset.{Assets, AssetsError}
use geoverse_map_server.Config.Policy.{DataSourcePolicy}

pub record Server : Type 0 where
  pub host : Text
  pub port : ℤ
  pub base_url : Text
  pub cors : Bool
  pub timeout : ℤ

pub record DiskCache : Type 0 where
  pub enabled : Bool
  pub dir : Text
  pub ttl : ℤ
  pub max_size_mb : ℤ

pub record Cache : Type 0 where
  pub enabled : Bool
  pub max_entries : ℤ
  pub ttl : ℤ
  pub disk : DiskCache

pub record Auth : Type 0 where
  pub enabled : Bool
  pub api_keys : List Text

pub record Mcp : Type 0 where
  pub enabled : Bool
  pub path : Text

pub record Algorithms : Type 0 where
  pub enabled : Option Bool

-- `On`
pub on : Algorithms → Bool
on a = elim a.enabled [ none ↦ true | some b ↦ b ]

pub record Network : Type 0 where
  pub name : Text
  pub source : Text
  pub speed_field : Text
  pub oneway_field : Text
  pub level_field : Text
  pub name_field : Text

pub record Source : Type 0 where
  pub name : Text
  pub kind : Text
  pub title : Text
  pub description : Text
  pub path : Text
  pub layer : Text
  pub dsn : Text
  pub table : Text
  pub geometry_column : Text
  pub id_column : Text
  pub srid : ℤ
  pub fields : List Text
  pub min_zoom : Option ℤ
  pub max_zoom : Option ℤ
  pub buffer : Option ℤ
  pub extent : Option ℤ
  pub simplify : Option Bool
  pub cache : Option Bool
  pub tile_ttl : ℤ

pub record Config : Type 0 where
  pub server : Server
  pub assets : Assets
  pub data_sources : DataSourcePolicy
  pub cache : Cache
  pub auth : Auth
  pub mcp : Mcp
  pub algorithms : Algorithms
  pub sources : List Source
  pub networks : List Network

-- The errors of `Validate`, with the index or the name that their text carries.
pub data Invalid : Type 0 where
  bad_assets : AssetsError → Invalid
  bad_port : ℤ → Invalid
  no_keys : Invalid
  no_disk_dir : Invalid
  bad_mcp_path : Invalid
  no_sources : Invalid
  unnamed : ℕ → Invalid
  bad_name : ℕ → Text → Invalid
  duplicate : ℕ → Text → Invalid
  no_table : Text → Text → Invalid
  bad_scheme : Text → Invalid
  no_path : Text → Text → Invalid
  unknown_type : Text → Text → Invalid
  zooms_crossed : Text → Invalid
  bad_network : ℕ → Text → Invalid
  duplicate_network : ℕ → Text → Invalid
  no_such_source : Text → Text → Invalid

-- A byte of a name, by `nameRe`.
abbrev is_name_byte : ℕ → Bool
is_name_byte c =
    (leb 65 c && leb c 90)
    || (leb 97 c && leb c 122)
    || (leb 48 c && leb c 57)
    || c == 95
    || c == 46
    || c == 45

unfoldable pub all_name_bytes : Text → Bool
all_name_bytes [] = true
all_name_bytes (c ∷ s) = is_name_byte c && all_name_bytes s

-- `nameRe.MatchString`
unfoldable pub is_name : Text → Bool
is_name s = not (is_empty s) && all_name_bytes s

abbrev pub is_database : Text → Bool
is_database kind = same kind (str "postgis") || same kind (str "mysql")

abbrev pub is_file : Text → Bool
is_file kind =
    same kind (str "mbtiles")
    || same kind (str "pmtiles")
    || same kind (str "geojson")
    || same kind (str "geopackage")

-- `s.MinZoom != nil && s.MaxZoom != nil && *s.MinZoom > *s.MaxZoom`
abbrev pub crossed : Option ℤ → Option ℤ → Bool
crossed (some a) (some b) = ltz b a
crossed (some a) none = false
crossed none b = false

-- The body of the loop over the sources, after the tests of the name.
unfoldable pub check_source : Source → Result Unit Invalid
check_source s =
    let zooms : Result Unit Invalid =
      if crossed s.min_zoom s.max_zoom then error (zooms_crossed s.name) else ok tt in
    if is_database s.kind
    then if is_empty s.dsn || is_empty s.table
      then error (no_table s.name s.kind)
      else if same s.kind (str "mysql") && not (has_prefix (str "mysql://") s.dsn)
      then error (bad_scheme s.name)
      else zooms
    else if is_file s.kind
    then if is_empty s.path then error (no_path s.name s.kind) else zooms
    else error (unknown_type s.name s.kind)

-- The loop over the sources, with the names seen; a success gives the names seen at its end.
unfoldable pub check_sources : ℕ → List Text → List Source → Result (List Text) Invalid
check_sources i seen [] = ok seen
check_sources i seen (s ∷ ss) =
    let rest = check_sources (suc i) (s.name ∷ seen) ss in
    if is_empty s.name
    then error (unnamed i)
    else if not (is_name s.name)
    then error (bad_name i s.name)
    else if listed s.name seen
    then error (duplicate i s.name)
    else and_then (check_source s) λ (_ : Unit {0}). rest

-- The loop over the networks.
unfoldable pub check_networks : ℕ → List Text → List Text → List Network → Result Unit Invalid
check_networks i sources seen [] = ok tt
check_networks i sources seen (n ∷ ns) =
    let rest = check_networks (suc i) sources (n.name ∷ seen) ns in
    if is_empty n.name || not (is_name n.name)
    then error (bad_network i n.name)
    else if listed n.name seen
    then error (duplicate_network i n.name)
    else if not (listed n.source sources)
    then error (no_such_source n.name n.source)
    else rest

-- The tests on the parts of a configuration before its sources.
unfoldable pub check_parts : Config → Result Unit Invalid
check_parts c =
    if ltz c.server.port (pos 1) || ltz (pos 65535) c.server.port
    then error (bad_port c.server.port)
    else if c.auth.enabled && is_empty c.auth.api_keys
    then error no_keys
    else if c.cache.disk.enabled && is_empty c.cache.disk.dir
    then error no_disk_dir
    else if c.mcp.enabled && not (has_prefix (str "/") c.mcp.path)
    then error bad_mcp_path
    else if is_empty c.sources
    then error no_sources
    else ok tt

abbrev wrap : Result Unit AssetsError → Result Unit Invalid
wrap (ok u) = ok u
wrap (error e) = error (bad_assets e)

-- `Validate`
unfoldable pub validate : Config → Result Unit Invalid
validate c = and_then (wrap (Asset.validate c.assets)) λ (_ : Unit {0}).
    and_then (check_parts c) λ (_ : Unit {0}).
      and_then (check_sources 0 [] c.sources)
        λ (seen : List Text). check_networks 0 seen [] c.networks

abbrev second : ℕ
second = 1000000000

-- `Default`
unfoldable pub default : Config
default = record {
  server = record {
    host = str "0.0.0.0";
    port = pos 8080;
    base_url = [];
    cors = true;
    timeout = pos (30 * second);
  };
  assets = record {
    root = [];
    enforce_root = false;
    max_file_size_mb = pos 0;
    max_memory_file_size_mb = pos 0;
  };
  data_sources = record {
    allowed_schemas = [];
    allowed_tables = [];
    require_read_only_role = false;
  };
  cache = record {
    enabled = true;
    max_entries = pos 10000;
    ttl = pos (5 * 60 * second);
    disk = record {
      enabled = false;
      dir = str "./tile-cache";
      ttl = pos (24 * 60 * 60 * second);
      max_size_mb = pos 512;
    };
  };
  auth = record { enabled = false; api_keys = [] };
  mcp = record { enabled = false; path = str "/mcp" };
  algorithms = record { enabled = none };
  sources = [];
  networks = [];
}

-- The keys of `GEOVERSE_API_KEYS` that the loop of `Load` keeps.
pub trimmed_keys : List Text → List Text
trimmed_keys [] = []
trimmed_keys (k ∷ ks) =
    let rest = trimmed_keys ks in if is_empty (trim_space k) then rest else trim_space k ∷ rest

-- The split is made of a value that is not empty.
pub env_keys : Text → List Text
env_keys env = if is_empty env then [] else trimmed_keys (split_on 44 env)

pub data LoadError : Type 0 where
  unreadable : LoadError
  unparsed : LoadError
  invalid : Invalid → LoadError

-- `Load`, by the file's bytes, the YAML library over the defaults, and the environment's value.
pub load : (Text → Config → Option Config) → Option Text → Text → Result Config LoadError
load unmarshal none env = error unreadable
load unmarshal (some raw) env = elim (unmarshal raw default) [
  | none ↦ error unparsed
  | some parsed ↦
      let keyed : Config = record parsed {
        auth = record parsed.auth { api_keys = parsed.auth.api_keys ++ env_keys env };
      } in
      elim (validate keyed) [ error e ↦ error (invalid e) | ok _ ↦ ok keyed ]
]
