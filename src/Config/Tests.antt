-- ===== src/Config/Tests.antt =====
-- Runs of the validation, and the theorems on the configuration at concrete inputs.
use geoverse_map_server.Base.{
  ◌≡◌, ◌≢◌, ◌↔◌, refl, true, false, List, [], ◌∷◌, Option, none, some, ℕ_discrete, map, ite,
}
use geoverse_map_server.Base.Dict.{Dict, lookup, insert, delete}
use geoverse_map_server.Base.Ints.{pos}
use geoverse_map_server.Base.Lists.{All}
use geoverse_map_server.Base.Results.{ok, error}
use geoverse_map_server.Base.Strings.{
  same, listed, space_width, space_width_back, cut_front, trim_space, split_on,
}
use geoverse_map_server.Base.Text.{Text, str, text_eq}
use geoverse_map_server.Config.{
  Source, Network, Config, default, on, all_name_bytes, is_name, check_source, check_sources,
  check_networks, check_parts, validate, trimmed_keys, env_keys, load, duplicate, no_such_source,
  bad_scheme,
}
use geoverse_map_server.Config.Asset.{limit_mb, limit_bytes}
use geoverse_map_server.Config.Asset
use geoverse_map_server.Config.Laws.{IsConfig, validate_iff, registered, build-validate}
use geoverse_map_server.Config.Loop.{source_names}
use geoverse_map_server.Config.Policy.{
  DataSourcePolicy, configured, contains_fold, check_table, table_refused,
}
use geoverse_map_server.Config.Save.{
  Yaml, SaveFaults, replace_sources, root_of, updated, put_file, save_sources,
}
use geoverse_map_server.Config.Save.Atomic.{update_of, expected, save_sources-atomic}
use geoverse_map_server.Registry.{
  Registry, Backends, opened, build, build_from, open_with_policies, names,
}
use geoverse_map_server.Registry.Invariant
use geoverse_map_server.Registry.Invariant.{is_some}

program : Unit {0}
unfolding same listed space_width space_width_back cut_front trim_space split_on text_eq ℕ_discrete
    default on all_name_bytes is_name check_source check_sources check_networks check_parts validate
    trimmed_keys env_keys load Asset.validate limit_mb limit_bytes configured contains_fold
    check_table
program = tt

abbrev source_of : Text → Text → Text → Source
source_of name kind dsn = record {
  name = name;
  kind = kind;
  title = [];
  description = [];
  path = str "a.pmtiles";
  layer = [];
  dsn = dsn;
  table = str "roads";
  geometry_column = [];
  id_column = [];
  srid = pos 0;
  fields = [];
  min_zoom = some (pos 0);
  max_zoom = some (pos 14);
  buffer = none;
  extent = none;
  simplify = none;
  cache = none;
  tile_ttl = pos 0;
}

abbrev tiles : Source
tiles = source_of (str "tiles") (str "pmtiles") []

abbrev roads : Source
roads = source_of (str "roads") (str "mysql") (str "mysql://db/geo")

abbrev drive : Network
drive = record {
  name = str "drive";
  source = str "roads";
  speed_field = [];
  oneway_field = [];
  level_field = [];
  name_field = [];
}

abbrev config_of : List Source → Config
config_of sources = record default { sources = sources; networks = drive ∷ [] }

accepted : validate (config_of (tiles ∷ roads ∷ [])) ≡ ok tt
unfolding program
accepted = refl

twice : validate (config_of (tiles ∷ tiles ∷ [])) ≡ error (duplicate 1 (str "tiles"))
unfolding program
twice = refl

no_source : validate (config_of (tiles ∷ [])) ≡ error (no_such_source (str "drive") (str "roads"))
unfolding program
no_source = refl

plain_dsn :
    validate (config_of (source_of (str "roads") (str "mysql") (str "db") ∷ []))
    ≡ error (bad_scheme (str "roads"))
unfolding program
plain_dsn = refl

switched : on (default.algorithms) ≡ true
unfolding program
switched = refl

keys : env_keys (str "a, b ,,c") ≡ str "a" ∷ str "b" ∷ str "c" ∷ []
unfolding program
keys = refl

abbrev policy : DataSourcePolicy
policy = record {
  allowed_schemas = str "geo" ∷ [];
  allowed_tables = str "geo.roads" ∷ [];
  require_read_only_role = false;
}

allowed : check_table same policy (str "geo") (str "roads") ≡ ok tt
unfolding program
allowed = refl

refused :
    check_table same policy (str "geo") (str "users") ≡ error (table_refused (str "geo.users"))
unfolding program
refused = refl

restricted : configured policy ≡ true
unfolding program
restricted = refl

abbrev small : Config
small = config_of (tiles ∷ roads ∷ [])

validate_iff_example : (validate small ≡ ok tt) ↔ IsConfig small
validate_iff_example = validate_iff small

abbrev backends : Backends
backends = record {
  Source = Text;
  Error = Text;
  TileSource = Text;
  FeatureSource = Text;
  postgis = λ sc. opened sc.name;
  mysql = λ sc. opened sc.name;
  mbtiles = λ sc. opened sc.name;
  pmtiles = λ sc. opened sc.name;
  geojson = λ sc. opened sc.name;
  geopackage = λ sc. opened sc.name;
  unknown = λ kind. kind;
  ping = λ s. none;
  as_tile = λ s. some s;
  as_feature = λ s. some s;
}

abbrev built : Registry Text
built = record {
  sources = (str "roads", str "roads") ∷ (str "tiles", str "tiles") ∷ [];
  order = str "tiles" ∷ str "roads" ∷ [];
  retired = [];
}

build-small : build backends (λ names. names) 0 0 (map registered small.sources) ≡ opened built
unfolding program build build_from open_with_policies insert delete
build-small = refl

build-validate_example :
    Invariant.IsValid built
    × (names built ≡ source_names small.sources)
    × All (λ (n : Network). is_some (lookup text_eq n.source built.sources) ≡ true) small.networks
build-validate_example = build-validate backends (λ names. names) 0 0 small accepted build-small

abbrev parse_any : Text → Config → Option Config
parse_any raw c = some (record c { sources = tiles ∷ roads ∷ [] })

abbrev loaded : Config
loaded = record default {
  sources = tiles ∷ roads ∷ [];
  auth = record { enabled = false; api_keys = str "k" ∷ [] };
}

load-loaded : load parse_any (some []) (str "k") ≡ ok loaded
unfolding program
load-loaded = refl

abbrev yaml : Yaml
yaml = record {
  Node = Text;
  unmarshal = λ raw. some (raw ∷ []);
  marshal = λ nodes. some (str "new");
  encode = λ sources. some (str "list");
  is_mapping = λ n. true;
  content = λ n. [];
  with_content = λ n ns. n;
  value = λ n. n;
  text_node = λ t. t;
}

abbrev no_faults : SaveFaults
no_faults = record {
  stat = false;
  create = false;
  chmod = false;
  write = false;
  written = [];
  sync = false;
  close = false;
  rename = false;
  remove = false;
}

abbrev files : Dict Text Text
files = (str "config", str "old") ∷ []

saved :
    save_sources yaml no_faults (str "temp") (str "config") [] files
    ≡ (ok tt, (str "config", str "new") ∷ [])
unfolding program save_sources updated root_of replace_sources put_file lookup insert delete
saved = refl

apart : str "config" ≢ str "temp"
apart = cc

save_sources-atomic_example :
    (lookup text_eq
        (str "config")
        (save_sources yaml no_faults (str "temp") (str "config") [] files).1
      ≡ expected
          (save_sources yaml no_faults (str "temp") (str "config") [] files).0
          (ite
            (text_eq (str "config") (str "config"))
            (update_of yaml [] (lookup text_eq (str "config") files))
            (lookup text_eq (str "config") files))
          (lookup text_eq (str "config") files))
    × ((save_sources yaml no_faults (str "temp") (str "config") [] files).0 ≡ ok tt
        → (out : Text) × (update_of yaml [] (lookup text_eq (str "config") files) ≡ some out))
save_sources-atomic_example =
    save_sources-atomic yaml no_faults (str "temp") (str "config") (str "config") [] files apart
