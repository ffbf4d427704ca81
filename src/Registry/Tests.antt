-- ===== src/Registry/Tests.antt =====
-- Runs of the registry, and its theorems at concrete inputs. A source is the text of its name, and
-- a MySQL source is one that cannot be opened.
use geoverse_map_server.Base.{◌≡◌, refl, List, [], ◌∷◌, ◌++◌, none, some, ℕ_discrete}
use geoverse_map_server.Base.Lists.{Reordered, Reordered-refl}
use geoverse_map_server.Base.Dict.{lookup, insert, delete}
use geoverse_map_server.Base.Text.{Text, str, text_eq}
use geoverse_map_server.Registry.{
  SourceConfig, opened, failed, Backends, Registry, replace, remove, names, prepend, sources_at,
  close, open_with_policies, build_from, build, tile_source, feature_source, collect, tile_sources,
  feature_sources, ping_all,
}
use geoverse_map_server.Registry.Invariant.{listed, DistinctNames, IsValid}
use geoverse_map_server.Registry.Build.{config_names, build-IsValid}
use geoverse_map_server.Registry.Resources.{Reorders, opens, build-closed}

abbrev sort : List Text → List Text
sort ns = ns

sort-Reorders : Reorders sort
sort-Reorders ns = Reordered-refl ns

abbrev backends : Backends
backends = record {
  Source = Text;
  Error = Text;
  TileSource = Text;
  FeatureSource = Text;
  postgis = λ sc. opened (sc.name);
  mysql = λ sc. failed (sc.name);
  mbtiles = λ sc. opened (sc.name);
  pmtiles = λ sc. opened (sc.name);
  geojson = λ sc. opened (sc.name);
  geopackage = λ sc. opened (sc.name);
  unknown = λ kind. kind;
  ping = λ s. none;
  as_tile = λ s. some s;
  as_feature = λ s. none;
}

abbrev source : Text → Text → SourceConfig
source name kind = record { name = name; kind = kind; asset_policy = 0; db_policy = 0 }

abbrev good : List SourceConfig
good = source (str "roads") (str "pmtiles") ∷ source (str "towns") (str "geojson") ∷ []

abbrev bad : List SourceConfig
bad = good ++ source (str "rails") (str "mysql") ∷ []

program : Unit {0}
unfolding lookup insert delete text_eq ℕ_discrete open_with_policies build_from build close names
    listed replace remove sources_at prepend
program = tt

abbrev built : Registry Text
built = record {
  sources = (str "towns", str "towns") ∷ (str "roads", str "roads") ∷ [];
  order = str "roads" ∷ str "towns" ∷ [];
  retired = [];
}

build-good : build backends sort 1 2 good ≡ opened built
unfolding program
build-good = refl

good-DistinctNames : DistinctNames (config_names good)
unfolding program
good-DistinctNames = (refl, (refl, tt))

build-bad : build backends sort 1 2 bad ≡ failed (str "rails", str "towns" ∷ str "roads" ∷ [])
unfolding program
build-bad = refl

bad-DistinctNames : DistinctNames (config_names bad)
unfolding program
bad-DistinctNames = (refl, (refl, (refl, tt)))

built-IsValid : IsValid built
built-IsValid = (build-IsValid backends sort 1 2 good good-DistinctNames build-good).0

build-closed_example : Reordered (str "towns" ∷ str "roads" ∷ []) (opens backends sort 1 2 bad)
build-closed_example =
    build-closed backends sort 1 2 bad (str "rails") (str "towns" ∷ str "roads" ∷ []) sort-Reorders
      bad-DistinctNames build-bad

-- What clients are given, in configuration order.
served :
    (tile_sources backends built ≡ str "roads" ∷ str "towns" ∷ [])
    × (feature_sources backends built ≡ [])
    × (tile_source backends (str "towns") built ≡ some (str "towns"))
    × (feature_source backends (str "towns") built ≡ none)
    × (ping_all backends built ≡ (str "towns", none) ∷ (str "roads", none) ∷ [])
unfolding program tile_sources feature_sources tile_source feature_source ping_all collect
served = (refl, refl, refl, refl, refl)
