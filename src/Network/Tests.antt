-- ===== src/Network/Tests.antt =====
-- Runs of the manager, and its theorems at concrete inputs. A graph is the text of its source.
use geoverse_map_server.Base.{ℕ, ◌≡◌, refl, true, false, [], ◌∷◌, some, ite, ℕ_discrete}
use geoverse_map_server.Base.Dict.{lookup, insert, delete}
use geoverse_map_server.Base.Results.{ok, error}
use geoverse_map_server.Base.Text.{Text, str, text_eq}
use geoverse_map_server.Network.{
  NetworkConfig, Builder, Manager, add_configs, new_manager, names, build_from, build, keep,
  graph_new, graph,
}

-- The source `broken` has no features.
abbrev builder : Builder
builder = record {
  Speed = ℕ;
  FeatureSource = Text;
  Features = Text;
  Graph = Text;
  Error = Text;
  find_source = λ name. some name;
  features = λ name limit. ite (text_eq name (str "broken")) (error (str "down")) (ok name);
  make_graph = λ fs cfg. ok fs;
  unknown_network = λ name order. str "unknown";
  no_source = λ name source. str "no source";
  load_failed = λ name e. e;
  build_failed = λ name e. e;
}

abbrev config : Text → Text → NetworkConfig ℕ
config name source = record {
  name = name;
  source = source;
  default_speed = 50;
  speed_field = [];
  oneway_field = [];
  level_field = [];
  name_field = [];
}

program : Unit {0}
unfolding add_configs new_manager names build_from build keep graph_new graph lookup insert delete
    text_eq ℕ_discrete
program = tt

abbrev manager : Manager builder
manager = record {
  configs =
      (str "bad", config (str "bad") (str "broken"))
      ∷ (str "road", config (str "road") (str "lines"))
      ∷ [];
  order = str "road" ∷ str "bad" ∷ [];
  graphs = [];
  errs = [];
}

started :
    new_manager builder (config (str "road") (str "lines") ∷ config (str "bad") (str "broken") ∷ [])
    ≡ manager
unfolding program
started = refl

in_order : names builder manager ≡ str "road" ∷ str "bad" ∷ []
unfolding program
in_order = refl

built : (graph builder false (str "road") manager).1 ≡ ok (str "lines")
unfolding program
built = refl

given_up : (graph builder true (str "bad") manager).1 ≡ error (str "down")
unfolding program
given_up = refl

down : (graph builder false (str "bad") manager).1 ≡ error (str "down")
unfolding program
down = refl
