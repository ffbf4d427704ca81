-- ===== src/Network.antt =====
-- internal/algo/network/manager.go: the graphs of the configured networks, built on first use and
-- kept, with the failures. The sources, the builder of a graph and the texts of the errors are
-- arguments. Whether the caller's context is done after the build is an argument of a call; the
-- lock makes a call one step.
mod Laws
mod Tests
use geoverse_map_server.Base.{ℕ, Bool, List, [], ◌∷◌, ◌++◌, none, some, Option, if◌then◌else◌}
use geoverse_map_server.Base.Dict.{Dict, lookup, insert}
use geoverse_map_server.Base.Results.{Result, ok, error}
use geoverse_map_server.Base.Text.{Text, text_eq}

abbrev pub max_network_features : ℕ
max_network_features = 500000

-- `NetworkConfig`, over the type of speeds.
pub record NetworkConfig (Speed : Type 0) : Type 0 where
  pub name : Text
  pub source : Text
  pub default_speed : Speed
  pub speed_field : Text
  pub oneway_field : Text
  pub level_field : Text
  pub name_field : Text

-- What `build` calls, and the errors that it makes.
pub record Builder : Type 1 where
  pub Speed : Type 0
  pub FeatureSource : Type 0
  pub Features : Type 0
  pub Graph : Type 0
  pub Error : Type 0
  pub find_source : Text → Option FeatureSource
  pub features : FeatureSource → ℕ → Result Features Error
  pub make_graph : Features → NetworkConfig Speed → Result Graph Error
  pub unknown_network : Text → List Text → Error
  pub no_source : Text → Text → Error
  pub load_failed : Text → Error → Error
  pub build_failed : Text → Error → Error

module _ (b : Builder) where
  open b use {
    Speed, FeatureSource, Features, Graph, Error, find_source, features, make_graph,
    unknown_network, no_source, load_failed, build_failed,
  }

  pub record Manager : Type 0 where
    pub configs : Dict Text (NetworkConfig Speed)
    pub order : List Text
    pub graphs : Dict Text Graph
    pub errs : Dict Text Error

  -- The loop of `NewManager`, and the function.
  add_configs : List (NetworkConfig Speed) → Manager → Manager
  add_configs [] m = m
  add_configs (c ∷ cs) m =
      add_configs cs
        (record m { configs = insert text_eq c.name c m.configs; order = m.order ++ c.name ∷ [] })

  pub new_manager : List (NetworkConfig Speed) → Manager
  new_manager cs = add_configs cs (record { configs = []; order = []; graphs = []; errs = [] })

  pub names : Manager → List Text
  names m = m.order

  -- The end of `build`, with the features loaded.
  build_from : NetworkConfig Speed → Result Features Error → Result Graph Error
  build_from cfg (error e) = error (load_failed cfg.name e)
  build_from cfg (ok fs) = elim (make_graph fs cfg) [
    | ok g ↦ ok g
    | error e ↦ error (build_failed cfg.name e)
  ]

  pub build : NetworkConfig Speed → Result Graph Error
  build cfg = elim (find_source cfg.source) [
    | none ↦ error (no_source cfg.name cfg.source)
    | some fs ↦ build_from cfg (features fs max_network_features)
  ]

  -- What `Graph` keeps of a build: a graph always, a failure unless the context is done.
  keep : Bool → Text → Result Graph Error → Manager → Manager
  keep done name (ok g) m = record m { graphs = insert text_eq name g m.graphs }
  keep done name (error e) m = if done then m else record m { errs = insert text_eq name e m.errs }

  -- `Graph` of a network that was not built yet.
  graph_new : Bool → Text → Manager → Manager × Result Graph Error
  graph_new done name m = elim (lookup text_eq name m.configs) [
    | none ↦ (m, error (unknown_network name m.order))
    | some cfg ↦ (keep done name (build cfg) m, build cfg)
  ]

  pub graph : Bool → Text → Manager → Manager × Result Graph Error
  graph done name m = elim (lookup text_eq name m.graphs) [
    | some g ↦ (m, ok g)
    | none ↦ elim (lookup text_eq name m.errs) [
      | some e ↦ (m, error e)
      | none ↦ graph_new done name m
    ]
  ]
