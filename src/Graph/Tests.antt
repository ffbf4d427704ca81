-- ===== src/Graph/Tests.antt =====
-- A network of two streets and a lift, over whole numbers.
use geoverse_map_server.Base.{
  ℕ, ◌+◌, ◌-◌, ◌/◌, ◌≡◌, refl, List, [], ◌∷◌, some, none, Option, false, ltb, leb, ◌==◌,
}
use geoverse_map_server.Base.Dict.{lookup}
use geoverse_map_server.Base.Ints.{pos, to_ℕ}
use geoverse_map_server.Base.Results.{ok}
use geoverse_map_server.Base.Strings.{same}
use geoverse_map_server.Base.Text.{Text, str, text_eq}
use geoverse_map_server.Graph.{
  Edge, Graph, IsGraph, Geometry, Value, Shape, Feature, BuildOptions, Node, FeatureRef,
}
use geoverse_map_server.Graph.Build.{
  build, fill, take_features, take_feature, add_ref, add_feature, add_lines, add_segments,
  add_segment, add_connectors, add_connector, add_both, add_edge, node, finish, build_indexes,
  add_adj, prop_float, prop_bool, prop_string, speed_kmh,
}
use geoverse_map_server.Graph.Laws.{IsExact, build-IsExact, build-IsGraph, build_unique}

-- Points on a line, at their distance.
abbrev pub line : Geometry
line = record {
  Float = ℕ;
  Point = ℕ;
  lt = ltb;
  le = leb;
  eq = λ a b. a == b;
  add = λ a b. a + b;
  div = λ a b. a / b;
  literal = λ a b. a;
  of_int = to_ℕ;
  to_int16 = pos;
  quantize = λ p. (pos p, pos 0);
  haversine = λ p q. (p - q) + (q - p);
}

abbrev pub print : Value ℕ → Text
print v = []

abbrev pub street : List ℕ → Option (Feature ℕ ℕ)
street ps = some (record { id = none; geometry = some (Shape.line_string ps); properties = [] })

abbrev pub lift : Option (Feature ℕ ℕ)
lift = some (record {
  id = none;
  geometry = some (Shape.line_string (9 ∷ 9 ∷ []));
  properties = (str "level_from", Value.int (pos 0)) ∷ (str "level_to", Value.int (pos 1)) ∷ [];
})

abbrev pub features : List (Option (Feature ℕ ℕ))
features = street (0 ∷ 4 ∷ 9 ∷ []) ∷ street (0 ∷ 9 ∷ []) ∷ none ∷ lift ∷ []

abbrev pub options : BuildOptions ℕ
options = record {
  default_speed_kmh = 0;
  speed_field = [];
  oneway_field = [];
  level_field = [];
  level_from_field = [];
  level_to_field = [];
  duration_field = [];
  name_field = [];
}

abbrev place : ℕ → ℕ → Node ℕ
place p level = record { pt = p; level = pos level }

abbrev way : ℕ → ℕ → ℕ → ℕ → ℕ → Edge ℕ
way from to meters seconds idx = record {
  from = from;
  to = to;
  length_m = meters;
  speed_ms = 1;
  duration_s = seconds;
  feature_idx = idx;
}

abbrev ref : FeatureRef
ref = record { id = []; name = [] }

abbrev pub network : Graph ℕ ℕ
network = record {
  nodes = place 0 0 ∷ place 4 0 ∷ place 9 0 ∷ place 9 1 ∷ [];
  edges =
      way 0 1 4 0 0
      ∷ way 1 0 4 0 0
      ∷ way 1 2 5 0 0
      ∷ way 2 1 5 0 0
      ∷ way 0 2 9 0 1
      ∷ way 2 0 9 0 1
      ∷ way 2 3 0 30 2
      ∷ way 3 2 0 30 2
      ∷ [];
  adj = (0 ∷ 4 ∷ []) ∷ (1 ∷ 2 ∷ []) ∷ (3 ∷ 5 ∷ 6 ∷ []) ∷ (7 ∷ []) ∷ [];
  features = ref ∷ ref ∷ ref ∷ [];
  max_speed_ms = 1;
}

pub built : build line print (λ i. false) features options ≡ ok network
unfolding build fill take_features take_feature add_ref add_feature add_lines add_segments
    add_segment add_connectors add_connector add_both add_edge node finish build_indexes add_adj
    prop_float prop_bool prop_string speed_kmh lookup same text_eq
built = refl

pub network-IsGraph : IsGraph network
network-IsGraph = build-IsGraph line print (λ i. false) features options network built

build-IsExact_example : IsExact network
build-IsExact_example = build-IsExact line print (λ i. false) features options network built

build_unique_example : ◌≡◌ {A = ℕ} 2 2
build_unique_example =
    build_unique line print (λ i. false) features options network built 2 2 (place 9 0) (place 9 0)
      refl refl refl
