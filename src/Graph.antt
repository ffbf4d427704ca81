-- ===== src/Graph.antt =====
-- internal/algo/network/graph.go: the graph of a network. The
-- floating-point numbers, the points, their distance and the rounding of their coordinates are
-- arguments. The numbers
-- of nodes and of edges do not leave int32.
pub mod Build
pub mod Nodes
pub mod Edges
pub mod Laws
pub mod Tests
use geoverse_map_server.Base.{
  ℕ, suc, ◌%◌, ◌<◌, ◌≡◌, List, [], ◌∷◌, ◌++◌, map, length, get_or, get_elem?, set, Option, none,
  some, Bool, true, false, not, ◌&&◌, ◌||◌, if◌then◌else◌, ◌==◌,
}
use geoverse_map_server.Base.Dict.{Dict, lookup}
use geoverse_map_server.Base.Ints.{ℤ, pos, negsuc}
use geoverse_map_server.Base.Results.{Result, ok, error}
use geoverse_map_server.Base.Strings.{same, is_empty}
use geoverse_map_server.Base.Text.{Text, str, text_eq}
use mathlib.Core.List.{Memᴰ}

-- `Node`, over the type of points.
pub record Node (Point : Type 0) : Type 0 where
  pub pt : Point
  pub level : ℤ

-- `Edge`, over the type of floating-point numbers.
pub record Edge (Float : Type 0) : Type 0 where
  pub from : ℕ
  pub to : ℕ
  pub length_m : Float
  pub speed_ms : Float
  pub duration_s : Float
  pub feature_idx : ℕ

pub record FeatureRef : Type 0 where
  pub id : Text
  pub name : Text

-- `Graph`, less the two grids.
pub record Graph (Point Float : Type 0) : Type 0 where
  pub nodes : List (Node Point)
  pub edges : List (Edge Float)
  pub adj : List (List ℕ)
  pub features : List FeatureRef
  pub max_speed_ms : Float

-- `nodeKey`: the rounded coordinates and the level.
pub record NodeKey : Type 0 where
  pub x : ℤ
  pub y : ℤ
  pub level : ℤ

-- `float64`, `orb.Point`, and what the code computes of them. `literal 3 6` is 3.6.
pub record Geometry : Type 1 where
  pub Float : Type 0
  pub Point : Type 0
  pub lt : Float → Float → Bool
  pub le : Float → Float → Bool
  pub eq : Float → Float → Bool
  pub add : Float → Float → Float
  pub div : Float → Float → Float
  pub literal : ℕ → ℕ → Float
  pub of_int : ℤ → Float
  pub to_int16 : Float → ℤ
  pub quantize : Point → ℤ × ℤ
  pub haversine : Point → Point → Float

-- A property's value, by its Go type. A float32 is held as the float64 that equals it.
pub data Value (Float : Type 0) : Type 0 where
  float64 : Float → Value Float
  float32 : Float → Value Float
  int : ℤ → Value Float
  int64 : ℤ → Value Float
  uint64 : ℕ → Value Float
  bool : Bool → Value Float
  string : Text → Value Float
  other : Value Float

-- `orb.Geometry`, as the switch of `Build` reads it.
pub data Shape (Point : Type 0) : Type 0 where
  line_string : List Point → Shape Point
  multi_line_string : List (List Point) → Shape Point
  other : Shape Point

-- `geojson.Feature`, with its id as `fmt.Sprint` prints it. A nil geometry is `none`.
pub record Feature (Point Float : Type 0) : Type 0 where
  pub id : Option Text
  pub geometry : Option (Shape Point)
  pub properties : Dict Text (Value Float)

pub record BuildOptions (Float : Type 0) : Type 0 where
  pub default_speed_kmh : Float
  pub speed_field : Text
  pub oneway_field : Text
  pub level_field : Text
  pub level_from_field : Text
  pub level_to_field : Text
  pub duration_field : Text
  pub name_field : Text

pub data BuildError : Type 0 where
  cancelled : BuildError
  no_features : BuildError

abbrev pub same_int : ℤ → ℤ → Bool
same_int (pos a) (pos b) = a == b
same_int (negsuc a) (negsuc b) = a == b
same_int (pos a) (negsuc b) = false
same_int (negsuc a) (pos b) = false

-- The equality of the keys of `index`.
abbrev pub same_key : NodeKey → NodeKey → Bool
same_key j k = same_int j.x k.x && (same_int j.y k.y && same_int j.level k.level)

-- `index[key]`
abbrev pub find_key : NodeKey → List (NodeKey × ℕ) → Option ℕ
find_key k [] = none
find_key k ((j, i) ∷ index) = if same_key j k then some i else find_key k index

module _ {Point Float : Type 0} where
  -- The edges in the list of a node exist, leave that node and lead to a node.
  pub record IsGraph (g : Graph Point Float) : Type 0 where
    pub size : length g.adj ≡ length g.nodes
    pub leads :
        (u i : ℕ)
        → Memᴰ i (get_or g.adj u [])
        → (e : Edge Float) × (get_elem? g.edges i ≡ some e) × (e.from ≡ u) × (e.to < length g.nodes)
