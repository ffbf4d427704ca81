-- ===== src/Graph/Build.antt =====
-- internal/algo/network/graph.go: how the graph of a network is built from features.
use geoverse_map_server.Base.{
  ℕ, suc, ◌%◌, List, [], ◌∷◌, ◌++◌, map, length, get_or, set, Option, none, some, Bool, false, not,
  ◌&&◌, ◌||◌, if◌then◌else◌, ◌==◌,
}
use geoverse_map_server.Base.Dict.{Dict, lookup}
use geoverse_map_server.Base.Ints.{ℤ, pos}
use geoverse_map_server.Base.Results.{Result, ok, error}
use geoverse_map_server.Base.Strings.{same, is_empty}
use geoverse_map_server.Base.Text.{Text, str, text_eq}
use geoverse_map_server.Graph.{
  Edge, FeatureRef, Graph, NodeKey, Geometry, Value, Shape, Feature, BuildOptions, BuildError,
  same_int, find_key,
}

module _ {Float : Type 0} where
  -- The loop of `buildIndexes` over the edges, from the number `i` on.
  unfoldable pub add_adj : ℕ → List (Edge Float) → List (List ℕ) → List (List ℕ)
  add_adj i [] adj = adj
  add_adj i (e ∷ es) adj = add_adj (suc i) es (set adj e.from (get_or adj e.from [] ++ i ∷ []))

module _ {Point Float : Type 0} where
  -- `buildIndexes`, less the two grids.
  unfoldable pub build_indexes : Graph Point Float → Graph Point Float
  build_indexes g = record g { adj = add_adj 0 g.edges (map (λ _. []) g.nodes) }

module _ (m : Geometry) (sprint : Value m.Float → Text) where
  open m use {Float, Point, lt, le, eq, add, div, literal, of_int, to_int16, quantize, haversine}

  -- `fill`, whose default speed is 5 km/h.
  unfoldable pub fill : BuildOptions Float → BuildOptions Float
  fill o =
      let otherwise = λ (t : Text) (d : Text). if is_empty t then d else t in
      record o {
        default_speed_kmh =
            if le o.default_speed_kmh (literal 0 0) then literal 5 0 else o.default_speed_kmh;
        level_field = otherwise o.level_field (str "level");
        level_from_field = otherwise o.level_from_field (str "level_from");
        level_to_field = otherwise o.level_to_field (str "level_to");
        duration_field = otherwise o.duration_field (str "duration_s");
        name_field = otherwise o.name_field (str "name");
      }

  unfoldable pub prop_string : Dict Text (Value Float) → Text → Text
  prop_string props key = elim (lookup text_eq key props) [ none ↦ [] | some v ↦ sprint v ]

  unfoldable pub prop_float : Dict Text (Value Float) → Text → Option Float
  prop_float props key = elim (lookup text_eq key props) [
    | none ↦ none
    | some v ↦ elim v [
      | Value.float64 x ↦ some x
      | Value.float32 x ↦ some x
      | Value.int i ↦ some (of_int i)
      | Value.int64 i ↦ some (of_int i)
      | Value.uint64 n ↦ some (of_int (pos n))
      | Value.bool b ↦ none
      | Value.string t ↦ none
      | Value.other ↦ none
    ]
  ]

  unfoldable pub prop_bool : Dict Text (Value Float) → Text → Bool
  prop_bool props key = elim (lookup text_eq key props) [
    | none ↦ false
    | some v ↦ elim v [
      | Value.float64 x ↦ not (eq x (literal 0 0))
      | Value.float32 x ↦ false
      | Value.int i ↦ not (same_int i (pos 0))
      | Value.int64 i ↦ false
      | Value.uint64 n ↦ false
      | Value.bool b ↦ b
      | Value.string t ↦
          same t (str "yes") || (same t (str "true") || (same t (str "1") || same t (str "-1")))
      | Value.other ↦ false
    ]
  ]

  pub record Builder : Type 0 where
    pub g : Graph Point Float
    pub index : List (NodeKey × ℕ)

  abbrev pub node_key : Point → ℤ → NodeKey
  node_key p level = record { x = (quantize p).0; y = (quantize p).1; level = level }

  -- `node`
  unfoldable pub node : Point → ℤ → Builder → ℕ × Builder
  node p level b = elim (find_key (node_key p level) b.index) [
    | some id ↦ (id, b)
    | none ↦ (
      length b.g.nodes,
      record {
        g = record b.g { nodes = b.g.nodes ++ (record { pt = p; level = level }) ∷ [] };
        index = (node_key p level, length b.g.nodes) ∷ b.index;
      },
    )
  ]

  -- `addEdge`
  unfoldable pub add_edge : Edge Float → Builder → Builder
  add_edge e b = record b {
    g = record b.g {
      edges = b.g.edges ++ e ∷ [];
      max_speed_ms = if lt b.g.max_speed_ms e.speed_ms then e.speed_ms else b.g.max_speed_ms;
    };
  }

  -- The edge and, unless the line is one-way, the edge back, at the end of `addSegment` and of
  -- `addConnector`.
  unfoldable pub add_both : Bool → Edge Float → Builder → Builder
  add_both oneway e b =
      let there = add_edge e b in
      if oneway then there else add_edge (record e { from = e.to; to = e.from }) there

  -- `addSegment`, whose callers pass no duration.
  unfoldable pub add_segment : Point → Point → ℤ → Float → ℕ → Bool → Builder → Builder
  add_segment p q level speed idx oneway b =
      let first = node p level b in
      let second = node q level first.1 in
      if first.0 == second.0
      then second.1
      else add_both oneway
          (record {
            from = first.0;
            to = second.0;
            length_m = haversine p q;
            speed_ms = speed;
            duration_s = literal 0 0;
            feature_idx = idx;
          })
          second.1

  -- The last of the points of a line, and its length, summed from the start.
  abbrev pub last_point : Point → List Point → Point
  last_point p [] = p
  last_point p (q ∷ qs) = last_point q qs

  abbrev pub line_length : Float → Point → List Point → Float
  line_length sum p [] = sum
  line_length sum p (q ∷ qs) = line_length (add sum (haversine p q)) q qs

  -- `addConnector`, of a line from `p` over `ps`.
  unfoldable pub add_connector :
      Point → List Point → ℤ → ℤ → Float → Float → ℕ → Bool → Builder → Builder
  add_connector p ps from to speed dur idx oneway b =
      let first = node p from b in
      let second = node (last_point p ps) to first.1 in
      let total = line_length (literal 0 0) p ps in
      if first.0 == second.0
      then second.1
      else add_both oneway
          (record {
            from = first.0;
            to = second.0;
            length_m = total;
            speed_ms = speed;
            duration_s =
                if eq total (literal 0 0) && eq dur (literal 0 0) then literal 30 0 else dur;
            feature_idx = idx;
          })
          second.1

  -- The loop over the points of a line.
  unfoldable pub add_segments : Point → List Point → ℤ → Float → ℕ → Bool → Builder → Builder
  add_segments p [] level speed idx oneway b = b
  add_segments p (q ∷ qs) level speed idx oneway b =
      add_segments q qs level speed idx oneway (add_segment p q level speed idx oneway b)

  -- The two loops over the lines of a feature.
  unfoldable pub add_connectors :
      List (List Point) → ℤ → ℤ → Float → Float → ℕ → Bool → Builder → Builder
  add_connectors [] from to speed dur idx oneway b = b
  add_connectors ([] ∷ ls) from to speed dur idx oneway b =
      add_connectors ls from to speed dur idx oneway b
  add_connectors ((p ∷ []) ∷ ls) from to speed dur idx oneway b =
      add_connectors ls from to speed dur idx oneway b
  add_connectors ((p ∷ q ∷ qs) ∷ ls) from to speed dur idx oneway b =
      add_connectors ls from to speed dur idx oneway
        (add_connector p (q ∷ qs) from to speed dur idx oneway b)

  unfoldable pub add_lines : List (List Point) → ℤ → Float → ℕ → Bool → Builder → Builder
  add_lines [] level speed idx oneway b = b
  add_lines ([] ∷ ls) level speed idx oneway b = add_lines ls level speed idx oneway b
  add_lines ((p ∷ ps) ∷ ls) level speed idx oneway b =
      add_lines ls level speed idx oneway (add_segments p ps level speed idx oneway b)

  abbrev or_else : Option Float → Float → Float
  or_else none d = d
  or_else (some x) d = x

  -- The speed of a feature in km/h.
  unfoldable pub speed_kmh : BuildOptions Float → Feature Point Float → Float
  speed_kmh o f =
      if is_empty o.speed_field
      then o.default_speed_kmh
      else elim (prop_float f.properties o.speed_field) [
        | none ↦ o.default_speed_kmh
        | some v ↦ if lt (literal 0 0) v then v else o.default_speed_kmh
      ]

  -- The feature's reference is appended.
  unfoldable pub add_ref : BuildOptions Float → Feature Point Float → Builder → Builder
  add_ref o f b =
      let ref : FeatureRef = record {
        id = elim f.id [ none ↦ [] | some t ↦ t ];
        name = prop_string f.properties o.name_field;
      } in
      record b { g = record b.g { features = b.g.features ++ ref ∷ [] } }

  -- The rest of the loop's body of `Build`, for the lines of a feature.
  unfoldable pub add_feature :
      BuildOptions Float → Feature Point Float → List (List Point) → Builder → Builder
  add_feature o f ls b =
      let idx = length b.g.features in
      let b' = add_ref o f b in
      let speed = div (speed_kmh o f) (literal 3 6) in
      let oneway =
        if is_empty o.oneway_field then false else prop_bool f.properties o.oneway_field in
      let on_level =
        add_lines ls
          (elim (prop_float f.properties o.level_field) [ none ↦ pos 0 | some v ↦ to_int16 v ])
          speed idx oneway b' in
      elim (prop_float f.properties o.level_from_field) [
        | none ↦ on_level
        | some from ↦ elim (prop_float f.properties o.level_to_field) [
          | none ↦ on_level
          | some to ↦
              add_connectors ls (to_int16 from) (to_int16 to) speed
                (or_else (prop_float f.properties o.duration_field) (literal 0 0)) idx oneway b'
        ]
      ]

  -- The loop's body of `Build`: a feature without lines is skipped.
  unfoldable pub take_feature :
      BuildOptions Float → Option (Feature Point Float) → Builder → Builder
  take_feature o none b = b
  take_feature o (some f) b = elim f.geometry [
    | none ↦ b
    | some shape ↦ elim shape [
      | Shape.line_string ln ↦ add_feature o f (ln ∷ []) b
      | Shape.multi_line_string ls ↦ add_feature o f ls b
      | Shape.other ↦ b
    ]
  ]

  -- The loop of `Build`, at the feature numbered `i`. The context is asked at every 1024th.
  unfoldable pub take_features :
      (ℕ → Bool)
      → BuildOptions Float
      → ℕ
      → List (Option (Feature Point Float))
      → Builder
      → Result Builder BuildError
  take_features done o i [] b = ok b
  take_features done o i (f ∷ fs) b =
      if i % 1024 == 0 && done i
      then error BuildError.cancelled
      else take_features done o (suc i) fs (take_feature o f b)

  abbrev pub blank : Builder
  blank = record {
    g = record { nodes = []; edges = []; adj = []; features = []; max_speed_ms = literal 0 0 };
    index = [];
  }

  -- The end of `Build`.
  unfoldable pub finish : Builder → Result (Graph Point Float) BuildError
  finish b = if length b.g.edges == 0 then error BuildError.no_features else ok (build_indexes b.g)

  unfoldable pub build :
      (ℕ → Bool)
      → List (Option (Feature Point Float))
      → BuildOptions Float
      → Result (Graph Point Float) BuildError
  build done feats o = elim (take_features done (fill o) 0 feats blank) [
    | error e ↦ error e
    | ok b ↦ finish b
  ]
