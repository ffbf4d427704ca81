-- ===== src/Graph/Edges.antt =====
-- Every step of the loop over the features keeps the builder well formed.
use geoverse_map_server.Base.{
  ℕ, suc, ◌%◌, ◌<◌, ◌≡◌, ◌≢◌, inl, inr, sym, List, [], ◌∷◌, length, subst, Option, none, some, Bool,
  false, ◌&&◌, ◌==◌, Bool-cases, Option-cases, arith,
}
use geoverse_map_server.Base.Ints.{ℤ}
use geoverse_map_server.Base.Results.{Result, ok}
use geoverse_map_server.Base.Tests.{==_iff}
use geoverse_map_server.Base.Text.{Text}
use geoverse_map_server.Graph.{Edge, Geometry, Value, Shape, Feature, BuildOptions, BuildError}
use geoverse_map_server.Graph.Build.{
  Builder, node, add_edge, add_both, add_segment, last_point, add_connector, add_segments,
  add_connectors, add_lines, add_ref, prop_float, add_feature, take_feature, take_features,
}
use geoverse_map_server.Graph.Nodes.{get_elem?-snoc, IsBuilder, node-IsAdded}

module _ (m : Geometry) (sprint : Value m.Float → Text) where
  add_edge-IsBuilder :
      (e : Edge m.Float) (b : Builder m sprint)
      → IsBuilder m sprint b
      → e.from < length b.g.nodes
      → e.to < length b.g.nodes
      → e.from ≢ e.to
      → IsBuilder m sprint (add_edge m sprint e b)
  unfolding add_edge
  add_edge-IsBuilder e b h from to apart = record {
    known = h.known;
    keyed = h.keyed;
    indexed = h.indexed;
    ends = λ i d f. elim (get_elem?-snoc b.g.edges e d i f) [
      | inl old ↦ h.ends i d old
      | inr new ↦
          subst (λ x. (x.from < length b.g.nodes) × (x.to < length b.g.nodes) × (x.from ≢ x.to)) new
            (from, to, apart)
    ];
  }

  add_both-IsBuilder :
      (oneway : Bool) (e : Edge m.Float) (b : Builder m sprint)
      → IsBuilder m sprint b
      → e.from < length b.g.nodes
      → e.to < length b.g.nodes
      → (e.from == e.to) ≡ false
      → IsBuilder m sprint (add_both m sprint oneway e b)
  unfolding add_both add_edge
  add_both-IsBuilder oneway e b h from to differ =
      let apart : e.from ≢ e.to = λ same. cc ((==_iff e.from e.to).1 same, differ) in
      let there = add_edge-IsBuilder e b h from to apart in
      elim (Bool-cases oneway) [
        | inl one ↦ rw one there
        | inr two ↦ rw two (
            add_edge-IsBuilder (record e { from = e.to; to = e.from }) (add_edge m sprint e b) there
              to from (λ same. apart (sym same)))
      ]

  add_segment-IsBuilder :
      (p q : m.Point) (level : ℤ) (speed : m.Float) (idx : ℕ) (oneway : Bool) (b : Builder m sprint)
      → IsBuilder m sprint b
      → IsBuilder m sprint (add_segment m sprint p q level speed idx oneway b)
  unfolding add_segment
  add_segment-IsBuilder p q level speed idx oneway b h =
      let one = node-IsAdded m sprint p level b h in
      let two = node-IsAdded m sprint q level (node m sprint p level b).1 one.whole in
      elim (Bool-cases
        ((node m sprint p level b).0 == (node m sprint q level (node m sprint p level b).1).0)) [
          | inl same ↦ rw same two.whole
          | inr differ ↦ rw differ (
              add_both-IsBuilder oneway _ _ two.whole (omega (arith, one.inside, two.grown))
                two.inside differ)
        ]

  add_connector-IsBuilder :
      (p : m.Point) (ps : List m.Point) (from to : ℤ) (speed dur : m.Float) (idx : ℕ)
      (oneway : Bool) (b : Builder m sprint)
      → IsBuilder m sprint b
      → IsBuilder m sprint (add_connector m sprint p ps from to speed dur idx oneway b)
  unfolding add_connector
  add_connector-IsBuilder p ps from to speed dur idx oneway b h =
      let q = last_point m sprint p ps in
      let one = node-IsAdded m sprint p from b h in
      let two = node-IsAdded m sprint q to (node m sprint p from b).1 one.whole in
      elim (Bool-cases
        ((node m sprint p from b).0 == (node m sprint q to (node m sprint p from b).1).0)) [
          | inl same ↦ rw same two.whole
          | inr differ ↦ rw differ (
              add_both-IsBuilder oneway _ _ two.whole (omega (arith, one.inside, two.grown))
                two.inside differ)
        ]

  add_segments-IsBuilder :
      (p : m.Point) (ps : List m.Point) (level : ℤ) (speed : m.Float) (idx : ℕ) (oneway : Bool)
      (b : Builder m sprint)
      → IsBuilder m sprint b
      → IsBuilder m sprint (add_segments m sprint p ps level speed idx oneway b)
  unfolding add_segments
  add_segments-IsBuilder p [] level speed idx oneway b h = h
  add_segments-IsBuilder p (q ∷ qs) level speed idx oneway b h =
      add_segments-IsBuilder q qs level speed idx oneway _
        (add_segment-IsBuilder p q level speed idx oneway b h)

  add_connectors-IsBuilder :
      (ls : List (List m.Point)) (from to : ℤ) (speed dur : m.Float) (idx : ℕ) (oneway : Bool)
      (b : Builder m sprint)
      → IsBuilder m sprint b
      → IsBuilder m sprint (add_connectors m sprint ls from to speed dur idx oneway b)
  unfolding add_connectors
  add_connectors-IsBuilder [] from to speed dur idx oneway b h = h
  add_connectors-IsBuilder ([] ∷ ls) from to speed dur idx oneway b h =
      add_connectors-IsBuilder ls from to speed dur idx oneway b h
  add_connectors-IsBuilder ((p ∷ []) ∷ ls) from to speed dur idx oneway b h =
      add_connectors-IsBuilder ls from to speed dur idx oneway b h
  add_connectors-IsBuilder ((p ∷ q ∷ qs) ∷ ls) from to speed dur idx oneway b h =
      add_connectors-IsBuilder ls from to speed dur idx oneway _
        (add_connector-IsBuilder p (q ∷ qs) from to speed dur idx oneway b h)

  add_lines-IsBuilder :
      (ls : List (List m.Point)) (level : ℤ) (speed : m.Float) (idx : ℕ) (oneway : Bool)
      (b : Builder m sprint)
      → IsBuilder m sprint b
      → IsBuilder m sprint (add_lines m sprint ls level speed idx oneway b)
  unfolding add_lines
  add_lines-IsBuilder [] level speed idx oneway b h = h
  add_lines-IsBuilder ([] ∷ ls) level speed idx oneway b h =
      add_lines-IsBuilder ls level speed idx oneway b h
  add_lines-IsBuilder ((p ∷ ps) ∷ ls) level speed idx oneway b h =
      add_lines-IsBuilder ls level speed idx oneway _
        (add_segments-IsBuilder p ps level speed idx oneway b h)

  add_feature-IsBuilder :
      (o : BuildOptions m.Float) (f : Feature m.Point m.Float) (ls : List (List m.Point))
      (b : Builder m sprint)
      → IsBuilder m sprint b
      → IsBuilder m sprint (add_feature m sprint o f ls b)
  unfolding add_feature add_ref
  add_feature-IsBuilder o f ls b h =
      let named : IsBuilder m sprint (add_ref m sprint o f b) = record {
        ends = h.ends;
        known = h.known;
        keyed = h.keyed;
        indexed = h.indexed;
      } in
      elim (Option-cases (prop_float m sprint f.properties o.level_from_field)) [
        | inl from ↦ rw (from, add_feature) (add_lines-IsBuilder ls _ _ _ _ _ named)
        | inr (x, from) ↦ elim (Option-cases (prop_float m sprint f.properties o.level_to_field)) [
          | inl to ↦ rw (from, to, add_feature) (add_lines-IsBuilder ls _ _ _ _ _ named)
          | inr (y, to) ↦
              rw (from, to, add_feature) (add_connectors-IsBuilder ls _ _ _ _ _ _ _ named)
        ]
      ]

  take_feature-IsBuilder :
      (o : BuildOptions m.Float) (f : Option (Feature m.Point m.Float)) (b : Builder m sprint)
      → IsBuilder m sprint b
      → IsBuilder m sprint (take_feature m sprint o f b)
  unfolding take_feature
  take_feature-IsBuilder o none b h = h
  take_feature-IsBuilder o (some f) b h = elim (Option-cases f.geometry) [
    | inl e ↦ rw e h
    | inr (Shape.line_string ln, e) ↦ rw e (add_feature-IsBuilder o f (ln ∷ []) b h)
    | inr (Shape.multi_line_string ls, e) ↦ rw e (add_feature-IsBuilder o f ls b h)
    | inr (Shape.other, e) ↦ rw e h
  ]

  pub take_features-IsBuilder :
      (done : ℕ → Bool) (o : BuildOptions m.Float) (i : ℕ)
      (fs : List (Option (Feature m.Point m.Float))) (b c : Builder m sprint)
      → IsBuilder m sprint b
      → take_features m sprint done o i fs b ≡ ok c
      → IsBuilder m sprint c
  unfolding take_features
  take_features-IsBuilder done o i [] b c h e =
      let same : b ≡ c = cc e in subst (IsBuilder m sprint) same h
  take_features-IsBuilder done o i (f ∷ fs) b c h e = elim (Bool-cases (i % 1024 == 0 && done i)) [
    | inl off ↦
        let stopped : Result.error BuildError.cancelled ≡ Result.ok c = rw off at e in
        absurd (cc stopped)
    | inr on ↦
        take_features-IsBuilder done o (suc i) fs (take_feature m sprint o f b) c
          (take_feature-IsBuilder o f b h) (rw on at e)
  ]
