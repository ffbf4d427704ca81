-- ===== src/Network/Laws.antt =====
-- What the manager keeps of a build.
use geoverse_map_server.Base.{
  ◌≡◌, ◌≢◌, ap, inl, inr, refl, ◌∙◌, Bool, true, false, none, some, arith, Option-cases,
}
use geoverse_map_server.Base.Dict.{lookup, lookup-insert}
use geoverse_map_server.Base.Results.{Result, ok, error}
use geoverse_map_server.Base.Text.{Text, text_eq}
use geoverse_map_server.Network.{NetworkConfig, Builder, Manager, build, keep, graph_new, graph}

ok-injective : {A E : Type 0} {x y : A} → ◌≡◌ {A = Result A E} (ok x) (ok y) → x ≡ y
ok-injective h = cc

error-injective : {A E : Type 0} {x y : E} → ◌≡◌ {A = Result A E} (error x) (error y) → x ≡ y
error-injective h = cc

ok-ne : {A E : Type 0} {x : A} {e : E} → ◌≢◌ {A = Result A E} (error e) (ok x)
ok-ne h = ground arith

error-ne : {A E : Type 0} {x : A} {e : E} → ◌≢◌ {A = Result A E} (ok x) (error e)
error-ne h = ground arith

module _ (b : Builder) where
  -- A name that has a graph, or a failure and no graph, is settled.
  graph-built :
      (done : Bool) (name : Text) (m : Manager b) {g : b.Graph}
      → lookup text_eq name m.graphs ≡ some g
      → graph b done name m ≡ (m, ok g)
  unfolding graph
  graph-built done name m there = rw (there, graph)

  graph-failed :
      (done : Bool) (name : Text) (m : Manager b) {e : b.Error}
      → lookup text_eq name m.graphs ≡ none
      → lookup text_eq name m.errs ≡ some e
      → graph b done name m ≡ (m, error e)
  unfolding graph
  graph-failed done name m missing there = rw (missing, there, graph)

  keep-graphs :
      (done : Bool) (name : Text) (g : b.Graph) (m : Manager b)
      → lookup text_eq name (keep b done name (ok g) m).graphs ≡ some g
  unfolding keep
  keep-graphs done name g m = ground (arith, lookup-insert text_eq name name g m.graphs)

  keep-errs :
      (name : Text) (e : b.Error) (m : Manager b)
      → (lookup text_eq name (keep b false name (error e) m).errs ≡ some e)
        × ((keep b false name (error e) m).graphs ≡ m.graphs)
  unfolding keep
  keep-errs name e m = (ground (arith, lookup-insert text_eq name name e m.errs), refl)

  keep-done : (name : Text) (e : b.Error) (m : Manager b) → keep b true name (error e) m ≡ m
  unfolding keep
  keep-done name e m = refl

  graph-unknown :
      (done : Bool) (name : Text) (m : Manager b)
      → lookup text_eq name m.graphs ≡ none
      → lookup text_eq name m.errs ≡ none
      → lookup text_eq name m.configs ≡ none
      → graph b done name m ≡ (m, error (b.unknown_network name m.order))
  unfolding graph graph_new
  graph-unknown done name m no_graph no_err missing =
      rw (no_graph, graph, no_err, graph_new, missing)

  graph-first :
      (done : Bool) (name : Text) (m : Manager b) {cfg : NetworkConfig b.Speed}
      → lookup text_eq name m.graphs ≡ none
      → lookup text_eq name m.errs ≡ none
      → lookup text_eq name m.configs ≡ some cfg
      → graph b done name m ≡ (keep b done name (build b cfg) m, build b cfg)
  unfolding graph graph_new
  graph-first done name m no_graph no_err there = rw (no_graph, graph, no_err, graph_new, there)

  -- After a call that gives a graph, the manager has it.
  graph-lookup :
      (done : Bool) (name : Text) (m : Manager b) (g : b.Graph)
      → (graph b done name m).1 ≡ ok g
      → lookup text_eq name ((graph b done name m).0).graphs ≡ some g
  graph-lookup done name m g h = elim (Option-cases (lookup text_eq name m.graphs)) [
    | inr (g', there) ↦
        let now = graph-built done name m there in
        let same : g' ≡ g = ok-injective (rw now at h) in
        rw now (there ∙ ap (λ (x : b.Graph). some x) same)
    | inl no_graph ↦ elim (Option-cases (lookup text_eq name m.errs)) [
      | inr (e, there) ↦ absurd (ok-ne (rw (graph-failed done name m no_graph there) at h))
      | inl no_err ↦ elim (Option-cases (lookup text_eq name m.configs)) [
        | inl missing ↦ absurd (ok-ne (rw (graph-unknown done name m no_graph no_err missing) at h))
        | inr (cfg, there) ↦
            let now = graph-first done name m no_graph no_err there in
            let built : build b cfg ≡ ok g = rw now at h in
            rw (now, built) (keep-graphs done name g m)
      ]
    ]
  ]

  -- A graph that a call gives is what every later call for the name gives, from the same manager,
  -- and so it is built once.
  pub graph-ok :
      (done later : Bool) (name : Text) (m : Manager b) (g : b.Graph)
      → (graph b done name m).1 ≡ ok g
      → graph b later name (graph b done name m).0 ≡ ((graph b done name m).0, ok g)
  graph-ok done later name m g h =
      graph-built later name (graph b done name m).0 (graph-lookup done name m g h)

  -- A failure of a caller whose context is done changes nothing, so the next call tries again.
  pub graph-done :
      (name : Text) (m : Manager b) (e : b.Error)
      → (graph b true name m).1 ≡ error e
      → (graph b true name m).0 ≡ m
  graph-done name m e h = elim (Option-cases (lookup text_eq name m.graphs)) [
    | inr (g, there) ↦ rw (graph-built true name m there)
    | inl no_graph ↦ elim (Option-cases (lookup text_eq name m.errs)) [
      | inr (e', there) ↦ rw (graph-failed true name m no_graph there)
      | inl no_err ↦ elim (Option-cases (lookup text_eq name m.configs)) [
        | inl missing ↦ rw (graph-unknown true name m no_graph no_err missing)
        | inr (cfg, there) ↦
            let now = graph-first true name m no_graph no_err there in
            let failed : build b cfg ≡ error e = rw now at h in
            rw (now, failed) (keep-done name e m)
      ]
    ]
  ]

  -- Any other failure is kept: every later call for the name gives it again, from the same manager.
  pub graph-error :
      (later : Bool) (name : Text) (m : Manager b) (e : b.Error)
      → (graph b false name m).1 ≡ error e
      → graph b later name (graph b false name m).0 ≡ ((graph b false name m).0, error e)
  graph-error later name m e h = elim (Option-cases (lookup text_eq name m.graphs)) [
    | inr (g, there) ↦ absurd (error-ne (rw (graph-built false name m there) at h))
    | inl no_graph ↦ elim (Option-cases (lookup text_eq name m.errs)) [
      | inr (e', there) ↦
          let now = graph-failed false name m no_graph there in
          let same : e' ≡ e = error-injective (rw now at h) in
          rw now
            (graph-failed later name m no_graph there ∙ ap (λ (x : b.Error). (m, error x)) same)
      | inl no_err ↦ elim (Option-cases (lookup text_eq name m.configs)) [
        | inl missing ↦
            let now = graph-unknown false name m no_graph no_err missing in
            let same = rw now at h in
            rw now (graph-unknown later name m no_graph no_err missing ∙ ap (λ x. (m, x)) same)
        | inr (cfg, there) ↦
            let now = graph-first false name m no_graph no_err there in
            let failed : build b cfg ≡ error e = rw now at h in
            let kept = keep-errs name e m in
            rw (now, failed)
              (graph-failed later name (keep b false name (error e) m) (rw (kept.1) no_graph)
                (kept.0))
      ]
    ]
  ]
