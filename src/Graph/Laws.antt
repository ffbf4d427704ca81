-- ===== src/Graph/Laws.antt =====
-- The graph that is built: its edges join two of its nodes, its lists of edges are exact, and a node
-- stands for a rounded point on a level.
use geoverse_map_server.Base.{
  ℕ, zero, suc, ◌+◌, ◌<◌, ◌≡◌, ◌≢◌, ◌↔◌, ◌⊎◌, inl, inr, refl, sym, ◌∙◌, ap, List, [], ◌∷◌, ◌++◌,
  map, length, get_or, get_elem?, set, subst, Option, some, Bool, ◌==◌, Bool-cases, arith,
}
use geoverse_map_server.Base.Ints.{ℤ}
use geoverse_map_server.Base.Lists.{length-set, get_or-map, length-map, put_iff}
use geoverse_map_server.Base.Results.{Result, ok, Result-cases}
use geoverse_map_server.Base.Text.{Text}
use geoverse_map_server.Graph.{
  Edge, Graph, Node, IsGraph, Geometry, Value, Feature, BuildOptions, find_key,
}
use geoverse_map_server.Graph.Build.{
  add_adj, build_indexes, Builder, node_key, node, take_features, blank, finish, fill, build,
}
use geoverse_map_server.Graph.Nodes.{IsBuilder, node-IsAdded}
use geoverse_map_server.Graph.Edges.{take_features-IsBuilder}
use mathlib.Core.List.{Memᴰ}
use mathlib.Core.List.Memᴰ

module _ {Float : Type 0} where
  length-add_adj :
      (i : ℕ) (es : List (Edge Float)) (adj : List (List ℕ))
      → length (add_adj i es adj) ≡ length adj
  unfolding add_adj
  length-add_adj i [] adj = refl
  length-add_adj i (x ∷ es) adj = length-add_adj (suc i) es _ ∙ length-set adj x.from _

  -- The numbers in the list of a node are those of the edges that leave it.
  abbrev Numbers : ℕ → List (Edge Float) → ℕ → ℕ → Type 0
  Numbers i es u j =
      (n : ℕ) × (e : Edge Float) × (get_elem? es n ≡ some e) × (e.from ≡ u) × (j ≡ i + n)

  add_adj_iff :
      (i : ℕ) (es : List (Edge Float)) (adj : List (List ℕ)) (u j : ℕ)
      → ((n : ℕ) (e : Edge Float) → get_elem? es n ≡ some e → e.from < length adj)
      → Memᴰ j (get_or (add_adj i es adj) u []) ↔ (Memᴰ j (get_or adj u []) ⊎ Numbers i es u j)
  unfolding add_adj
  add_adj_iff i [] adj u j inside =
      (inl, λ h. elim h [ inl m ↦ m | inr (n, e, at, _, _) ↦ absurd (cc at) ])
  add_adj_iff i (x ∷ es) adj u j inside =
      let adj' = set adj x.from (get_or adj x.from [] ++ i ∷ []) in
      let size : length adj' ≡ length adj = length-set adj x.from _ in
      let put = put_iff adj x.from i u j (inside zero x refl) in
      let rest =
        add_adj_iff (suc i) es adj' u j (λ n e at. omega (arith, inside (suc n) e at, size)) in
      (
        λ m. elim (rest.0 m) [
          | inl here ↦ elim (put.0 here) [
            | inl old ↦ inl old
            | inr (same, number) ↦ inr (zero, x, refl, same, omega (arith, number))
          ]
          | inr (n, e, at, same, number) ↦ inr (suc n, e, at, same, omega (arith, number))
        ],
        λ h. rest.1 (elim h [
          | inl old ↦ inl (put.1 (inl old))
          | inr (zero, e, at, same, number) ↦
              let first : x ≡ e = cc at in
              inl (put.1 (inr (ap (λ y. y.from) first ∙ same, omega (arith, number))))
          | inr (suc n, e, at, same, number) ↦ inr (n, e, at, same, omega (arith, number))
        ]),
      )

-- Each edge joins two different nodes, each node has a list of edges, and the list of a node holds
-- the numbers of exactly the edges that leave it.
abbrev pub IsExact : {Point Float : Type 0} → Graph Point Float → Type 0
IsExact {Float} g =
    ((i : ℕ) (e : Edge Float)
      → get_elem? g.edges i ≡ some e
      → (e.from < length g.nodes) × (e.to < length g.nodes) × (e.from ≢ e.to))
    × (length g.adj ≡ length g.nodes)
    × ((u i : ℕ)
        → Memᴰ i (get_or g.adj u [])
          ↔ ((e : Edge Float) × (get_elem? g.edges i ≡ some e) × (e.from ≡ u)))

module _ (m : Geometry) (sprint : Value m.Float → Text) where
  build-ok :
      (done : ℕ → Bool) (feats : List (Option (Feature m.Point m.Float))) (o : BuildOptions m.Float)
      (g : Graph m.Point m.Float)
      → build m sprint done feats o ≡ ok g
      → (b : Builder m sprint) × IsBuilder m sprint b × (g ≡ build_indexes b.g)
  unfolding build finish
  build-ok done feats o g e =
      elim (Result-cases (take_features m sprint done (fill m sprint o) 0 feats (blank m sprint))) [
        | inr (x, stopped) ↦ absurd (cc (rw (stopped, build) at e))
        | inl (b, ends) ↦
            let e' : finish m sprint b ≡ ok g = rw (ends, build) at e in
            elim (Bool-cases (length b.g.edges == 0)) [
              | inl none_there ↦ absurd (cc (rw none_there at e'))
              | inr some_there ↦
                  let built : Result.ok (build_indexes b.g) ≡ Result.ok g = rw some_there at e' in
                  (
                    b,
                    take_features-IsBuilder m sprint done (fill m sprint o) 0 feats (blank m sprint)
                        b
                        (record {
                          ends = λ i d at. absurd (cc at);
                          known = λ k i f. absurd (cc f);
                          keyed = λ j k i f f'. absurd (cc f);
                          indexed = λ i a at. absurd (cc at);
                        })
                        ends,
                    cc built,
                  )
            ]
      ]

  build_indexes-IsExact :
      (b : Builder m sprint) → IsBuilder m sprint b → IsExact (build_indexes b.g)
  unfolding build_indexes
  build_indexes-IsExact b h =
      let empty = map (λ _. []) b.g.nodes in
      let size : length empty ≡ length b.g.nodes = length-map (λ _. []) b.g.nodes in
      let adj = λ (u i : ℕ).
        add_adj_iff 0 b.g.edges empty u i (λ n d at. omega (arith, (h.ends n d at).0, size)) in
      (
        h.ends,
        length-add_adj 0 b.g.edges empty ∙ size,
        λ u i. (
          λ w. elim ((adj u i).0 w) [
            | inl old ↦ absurd (Memᴰ.not-nil (subst (Memᴰ i) (get_or-map b.g.nodes [] u) old))
            | inr (n, d, at, from, number) ↦
                let here : i ≡ n = omega (arith, number) in
                (d, ap (λ y. get_elem? b.g.edges y) here ∙ at, from)
          ],
          λ (d, at, from). (adj u i).1 (inr (i, d, at, from, omega arith)),
        ),
      )

  -- In a graph that `Build` returns, each edge joins two different nodes, each node has a list of
  -- edges, and the list of a node holds the numbers of exactly the edges that leave it.
  pub build-IsExact :
      (done : ℕ → Bool) (feats : List (Option (Feature m.Point m.Float))) (o : BuildOptions m.Float)
      (g : Graph m.Point m.Float)
      → build m sprint done feats o ≡ ok g
      → IsExact g
  build-IsExact done feats o g e =
      let (b, h, same) = build-ok done feats o g e in
      subst IsExact (sym same) (build_indexes-IsExact b h)

  -- So the search never meets a number out of range in it.
  pub build-IsGraph :
      (done : ℕ → Bool) (feats : List (Option (Feature m.Point m.Float))) (o : BuildOptions m.Float)
      (g : Graph m.Point m.Float)
      → build m sprint done feats o ≡ ok g
      → IsGraph g
  build-IsGraph done feats o g e =
      let (ends, size, lists) = build-IsExact done feats o g e in
      record {
        size = size;
        leads = λ u i w. let (d, at, from) = (lists u i).0 w in (d, at, from, (ends i d at).1);
      }

  -- In a graph that `Build` returns, no two nodes stand for the same rounded coordinates on the same
  -- level, in whatever features their points are.
  pub build_unique :
      (done : ℕ → Bool) (feats : List (Option (Feature m.Point m.Float))) (o : BuildOptions m.Float)
      (g : Graph m.Point m.Float)
      → build m sprint done feats o ≡ ok g
      → (i j : ℕ) (a b : Node m.Point) → get_elem? g.nodes i ≡ some a
      → get_elem? g.nodes j ≡ some b
      → node_key m sprint a.pt a.level ≡ node_key m sprint b.pt b.level
      → i ≡ j
  unfolding build_indexes
  build_unique done feats o g e i j a b at_i at_j same =
      let (c, h, is) = build-ok done feats o g e in
      let one = h.indexed i a (sym (ap (λ x. get_elem? x.nodes i) is) ∙ at_i) in
      let two = h.indexed j b (sym (ap (λ x. get_elem? x.nodes j) is) ∙ at_j) in
      let both : some i ≡ some j = sym one ∙ ap (λ k. find_key k c.index) same ∙ two in cc both

  -- In a builder that is well formed, two points get the same node if and only if their rounded
  -- coordinates and their levels are the same.
  pub node-joins :
      (p q : m.Point) (level above : ℤ) (b : Builder m sprint)
      → IsBuilder m sprint b
      → ((node m sprint p level b).0 ≡ (node m sprint q above (node m sprint p level b).1).0)
        ↔ (node_key m sprint p level ≡ node_key m sprint q above)
  node-joins p q level above b h =
      let one = node-IsAdded m sprint p level b h in
      let two = node-IsAdded m sprint q above (node m sprint p level b).1 one.whole in
      let was = two.kept _ _ one.found in
      (
        λ same. two.whole.keyed _ _ _ was (two.found ∙ ap some (sym same)),
        λ same. cc (
          was,
          two.found,
          ap (λ k. find_key k (node m sprint q above (node m sprint p level b).1).1.index) same,
        ),
      )
