-- ===== src/Search/Scan.antt =====
-- The loop over the edges of a node that has been settled.
use geoverse_map_server.Base.{
  ℕ, ◌+◌, ◌<◌, ◌≤◌, ◌≡◌, inl, inr, refl, sym, List, [], ◌∷◌, length, get_or, subst, some, Bool,
  Bool-cases, arith,
}
use geoverse_map_server.Base.Lists.{Reordered-length}
use geoverse_map_server.Base.Tests.{lt→ltb}
use geoverse_map_server.Costs.{Costs}
use geoverse_map_server.Graph.{Edge, Graph, IsGraph}
use geoverse_map_server.Search.{Seed, Heap, Search, at, relax, scan}
use geoverse_map_server.Search.Walks.{Leaves}
use geoverse_map_server.Search.Invariant.{Inv, IsOpen, idle, improved, still_open}
use mathlib.Core.List.{Memᴰ}

module _ (k : Costs) (heap : Heap k) {Point Float : Type 0} (g : Graph Point Float) (wf : IsGraph g)
    (price : Edge Float → k.Cost) (skip : k.Cost → Bool) (seeds : List (Seed k)) where
  -- The state `t` is one between two edges of `u`, at most `n` items longer than `s`.
  abbrev Reached : List Bool → k.Cost → ℕ → List ℕ → ℕ → Search k → Search k → Type 0
  Reached seen front u rest n s t =
      Inv k heap g price skip seeds seen front u rest t
      × IsOpen k heap g price skip seeds seen front u t
      × (length t.queue ≤ n + length s.queue)

  relax-Reached :
      {seen : List Bool} {front : k.Cost} {u : ℕ} (i : ℕ) (rest : List ℕ) (e : Edge Float)
      (s : Search k)
      → Inv k heap g price skip seeds seen front u (i ∷ rest) s
      → IsOpen k heap g price skip seeds seen front u s
      → Leaves k g price u i e
      → e.to < length g.nodes
      → Reached seen front u rest 1 s (relax k heap price skip (λ v c. c) u i e s)
  unfolding relax
  relax-Reached {u} i rest e s inv here leaves room =
      let c = k.add (at k s u) (price e) in
      elim (Bool-cases (skip c)) [
        | inl skipped ↦ rw skipped (
          idle k heap g price skip seeds i rest e s inv here leaves room (inl skipped),
          here,
          omega arith,
        )
        | inr on ↦ elim (Bool-cases (k.lt c (at k s e.to))) [
          | inl less ↦
              rw (on, less)
                (
                  improved k heap g price skip seeds i rest e s inv here leaves room c refl less,
                  still_open k heap g price skip seeds i rest e s inv here leaves room c refl less,
                  omega (arith, Reordered-length (heap.push-Reordered _ s.queue)),
                )
          | inr more ↦
              rw (on, more)
                (
                  idle k heap g price skip seeds i rest e s inv here leaves room (inr more),
                  here,
                  omega arith,
                )
        ]
      ]

  pub scan-Reached :
      {seen : List Bool} {front : k.Cost} {u : ℕ} (rest : List ℕ) (s : Search k)
      → ((i : ℕ) → Memᴰ i rest → Memᴰ i (get_or g.adj u []))
      → Inv k heap g price skip seeds seen front u rest s
      → IsOpen k heap g price skip seeds seen front u s
      → (t : Search k) × (scan k heap price skip (λ v c. c) g.edges u rest s ≡ some t)
        × Reached seen front u [] (length rest) s t
  unfolding scan
  scan-Reached [] s part inv here = (s, refl, (inv, here, omega arith))
  scan-Reached {u} (i ∷ rest) s part inv here =
      let (e, at_i, leaves, room) = wf.leads u i (part i (Memᴰ.head refl)) in
      let (inv', here', grown) =
        relax-Reached i rest e s inv here (part i (Memᴰ.head refl), at_i) room in
      let (t, ends, (inv'', here'', total)) =
        scan-Reached rest (relax k heap price skip (λ v c. c) u i e s) (λ j m. part j (Memᴰ.tail m))
          inv' here' in
      (
        t,
        rw (at_i, lt→ltb e.to (length s.cost) (subst (λ n. e.to < n) (sym inv.costs) room), scan)
            ends,
        (inv'', here'', omega (arith, grown, total)),
      )
