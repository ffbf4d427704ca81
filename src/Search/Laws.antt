-- ===== src/Search/Laws.antt =====
-- Dijkstra's search returns, and its costs are those of the cheapest walks.
use geoverse_map_server.Base.{
  ℕ, suc, ◌+◌, ◌%◌, ◌<◌, ◌≡◌, ◌⊎◌, inl, inr, refl, ◌∙◌, ap, true, false, List, [], ◌∷◌, ◌++◌, map,
  length, get_or, subst, none, some, Bool, arith, reverse,
}
use geoverse_map_server.Base.Lists.{get_or-map, length-map}
use geoverse_map_server.Costs.{Costs, Le, le_refl}
use geoverse_map_server.Graph.{Edge, Graph, IsGraph}
use geoverse_map_server.Search.{
  Seed, Heap, Search, Request, Outcome, at, beyond, is_target, degrees, dijkstra_seeded,
  cancel_check_interval, trace, path_to,
}
use geoverse_map_server.Search.Walks.{Walk, Chain, Chain-Walk}
use geoverse_map_server.Search.Plant.{Planted, plant_all}
use geoverse_map_server.Search.Loop.{Good, State, loop-Good}
use geoverse_map_server.Search.Work.{remaining-blank}
use mathlib.Core.List.{Memᴰ, append_assoc, append-nil}
use mathlib.Core.Logic.{⊎_elim}
use mathlib.Core.List.Memᴰ

pub Outcome-cases :
    {k : Costs} (o : Outcome k)
    → ((s : Search k) × (o ≡ Outcome.found s))
      ⊎ ((o ≡ Outcome.cancelled) ⊎ ((o ≡ Outcome.panicked) ⊎ (o ≡ Outcome.out_of_fuel)))
Outcome-cases (Outcome.found s) = inl (s, refl)
Outcome-cases Outcome.cancelled = inr (inl refl)
Outcome-cases Outcome.panicked = inr (inr (inl refl))
Outcome-cases Outcome.out_of_fuel = inr (inr (inr refl))

module _ (k : Costs) (heap : Heap k) {Point Float : Type 0} (g : Graph Point Float) (wf : IsGraph g)
    (price : Edge Float → k.Cost) (seeds : List (Seed k)) where
  -- The state after the seeds is one between two pops.
  Planted-State :
      (r : Request k) (s : Search k)
      → Planted k heap g.nodes seeds [] s
      → State k heap g wf price r seeds (map (λ _. false) g.nodes) k.origin 0 s
  Planted-State r s p =
      let blank : (v : ℕ) → get_or (map (λ _. false) g.nodes) v false ≡ false =
        get_or-map g.nodes false in
      (
        record {
          costs = p.costs;
          prevs = ap length p.prevs ∙ length-map (λ _. none) g.nodes;
          heaped = p.heaped;
          inside = p.inside;
          above = p.above;
          ahead = λ x m. k.le_origin x.prio;
          sown = λ x m. ⊎_elim (λ w. absurd (Memᴰ.not-nil w)) (λ h. h) (p.sown x m);
          settled = λ v m. absurd (cc (m, blank v));
          closed = λ v i e m l. absurd (cc (m, blank v));
          owed = λ v i e l. elim (p.waiting v) [
            | inr (q, m) ↦ inr (inl q)
            | inl end ↦ inl (
                inr (
                  k.le_trans _ _ _ (k.le_infinite (at k s e.to))
                    (subst (λ c. Le k c (k.add (at k s v) (price e))) end (k.le_add _ _))))
          ];
          traced = λ v. elim (p.waiting v) [
            | inl end ↦ inl end
            | inr (q, m) ↦ inr (
              [],
              Chain.root (record { node = v; cost = at k s v }) m
                  (ap (λ l. get_or l v none) p.prevs ∙ get_or-map g.nodes none v),
            )
          ];
        },
        length-map (λ _. false) g.nodes,
      )

  dijkstra_seeded-Good :
      (r : Request k)
      → ((x : Seed k) → Memᴰ x seeds → x.node < length g.nodes)
      → Good k heap g wf price r seeds (dijkstra_seeded k heap g price seeds r)
  unfolding dijkstra_seeded
  dijkstra_seeded-Good r inside =
      let (s, planted, p) = plant_all k heap g.nodes seeds inside in
      rw (planted, Good, dijkstra_seeded)
        (loop-Good k heap g wf price r seeds (suc (length seeds + degrees g.adj)) 0 s
          (Planted-State r s p) (omega (arith, p.short, remaining-blank g.adj g.nodes)))

  -- Along a chain the first loop of `PathTo` collects its edges.
  Chain-trace :
      (s : Search k) {seen : List Bool} {v : ℕ} {d : k.Cost} {p : List ℕ} (rev : List ℕ)
      → Chain k g price seeds s.prev_edge seen v d p
      → trace k g.edges s (suc (length p)) v rev ≡ some (rev ++ p)
  unfolding trace
  Chain-trace s rev (Chain.root x m end) = rw (end, append-nil rev, trace) refl
  Chain-trace s rev (Chain.link {u} {i} {e} {p} c m l kept) =
      let (e', at_i, from, room) = wf.leads u i l.0 in
      let start : e.from ≡ u = cc (at_i, l.1, from) in
      rw (kept, l.1, start, trace)
        (Chain-trace s (rev ++ i ∷ []) c ∙ ap some (append_assoc rev (i ∷ []) p))

  -- In a graph whose edges lead to its nodes, from seeds that are nodes, Dijkstra's search returns a
  -- result, unless it is cancelled, by a context that is done at a number of pops divisible by 1024:
  -- no number is out of range, and a turn for each seed and each edge and one more are enough.
  pub dijkstra_seeded-total :
      (r : Request k)
      → ((x : Seed k) → Memᴰ x seeds → x.node < length g.nodes)
      → ((t : Search k) × (dijkstra_seeded k heap g price seeds r ≡ Outcome.found t))
        ⊎ ((dijkstra_seeded k heap g price seeds r ≡ Outcome.cancelled)
            × ((n : ℕ) × (n % cancel_check_interval ≡ 0) × (r.done n ≡ true)))
  dijkstra_seeded-total r inside =
      let good = dijkstra_seeded-Good r inside in
      elim (Outcome-cases (dijkstra_seeded k heap g price seeds r)) [
        | inl (t, e) ↦ inl (t, e)
        | inr (inl e) ↦ inr (e, subst (Good k heap g wf price r seeds) e good)
        | inr (inr (inl e)) ↦ absurd (subst (Good k heap g wf price r seeds) e good)
        | inr (inr (inr e)) ↦ absurd (subst (Good k heap g wf price r seeds) e good)
      ]

  -- In the result of Dijkstra's search, in a graph whose edges lead to its nodes and from seeds that
  -- are nodes, the cost of the target, or of every node when there is no target, is at most the cost
  -- of each walk to it from a seed that the cutoff admits.
  pub dijkstra_seeded-least :
      (r : Request k) (t : Search k)
      → ((x : Seed k) → Memᴰ x seeds → x.node < length g.nodes)
      → dijkstra_seeded k heap g price seeds r ≡ Outcome.found t
      → (v : ℕ) (d : k.Cost) (p : List ℕ) → Walk k g price seeds v d p
      → beyond k r.cutoff d ≡ false
      → (is_target r.target v ≡ true) ⊎ ((w : ℕ) → is_target r.target w ≡ false)
      → Le k (at k t v) d
  dijkstra_seeded-least r t inside ends =
      (subst (Good k heap g wf price r seeds) ends (dijkstra_seeded-Good r inside)).0

  -- In the result of Dijkstra's search, in a graph whose edges lead to its nodes and from seeds that
  -- are nodes, `PathTo` ends for each node that has a finite cost, and returns the edges of a walk
  -- from a seed to that node which costs exactly that cost.
  pub path_to-Walk :
      (r : Request k) (t : Search k)
      → ((x : Seed k) → Memᴰ x seeds → x.node < length g.nodes)
      → dijkstra_seeded k heap g price seeds r ≡ Outcome.found t
      → (v : ℕ) → k.lt (at k t v) k.infinite ≡ true
      → (n : ℕ) × (p : List ℕ) × (path_to k g.edges t n v ≡ some (reverse p))
        × Walk k g price seeds v (at k t v) p
  unfolding path_to
  path_to-Walk r t inside ends v finite =
      let (least, (q, seen, front, u, state)) =
        subst (Good k heap g wf price r seeds) ends (dijkstra_seeded-Good r inside) in
      elim (state.0.traced v) [
        | inl end ↦
            absurd (cc (subst (λ c. k.lt c k.infinite ≡ true) end finite, le_refl k k.infinite))
        | inr (p, chain) ↦
            let traced = Chain-trace t [] chain in
            (suc (length p), p, rw (finite, traced) refl, Chain-Walk k g price chain)
      ]
