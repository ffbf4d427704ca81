-- ===== src/Search/Astar/Laws.antt =====
-- The search with a heuristic returns, and its costs are those of walks.
use geoverse_map_server.Base.{
  ℕ, zero, suc, ◌+◌, ◌%◌, ◌<◌, ◌≤◌, ◌≡◌, ◌⊎◌, inl, inr, refl, sym, ◌∙◌, true, false, ◌&&◌, Bool,
  List, [], ◌∷◌, map, length, get_or, set, subst, some, Bool-cases, Option-cases, arith, ◌==◌,
}
use geoverse_map_server.Base.Lists.{
  length-set, length-map, get_or-map, Reordered-length, Reordered-Memᴰ, Reordered-sym,
  get_or-set_same, get_or-set_other,
}
use geoverse_map_server.Base.Tests.{ℕ-cases, lt→ltb, ltb→lt, ltb}
use geoverse_map_server.Costs.{Costs, Le}
use geoverse_map_server.Graph.{Edge, Graph, IsGraph}
use geoverse_map_server.Search.{
  Seed, Item, Heap, Search, Outcome, at, new_search, relax, scan, degrees, cancel_check_interval,
  Request, beyond, is_target, dijkstra,
}
use geoverse_map_server.Search.Astar.{Frontier, Move, visit_node, move, settle, astar}
use geoverse_map_server.Search.Laws.{Outcome-cases, dijkstra_seeded-least}
use geoverse_map_server.Search.Work.{remaining, remaining-set, remaining-blank}
use geoverse_map_server.Search.Lower.{at-same, at-other}
use geoverse_map_server.Search.Walks.{Leaves, Walk}
use mathlib.Core.List.{Memᴰ}
use mathlib.Core.List.Memᴰ

Move-cases :
    {k : Costs} (m : Move k)
    → ((f : Frontier k) × (m ≡ Move.go f)) ⊎ ((o : Outcome k) × (m ≡ Move.stop o))
Move-cases (Move.go f) = inl (f, refl)
Move-cases (Move.stop o) = inr (o, refl)

module _ (k : Costs) (heap : Heap k) {Point Float : Type 0} (g : Graph Point Float) (wf : IsGraph g)
    (price : Edge Float → k.Cost) (seeds : List (Seed k)) where
  -- Every cost is that of a walk, and the queue holds nodes.
  record IsWalked (s : Search k) : Type 0 where
    costs : length s.cost ≡ length g.nodes
    inside : (x : Item k) → Memᴰ x s.queue → x.node < length g.nodes
    walked :
        (v : ℕ) → (at k s v ≡ k.infinite) ⊎ ((p : List ℕ) × Walk k g price seeds v (at k s v) p)

  module _ (key : ℕ → k.Cost → k.Cost) (u i : ℕ) (e : Edge Float) (s : Search k) (inv : IsWalked s)
      (leaves : Leaves k g price u i e) (room : e.to < length g.nodes) where
    abbrev after : Search k
    after = record {
      cost = set s.cost e.to (k.add (at k s u) (price e));
      prev_edge = set s.prev_edge e.to (some i);
      queue =
          heap.push (record { node = e.to; prio = key e.to (k.add (at k s u) (price e)) }) s.queue;
    }

    lowered : k.lt (k.add (at k s u) (price e)) (at k s e.to) ≡ true → IsWalked after
    lowered less =
        let c = k.add (at k s u) (price e) in
        let fits : e.to < length s.cost = subst (λ n. e.to < n) (sym inv.costs) room in
        let same = at-same k heap s s.prev_edge e.to c fits less in
        record {
          costs = length-set s.cost e.to c ∙ inv.costs;
          inside = λ x m.
              elim (Memᴰ.cases_cons (Reordered-Memᴰ (heap.push-Reordered _ s.queue) m)) [
                | inl new ↦ subst (λ y. y.node < length g.nodes) (sym new) room
                | inr old ↦ inv.inside x old
              ];
          walked = λ v. elim (ℕ-cases v e.to) [
            | inl here ↦ elim (inv.walked u) [
              | inr (p, w) ↦ inr (
                i ∷ p,
                subst (λ x. Walk k g price seeds x (at k after x) (i ∷ p)) (sym here)
                    (subst (λ d. Walk k g price seeds e.to d (i ∷ p)) (sym same)
                      (Walk.along w leaves)),
              )
              | inl end ↦ absurd (
                  cc (
                    less,
                    k.le_trans (at k s e.to) k.infinite c (k.le_infinite (at k s e.to))
                        (subst (λ y. Le k y c) end (k.le_add _ _)),
                  ))
            ]
            | inr other ↦
                subst (λ d. (d ≡ k.infinite) ⊎ ((p : List ℕ) × Walk k g price seeds v d p))
                  (sym (at-other k heap s s.prev_edge e.to c fits less v other)) (inv.walked v)
          ];
        }

    relax-IsWalked :
        IsWalked (relax k heap price (λ c. false) key u i e s)
        × (length (relax k heap price (λ c. false) key u i e s).queue ≤ 1 + length s.queue)
    unfolding relax
    relax-IsWalked = elim (Bool-cases (k.lt (k.add (at k s u) (price e)) (at k s e.to))) [
      | inl less ↦
          rw less (lowered less, omega (arith, Reordered-length (heap.push-Reordered _ s.queue)))
      | inr more ↦ rw more (inv, omega arith)
    ]

  scan-IsWalked :
      (key : ℕ → k.Cost → k.Cost) (u : ℕ) (rest : List ℕ) (s : Search k)
      → ((i : ℕ) → Memᴰ i rest → Memᴰ i (get_or g.adj u []))
      → IsWalked s
      → (t : Search k) × (scan k heap price (λ c. false) key g.edges u rest s ≡ some t)
        × IsWalked t
        × (length t.queue ≤ length rest + length s.queue)
  unfolding scan
  scan-IsWalked key u [] s part inv = (s, refl, inv, omega arith)
  scan-IsWalked key u (i ∷ rest) s part inv =
      let (e, at_i, leaves, room) = wf.leads u i (part i (Memᴰ.head refl)) in
      let (inv', grown) = relax-IsWalked key u i e s inv (part i (Memᴰ.head refl), at_i) room in
      let (t, ends, inv'', total) =
        scan-IsWalked key u rest (relax k heap price (λ c. false) key u i e s)
          (λ j m. part j (Memᴰ.tail m)) inv' in
      (
        t,
        rw (at_i, lt→ltb e.to (length s.cost) (subst (λ n. e.to < n) (sym inv.costs) room), scan)
            ends,
        inv'',
        omega (arith, grown, total),
      )

  -- The search has a turn for each item of the queue and each edge of a node that is not settled.
  abbrev work : Frontier k → ℕ
  work f = length (f.search).queue + remaining g.adj f.settled

  abbrev IsFrontier : Frontier k → Type 0
  IsFrontier f = IsWalked f.search × (length f.settled ≡ length g.nodes)

  abbrev Good : (ℕ → Bool) → Outcome k → Type 0
  Good done (Outcome.found s) =
      (v : ℕ) → (at k s v ≡ k.infinite) ⊎ ((p : List ℕ) × Walk k g price seeds v (at k s v) p)
  Good done Outcome.cancelled = (n : ℕ) × (n % cancel_check_interval ≡ 0) × (done n ≡ true)
  Good done Outcome.panicked = ⊥
  Good done Outcome.out_of_fuel = ⊥

  abbrev Next : (ℕ → Bool) → ℕ → Move k → Type 0
  Next done n (Move.stop o) = Good done o
  Next done n (Move.go f) = IsFrontier f × (work f < n)

  module _ (h : ℕ → k.Cost) (to : ℕ) (done : ℕ → Bool) where
    visit_node-Next :
        (u : ℕ) (f : Frontier k)
        → u < length g.nodes
        → IsFrontier f
        → Next done (suc (work f)) (visit_node k heap g price h to done u f)
    unfolding visit_node
    visit_node-Next u f room (inv, size) = elim (Bool-cases (get_or f.settled u false)) [
      | inl again ↦ rw again ((inv, size), omega arith)
      | inr fresh ↦ elim (Bool-cases (u == to)) [
        | inl here ↦ rw (fresh, here) inv.walked
        | inr on ↦
            let (t, ends, inv', grown) =
              scan-IsWalked (λ v c. k.add c (h v)) u (get_or g.adj u []) f.search (λ i m. m) inv in
            let freed =
              remaining-set g.adj f.settled u (subst (λ n. u < n) (sym size) room) fresh in
            rw (fresh, on, ends)
              ((inv', length-set f.settled u true ∙ size), omega (arith, grown, freed))
      ]
    ]

    move-Next :
        (pops : ℕ) (f : Frontier k)
        → IsFrontier f
        → Next done (work f) (move k heap g price h to done pops f)
    unfolding move
    move-Next pops f (inv, size) = elim (Option-cases (heap.pop (f.search).queue)) [
      | inl end ↦ rw (end, Next, move) inv.walked
      | inr ((it, rest), popped) ↦
          let order = heap.pop-Reordered it (f.search).queue rest popped in
          let left = λ (x : Item k) (m : Memᴰ x (it ∷ rest)).
            inv.inside x (Reordered-Memᴰ (Reordered-sym order) m) in
          let later : Frontier k = record f { search = record (f.search) { queue = rest } } in
          let shorter : suc (work later) ≡ work f = omega (arith, Reordered-length order) in
          elim (Bool-cases (pops % cancel_check_interval == 0 && done pops)) [
            | inl off ↦ rw (popped, off, Next, move) (pops, ground arith, ground arith)
            | inr on ↦
                rw (popped, on, Next, move)
                  (subst (λ n. Next done n (visit_node k heap g price h to done it.node later))
                    shorter
                    (visit_node-Next it.node later (left it (Memᴰ.head refl)) (
                      record {
                        costs = inv.costs;
                        walked = inv.walked;
                        inside = λ x m. left x (Memᴰ.tail m);
                      },
                      size,
                    )))
          ]
    ]

    settle-Good :
        (fuel pops : ℕ) (f : Frontier k)
        → IsFrontier f
        → work f < fuel
        → Good done (settle k heap g price h to done fuel pops f)
    unfolding settle
    settle-Good zero pops f inv room = absurd (omega arith)
    settle-Good (suc fuel) pops f inv room =
        let next = move-Next pops f inv in
        elim (Move-cases (move k heap g price h to done pops f)) [
          | inl (t, e) ↦
              let (inv', fewer) = subst (Next done (work f)) e next in
              rw (e, settle) (settle-Good fuel (suc pops) t inv' (omega (arith, fewer)))
          | inr (o, e) ↦ rw (e, settle) (subst (Next done (work f)) e next)
        ]

module _ (k : Costs) (heap : Heap k) {Point Float : Type 0} (g : Graph Point Float) (wf : IsGraph g)
    (price : Edge Float → k.Cost) (h : ℕ → k.Cost) (to : ℕ) (done : ℕ → Bool) where
  abbrev pub origin_at : ℕ → List (Seed k)
  origin_at from = (record { node = from; cost = k.origin }) ∷ []

  astar-Good :
      (from : ℕ)
      → from < length g.nodes
      → to < length g.nodes
      → Good k heap g wf price (origin_at from) done (astar k heap g price h to done from)
  unfolding astar new_search
  astar-Good from room target =
      let none_yet = map (λ _. k.infinite) g.nodes in
      let size : length none_yet ≡ length g.nodes = length-map (λ _. k.infinite) g.nodes in
      let fits : from < length none_yet = subst (λ n. from < n) (sym size) room in
      rw (lt→ltb from (length g.nodes) room, lt→ltb to (length g.nodes) target, astar, Good)
        (settle-Good k heap g wf price (origin_at from) h to done (suc (suc (degrees g.adj))) 0 _
          (
            record {
              costs = length-set none_yet from k.origin ∙ size;
              inside =
                  λ x m. subst (λ y. y.node < length g.nodes) (sym (Memᴰ.eq_of_singleton m)) room;
              walked = λ v. elim (ℕ-cases v from) [
                | inl here ↦ inr (
                  [],
                  subst
                      (λ w.
                        Walk k g price (origin_at from) w
                          (get_or (set none_yet from k.origin) w k.infinite) [])
                      (sym here)
                      (subst (λ d. Walk k g price (origin_at from) from d [])
                        (sym (get_or-set_same none_yet from k.origin k.infinite fits))
                        (Walk.sow (record { node = from; cost = k.origin }) (Memᴰ.head refl))),
                )
                | inr other ↦ inl (
                    get_or-set_other none_yet from v k.origin k.infinite other
                    ∙ get_or-map g.nodes k.infinite v)
              ];
            },
            length-map (λ _. false) g.nodes,
          )
          (omega (arith, remaining-blank g.adj g.nodes)))

  -- From a node to a node of a graph whose edges lead to its nodes the search with a heuristic
  -- returns, whatever the heuristic gives for the nodes, unless it is cancelled, by a context that is
  -- done at a number of pops divisible by 1024; in its result each cost that is not infinite is
  -- that of a walk from the start.
  pub astar-returns :
      (from : ℕ)
      → from < length g.nodes
      → to < length g.nodes
      → ((t : Search k) × (astar k heap g price h to done from ≡ Outcome.found t)
          × ((v : ℕ)
              → (at k t v ≡ k.infinite)
                ⊎ ((p : List ℕ) × Walk k g price (origin_at from) v (at k t v) p)))
        ⊎ ((astar k heap g price h to done from ≡ Outcome.cancelled)
            × ((n : ℕ) × (n % cancel_check_interval ≡ 0) × (done n ≡ true)))
  astar-returns from room target =
      let good = astar-Good from room target in
      let says = Good k heap g wf price (origin_at from) done in
      elim (Outcome-cases (astar k heap g price h to done from)) [
        | inl (t, e) ↦ inl (t, e, subst says e good)
        | inr (inl e) ↦ inr (e, subst says e good)
        | inr (inr (inl e)) ↦ absurd (subst says e good)
        | inr (inr (inr e)) ↦ absurd (subst says e good)
      ]

  -- A search that finds something has a target in range.
  astar-target :
      (from : ℕ) (t : Search k)
      → astar k heap g price h to done from ≡ Outcome.found t
      → to < length g.nodes
  unfolding astar
  astar-target from t found_t = elim (Bool-cases (ltb to (length g.nodes))) [
    | inl inside ↦ ltb→lt to (length g.nodes) inside
    | inr outside ↦ elim (Bool-cases (ltb from (length g.nodes))) [
      | inl room ↦ absurd (cc (rw (room, outside, astar) at found_t))
      | inr far ↦ absurd (cc (rw (far, astar) at found_t))
    ]
  ]

  -- The cost that the search with a heuristic returns for its target is not below that of Dijkstra's
  -- search for the same nodes, whatever the heuristic, when the cutoff admits it.
  pub astar-dijkstra :
      (r : Request k) (from : ℕ) (t u : Search k)
      → from < length g.nodes
      → is_target r.target to ≡ true
      → astar k heap g price h to done from ≡ Outcome.found t
      → dijkstra k heap g price from r ≡ Outcome.found u
      → beyond k r.cutoff (at k t to) ≡ false
      → Le k (at k u to) (at k t to)
  unfolding dijkstra
  astar-dijkstra r from t u room here found_t found_u near =
      elim (subst (Good k heap g wf price (origin_at from) done) found_t
        (astar-Good from room (astar-target from t found_t)) to) [
          | inl end ↦ subst (λ c. Le k (at k u to) c) (sym end) (k.le_infinite (at k u to))
          | inr (p, w) ↦
              dijkstra_seeded-least k heap g wf price (origin_at from) r u
                (λ x m. subst (λ y. y.node < length g.nodes) (sym (Memᴰ.eq_of_singleton m)) room)
                found_u to (at k t to) p w near (inl here)
        ]
