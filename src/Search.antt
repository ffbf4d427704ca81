-- ===== src/Search.antt =====
-- internal/algo/network/search.go: Dijkstra's search over a graph, and `PathTo`. The price of an
-- edge, the answers of the context and the heap of container/heap are arguments. A number of a node
-- or of an edge that is out of range makes the code panic.
mod Walks
mod Work
mod Lower
mod Invariant
mod Scan
mod Pop
mod Loop
mod Plant
mod Laws
mod Astar
mod Tests
use geoverse_map_server.Base.{
  ℕ, zero, suc, ◌+◌, ◌%◌, ◌≡◌, Bool, true, false, ◌&&◌, List, [], ◌∷◌, map, length, get_or,
  get_elem?, set, Option, none, some, if◌then◌else◌, ltb, ◌==◌, reverse, ◌++◌,
}
use geoverse_map_server.Base.Ints.{ℤ, pos, negsuc}
use geoverse_map_server.Base.Lists.{Reordered}
use geoverse_map_server.Costs.{Costs}
use geoverse_map_server.Graph.{Edge, Graph}
use mathlib.Core.List.{Memᴰ}
use mathlib.Core.Option

abbrev pub cancel_check_interval : ℕ
cancel_check_interval = 1024

-- `pqItem`
pub record Item (k : Costs) : Type 0 where
  pub node : ℕ
  pub prio : k.Cost

-- `Push` and `Pop` of container/heap over a `pq`, whose order is that of `prio`. Its documentation
-- says that they keep a heap a heap, and that `Pop` takes a least item out.
pub record Heap (k : Costs) : Type 1 where
  pub push : Item k → List (Item k) → List (Item k)
  pub pop : List (Item k) → Option (Item k × List (Item k))
  pub IsHeap : List (Item k) → Type 0
  pub nil-IsHeap : IsHeap []
  pub push-IsHeap : (x : Item k) (q : List (Item k)) → IsHeap q → IsHeap (push x q)
  pub push-Reordered : (x : Item k) (q : List (Item k)) → Reordered (push x q) (x ∷ q)
  pub pop-none : (q : List (Item k)) → pop q ≡ none → q ≡ []
  pub pop-IsHeap :
      (x : Item k) (q rest : List (Item k)) → IsHeap q → pop q ≡ some (x, rest) → IsHeap rest
  pub pop-Reordered :
      (x : Item k) (q rest : List (Item k)) → pop q ≡ some (x, rest) → Reordered q (x ∷ rest)
  pub pop-least :
      (x y : Item k) (q rest : List (Item k))
      → IsHeap q
      → pop q ≡ some (x, rest)
      → Memᴰ y rest
      → k.lt y.prio x.prio ≡ false

-- `Seed`
pub record Seed (k : Costs) : Type 0 where
  pub node : ℕ
  pub cost : k.Cost

-- `SearchResult` with the queue. The number -1 for no edge is `none`.
pub record Search (k : Costs) : Type 0 where
  pub cost : List k.Cost
  pub prev_edge : List (Option ℕ)
  pub queue : List (Item k)

pub data Outcome (k : Costs) : Type 0 where
  found : Search k → Outcome k
  cancelled : Outcome k
  panicked : Outcome k
  out_of_fuel : Outcome k

-- What a turn of a loop does: it goes on or returns.
pub data Turn (k : Costs) : Type 0 where
  go : Search k → Turn k
  stop : Outcome k → Turn k

-- The arguments `cutoff` and `target`, and whether the context is done at a number of pops.
pub record Request (k : Costs) : Type 0 where
  pub cutoff : k.Cost
  pub target : ℤ
  pub done : ℕ → Bool

abbrev pub is_target : ℤ → ℕ → Bool
is_target (pos t) u = u == t
is_target (negsuc t) u = false

-- A pop for each seed and each edge, and the last look at the queue, are the turns of a search.
abbrev pub degrees : List (List ℕ) → ℕ
degrees [] = 0
degrees (is ∷ rest) = length is + degrees rest

module _ (k : Costs) where
  abbrev pub at : Search k → ℕ → k.Cost
  at s v = get_or s.cost v k.infinite

  -- The test of `cutoff > 0 && c > cutoff`.
  abbrev pub beyond : k.Cost → k.Cost → Bool
  beyond cutoff c = k.lt k.origin cutoff && k.lt cutoff c

  -- `newSearchResult`, for a list of nodes, with the empty queue.
  unfoldable pub new_search : {Node : Type 0} → List Node → Search k
  new_search nodes = record {
    cost = map (λ _. k.infinite) nodes;
    prev_edge = map (λ _. none) nodes;
    queue = [];
  }

module _ (k : Costs) (heap : Heap k) where
  -- The loop over the seeds.
  unfoldable pub plant : List (Seed k) → Search k → Option (Search k)
  plant [] s = some s
  plant (x ∷ xs) s =
      if ltb x.node (length s.cost)
      then plant xs (
          if k.lt x.cost (at k s x.node)
          then record s {
            cost = set s.cost x.node x.cost;
            queue = heap.push (record { node = x.node; prio = x.cost }) s.queue;
          }
          else s)
      else none

  module _ {Float : Type 0} (price : Edge Float → k.Cost) (skip : k.Cost → Bool) where
    -- The body of the loop over the edges of `u`, at the edge numbered `i`.
    unfoldable pub relax : (ℕ → k.Cost → k.Cost) → ℕ → ℕ → Edge Float → Search k → Search k
    relax key u i e s =
        let c = k.add (at k s u) (price e) in
        if skip c
        then s
        else if k.lt c (at k s e.to)
        then record {
          cost = set s.cost e.to c;
          prev_edge = set s.prev_edge e.to (some i);
          queue = heap.push (record { node = e.to; prio = key e.to c }) s.queue;
        }
        else s

    -- The loop over the edges of `u`.
    unfoldable pub scan :
        (ℕ → k.Cost → k.Cost) → List (Edge Float) → ℕ → List ℕ → Search k → Option (Search k)
    scan key edges u [] s = some s
    scan key edges u (i ∷ is) s = elim (get_elem? edges i) [
      | none ↦ none
      | some e ↦ if ltb e.to (length s.cost) then scan key edges u is (relax key u i e s) else none
    ]

  module _ {Point Float : Type 0} (g : Graph Point Float) (price : Edge Float → k.Cost) where
    module _ (r : Request k) where
      -- The loop's body after `heap.Pop`.
      unfoldable pub visit : Item k → Search k → Turn k
      visit it s =
          if k.lt (at k s it.node) it.prio
          then Turn.go s
          else if is_target r.target it.node
          then Turn.stop (Outcome.found s)
          else elim (scan price (beyond k r.cutoff) (λ v c. c) g.edges it.node
              (get_or g.adj it.node []) s) [
                | none ↦ Turn.stop Outcome.panicked
                | some after ↦ Turn.go after
              ]

      unfoldable pub turn : ℕ → Search k → Turn k
      turn pops s = elim (heap.pop s.queue) [
        | none ↦ Turn.stop (Outcome.found s)
        | some (it, rest) ↦
            if pops % cancel_check_interval == 0 && r.done pops
            then Turn.stop Outcome.cancelled
            else visit it (record s { queue = rest })
      ]

      unfoldable pub loop : ℕ → ℕ → Search k → Outcome k
      loop zero pops s = Outcome.out_of_fuel
      loop (suc fuel) pops s = elim (turn pops s) [
        | Turn.stop o ↦ o
        | Turn.go after ↦ loop fuel (suc pops) after
      ]

    unfoldable pub dijkstra_seeded : List (Seed k) → Request k → Outcome k
    dijkstra_seeded seeds r = elim (plant seeds (new_search k g.nodes)) [
      | none ↦ Outcome.panicked
      | some s ↦ loop r (suc (length seeds + degrees g.adj)) 0 s
    ]

    unfoldable pub dijkstra : ℕ → Request k → Outcome k
    dijkstra from r = dijkstra_seeded (record { node = from; cost = k.origin } ∷ []) r

module _ {Float : Type 0} (k : Costs) (edges : List (Edge Float)) (s : Search k) where
  -- The first loop of `PathTo`, for at most so many turns.
  unfoldable pub trace : ℕ → ℕ → List ℕ → Option (List ℕ)
  trace zero t rev = none
  trace (suc n) t rev = elim (get_or s.prev_edge t none) [
    | none ↦ some rev
    | some i ↦ elim (get_elem? edges i) [ none ↦ none | some e ↦ trace n e.from (rev ++ i ∷ []) ]
  ]

  -- `PathTo`, of a node in range. The second loop turns the list around.
  unfoldable pub path_to : ℕ → ℕ → Option (List ℕ)
  path_to n t = if k.lt (at k s t) k.infinite then Option.map reverse (trace n t []) else some []
