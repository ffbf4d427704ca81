-- ===== src/Search/Astar.antt =====
-- internal/algo/network/search.go: `AStar`. The heuristic, a great-circle distance by the greatest
-- speed, is an argument, at the nodes of the graph: it reads the target, so that one out of range
-- makes the code panic, as a start out of range does.
pub mod Laws
use geoverse_map_server.Base.{
  ℕ, zero, suc, ◌%◌, Bool, true, false, not, ◌&&◌, List, [], ◌∷◌, map, length, get_or, set, none,
  some, if◌then◌else◌, ltb, ◌==◌,
}
use geoverse_map_server.Costs.{Costs}
use geoverse_map_server.Graph.{Edge, Graph}
use geoverse_map_server.Search.{
  Item, Heap, Search, Outcome, new_search, scan, degrees, cancel_check_interval,
}

-- The state of the loop, with the flags of the settled nodes.
pub record Frontier (k : Costs) : Type 0 where
  pub settled : List Bool
  pub search : Search k

pub data Move (k : Costs) : Type 0 where
  go : Frontier k → Move k
  stop : Outcome k → Move k

module _ (k : Costs) (heap : Heap k) {Point Float : Type 0} (g : Graph Point Float)
    (price : Edge Float → k.Cost) (h : ℕ → k.Cost) (to : ℕ) (done : ℕ → Bool) where
  -- The loop's body after `heap.Pop`.
  unfoldable pub visit_node : ℕ → Frontier k → Move k
  visit_node u f =
      if get_or f.settled u false
      then Move.go f
      else if u == to
      then Move.stop (Outcome.found f.search)
      else elim (scan k heap price (λ c. false) (λ v c. k.add c (h v)) g.edges u (get_or g.adj u [])
          f.search) [
            | none ↦ Move.stop Outcome.panicked
            | some after ↦ Move.go (record { settled = set f.settled u true; search = after })
          ]

  unfoldable pub move : ℕ → Frontier k → Move k
  move pops f = elim (heap.pop (f.search).queue) [
    | none ↦ Move.stop (Outcome.found f.search)
    | some (it, rest) ↦
        if pops % cancel_check_interval == 0 && done pops
        then Move.stop Outcome.cancelled
        else visit_node it.node (record f { search = record (f.search) { queue = rest } })
  ]

  unfoldable pub settle : ℕ → ℕ → Frontier k → Outcome k
  settle zero pops f = Outcome.out_of_fuel
  settle (suc fuel) pops f = elim (move pops f) [
    | Move.stop o ↦ o
    | Move.go after ↦ settle fuel (suc pops) after
  ]

  unfoldable pub astar : ℕ → Outcome k
  astar from =
      let blank = new_search k g.nodes in
      if not (ltb from (length g.nodes))
      then Outcome.panicked
      else if ltb to (length g.nodes)
      then settle (suc (suc (degrees g.adj))) 0 (record {
        settled = map (λ _. false) g.nodes;
        search = record blank {
          cost = set blank.cost from k.origin;
          queue = (record { node = from; prio = h from }) ∷ [];
        };
      })
      else Outcome.panicked
