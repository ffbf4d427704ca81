-- ===== src/Cluster.antt =====
-- internal/algo/cluster/dbscan.go: the labelling of the points in `run`. The neighbours of a point,
-- which the code finds by a grid over floating-point coordinates, and whether the context is done
-- at a check are arguments.
pub mod Labels
pub mod Expand
pub mod Laws
pub mod Active
mod Tests
use geoverse_map_server.Base.{
  ℕ, zero, suc, ◌+◌, ◌*◌, ◌%◌, Bool, true, false, ◌&&◌, List, [], ◌∷◌, ◌++◌, length, get_or, set,
  ltb, leb, ◌==◌, if◌then◌else◌,
}

-- `unclassified` (-2), `noise` (-1) and the clusters from 0.
pub data Label : Type 0 where
  unclassified : Label
  noise : Label
  in_cluster : ℕ → Label

-- What the labelling ends with: a result, the error of the context, or no fuel.
pub data Outcome : Type 0 where
  labelled : List Label → Outcome
  cancelled : Outcome
  out_of_fuel : Outcome

-- `labels[i]`
abbrev pub label_at : List Label → ℕ → Label
label_at labels i = get_or labels i unclassified

-- A search: the points, their neighbours, `minPts`, and the checks of the context by the point of
-- the outer loop and the steps of the inner one.
pub record Search : Type 0 where
  pub points : ℕ
  pub neighbours : ℕ → List ℕ
  pub min_points : ℕ
  pub done_outside : ℕ → Bool
  pub done_inside : ℕ → ℕ → Bool

-- `algo.CancelCheckInterval`
abbrev pub cancel_check_interval : ℕ
cancel_check_interval = 1024

abbrev pub unclassified_from : ℕ → List Label
unclassified_from zero = []
unclassified_from (suc n) = unclassified ∷ unclassified_from n

module _ (s : Search) where
  -- The body of the inner loop: the labels after it and what goes to the end of the queue.
  abbrev visit_as : Label → ℕ → ℕ → List Label → List Label × List ℕ
  visit_as noise c j labels = (set labels j (in_cluster c), [])
  visit_as (in_cluster k) c j labels = (labels, [])
  visit_as unclassified c j labels = (
    set labels j (in_cluster c),
    if leb s.min_points (length (s.neighbours j)) then s.neighbours j else [],
  )

  unfoldable pub visit : ℕ → ℕ → List Label → List Label × List ℕ
  visit c j labels = visit_as (label_at labels j) c j labels

  -- The inner loop, by the point that started the cluster and the steps so far.
  unfoldable pub expand : ℕ → ℕ → ℕ → ℕ → List ℕ → List Label → Outcome
  expand fuel i steps c [] labels = labelled labels
  expand zero i steps c (j ∷ queue) labels = out_of_fuel
  expand (suc fuel) i steps c (j ∷ queue) labels =
      let seen = visit c j labels in
      let rest = expand fuel i (suc steps) c (queue ++ seen.1) seen.0 in
      if steps % cancel_check_interval == 0 && s.done_inside i steps then cancelled else rest

  -- Rounds enough for the inner loop: each point is labelled once and then queues its neighbours.
  abbrev pub enough : List ℕ → ℕ
  enough queue = s.points * s.points + length queue

  -- The outer loop, for as many points as its first argument from the point of its second on, with
  -- the next cluster. The point itself is labelled before its neighbours are queued.
  unfoldable pub scan : ℕ → ℕ → ℕ → List Label → Outcome
  scan zero i c labels = labelled labels
  scan (suc n) i c labels = elim (i % cancel_check_interval == 0 && s.done_outside i) [
    | true ↦ cancelled
    | false ↦ elim (label_at labels i) [
      | noise ↦ scan n (suc i) c labels
      | in_cluster k ↦ scan n (suc i) c labels
      | unclassified ↦ elim (ltb (length (s.neighbours i)) s.min_points) [
        | true ↦ scan n (suc i) c (set labels i noise)
        | false ↦
            elim (expand (enough (s.neighbours i)) i 0 c (s.neighbours i)
              (set labels i (in_cluster c))) [
                | labelled after ↦ scan n (suc i) (suc c) after
                | cancelled ↦ cancelled
                | out_of_fuel ↦ out_of_fuel
              ]
      ]
    ]
  ]

  -- The labels of `run`.
  unfoldable pub run : Outcome
  run = scan s.points 0 0 (unclassified_from s.points)
