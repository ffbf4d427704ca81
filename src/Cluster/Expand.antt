-- ===== src/Cluster/Expand.antt =====
-- The inner loop of `run`: it ends, and what it labels is closed under the neighbours of the points
-- with enough neighbours.
use mathlib.Core.List.{append-nil}
use geoverse_map_server.Base.{
  ℕ, zero, suc, ◌+◌, ◌*◌, ◌≤◌, ◌<◌, ◌≡◌, ◌⊎◌, inl, inr, refl, Bool, true, false, ◌&&◌, ◌||◌, List,
  [], ◌∷◌, ◌++◌, length, set, ltb, leb, ◌==◌, arith, if◌then◌else◌, ◌%◌, Bool-cases, length-append,
}
use geoverse_map_server.Base.Lists.{length-set}
use geoverse_map_server.Cluster.{
  Label, unclassified, noise, in_cluster, label_at, labelled, cancelled, Search,
  cancel_check_interval, visit, expand,
}
use geoverse_map_server.Cluster.Labels.{
  elem, elem-append, is_clustered, is_noise, is_unclassified, label_at-set, pending, pending-set,
}

-- Whether a point has too few neighbours to spread a cluster.
abbrev pub is_sparse : Search → ℕ → Bool
is_sparse s i = ltb (length (s.neighbours i)) s.min_points

-- The neighbours of a point are points, and no more than there are.
pub record IsNeighbourhood (s : Search) : Type 0 where
  pub few : (i : ℕ) → length (s.neighbours i) ≤ s.points
  pub inside : (i j : ℕ) → elem j (s.neighbours i) ≡ true → j < s.points

-- Labels and a queue between two rounds.
pub record IsGood (s : Search) (labels : List Label) (queue : List ℕ) : Type 0 where
  pub size : length labels ≡ s.points
  pub inside : (j : ℕ) → elem j queue ≡ true → j < s.points
  pub quiet : (i : ℕ) → is_noise (label_at labels i) ≡ true → is_sparse s i ≡ true
  pub closed :
      (i j : ℕ)
      → is_clustered (label_at labels i) ≡ true
      → is_sparse s i ≡ false
      → elem j (s.neighbours i) ≡ true
      → (is_clustered (label_at labels j) || elem j queue) ≡ true

pub Label-cases : (l : Label) → (l ≡ unclassified) ⊎ ((l ≡ noise) ⊎ ((k : ℕ) × (l ≡ in_cluster k)))
Label-cases unclassified = inl refl
Label-cases noise = inr (inl refl)
Label-cases (in_cluster k) = inr (inr (k, refl))

module _ (s : Search) (near : IsNeighbourhood s) (c j : ℕ) (labels : List Label) (queue : List ℕ)
    (good : IsGood s labels (j ∷ queue)) where
  head_inside : j < length labels
  unfolding elem
  head_inside = ground (arith, good.inside j, good.size)

  queue_inside : (k : ℕ) → elem k queue ≡ true → k < s.points
  unfolding elem
  queue_inside k h = good.inside k (ground arith)

  closed_elsewhere :
      (new : List ℕ) (i k : ℕ)
      → (j == i) ≡ false
      → is_clustered (label_at (set labels j (in_cluster c)) i) ≡ true
      → is_sparse s i ≡ false
      → elem k (s.neighbours i) ≡ true
      → (is_clustered (label_at (set labels j (in_cluster c)) k) || elem k (queue ++ new)) ≡ true
  unfolding elem
  closed_elsewhere new i k e a b d =
      let before = label_at-set labels j i (in_cluster c) head_inside in
      let after = label_at-set labels j k (in_cluster c) head_inside in
      let was = good.closed i k (ground arith) b d in ground (arith, elem-append k queue new)

  closed_here :
      (new : List ℕ)
      → ((is_clustered (label_at labels j) ≡ true)
          ⊎ (is_sparse s j ≡ true)
          ⊎ ((k : ℕ) → elem k (s.neighbours j) ≡ true → elem k new ≡ true))
      → (i k : ℕ) → j ≡ i
      → is_clustered (label_at (set labels j (in_cluster c)) i) ≡ true
      → is_sparse s i ≡ false
      → elem k (s.neighbours i) ≡ true
      → (is_clustered (label_at (set labels j (in_cluster c)) k) || elem k (queue ++ new)) ≡ true
  unfolding elem
  closed_here new (inl old) i k e a b d =
      let after = label_at-set labels j k (in_cluster c) head_inside in
      let was = good.closed j k old (rw e b) (rw e d) in ground (arith, elem-append k queue new)
  closed_here new (inr (inl sparse)) i k e a b d = absurd (ground arith)
  closed_here new (inr (inr spread)) i k e a b d =
      let queued = spread k (rw e d) in ground (arith, elem-append k queue new)

  -- A label other than `unclassified` for the point in front.
  pub relabelled-IsGood :
      (new : List ℕ)
      → ((k : ℕ) → elem k new ≡ true → k < s.points)
      → ((is_clustered (label_at labels j) ≡ true)
          ⊎ (is_sparse s j ≡ true)
          ⊎ ((k : ℕ) → elem k (s.neighbours j) ≡ true → elem k new ≡ true))
      → IsGood s (set labels j (in_cluster c)) (queue ++ new)
  unfolding elem
  relabelled-IsGood new inside spread = record {
    size = ground (arith, length-set labels j (in_cluster c), good.size);
    inside = λ k h. ground (arith, elem-append k queue new, queue_inside k, inside k);
    quiet = λ i h. ground (arith, label_at-set labels j i (in_cluster c) head_inside, good.quiet i);
    closed = λ i k a b d. elim (Bool-cases (j == i)) [
      | inl e ↦ closed_here new spread i k (ground arith) a b d
      | inr e ↦ closed_elsewhere new i k e a b d
    ];
  }

  -- Where the point in front is in a cluster, it leaves the queue.
  skipped-IsGood : is_clustered (label_at labels j) ≡ true → IsGood s labels queue
  unfolding elem
  skipped-IsGood here = record {
    size = good.size;
    inside = queue_inside;
    quiet = good.quiet;
    closed = λ i k a b d. ground (arith, good.closed i k a b d);
  }

-- One round keeps the invariant, and lowers the work that is left.
unfoldable pub work : Search → List Label → List ℕ → ℕ
work s labels queue = pending labels * s.points + length queue

work-falls : (p p' n q new : ℕ) → p ≡ p' + 1 → new ≤ n → p' * n + (q + new) < p * n + suc q
work-falls p p' n q new e few =
    let product : (p' + 1) * n ≡ p' * n + n = ground arith in rw (e, product) (omega arith)

-- A point that was labelled stays so.
abbrev pub StaysLabelled : List Label → List Label → Type 0
StaysLabelled before after =
    (i : ℕ)
    → is_unclassified (label_at before i) ≡ false
    → is_unclassified (label_at after i) ≡ false

module _ (s : Search) (near : IsNeighbourhood s) (c : ℕ) where
  visit-IsGood :
      (j : ℕ) (queue : List ℕ) (labels : List Label)
      → IsGood s labels (j ∷ queue)
      → IsGood s (visit s c j labels).0 (queue ++ (visit s c j labels).1)
  unfolding visit elem
  visit-IsGood j queue labels good = elim (Label-cases (label_at labels j)) [
    | inl e ↦ elim (Bool-cases (is_sparse s j)) [
      | inl sparse ↦
          let short : leb s.min_points (length (s.neighbours j)) ≡ false = ground arith in
          rw (e, short)
            (relabelled-IsGood s near c j labels queue good [] (λ k h. absurd (cc))
              (inr (inl sparse)))
      | inr dense ↦
          let long : leb s.min_points (length (s.neighbours j)) ≡ true = ground arith in
          rw (e, long)
            (relabelled-IsGood s near c j labels queue good (s.neighbours j) (near.inside j)
              (inr (inr (λ k h. h))))
    ]
    | inr (inl e) ↦ rw e (
        relabelled-IsGood s near c j labels queue good [] (λ k h. absurd (cc))
          (inr (inl (good.quiet j (ground arith)))))
    | inr (inr (k, e)) ↦
        rw (e, append-nil queue) (skipped-IsGood s near c j labels queue good (ground arith))
  ]

  new_few :
      (j : ℕ)
      → length (if leb s.min_points (length (s.neighbours j)) then s.neighbours j else [])
        ≤ s.points
  new_few j = elim (Bool-cases (leb s.min_points (length (s.neighbours j)))) [
    | inl e ↦ rw e (near.few j)
    | inr e ↦ rw e (omega arith)
  ]

  visit-work :
      (j : ℕ) (queue : List ℕ) (labels : List Label)
      → j < length labels
      → work s (visit s c j labels).0 (queue ++ (visit s c j labels).1) < work s labels (j ∷ queue)
  unfolding visit work
  visit-work j queue labels inside =
      let fell = pending-set labels j (in_cluster c) refl inside in
      elim (Label-cases (label_at labels j)) [
        | inl e ↦
            let new : List ℕ =
              if leb s.min_points (length (s.neighbours j)) then s.neighbours j else [] in
            let less : pending labels ≡ pending (set labels j (in_cluster c)) + 1 = rw e at fell in
            rw (e, length-append queue new)
              (work-falls (pending labels) (pending (set labels j (in_cluster c))) s.points
                (length queue) (length new) less (new_few j))
        | inr (inl e) ↦
            let as_many : pending labels ≡ pending (set labels j (in_cluster c)) + 0 =
              rw e at fell in
            rw (e, append-nil queue) (ground arith)
        | inr (inr (k, e)) ↦ rw (e, append-nil queue) (omega arith)
      ]

  visit-StaysLabelled :
      (j : ℕ) (queue : List ℕ) (labels : List Label)
      → j < length labels
      → StaysLabelled labels (visit s c j labels).0
  unfolding visit
  visit-StaysLabelled j queue labels inside i h =
      let after = label_at-set labels j i (in_cluster c) inside in
      elim (Label-cases (label_at labels j)) [
        | inl e ↦ rw e (ground arith)
        | inr (inl e) ↦ rw e (ground arith)
        | inr (inr (k, e)) ↦ rw e h
      ]

  -- With fuel for the work that is left, the loop is cancelled or ends, and then the queue is empty.
  pub expand_ends :
      (fuel i steps : ℕ) (queue : List ℕ) (labels : List Label)
      → IsGood s labels queue
      → work s labels queue ≤ fuel
      → (expand s fuel i steps c queue labels ≡ cancelled)
        ⊎ ((after : List Label) × (expand s fuel i steps c queue labels ≡ labelled after)
            × IsGood s after []
            × StaysLabelled labels after)
  unfolding expand work elem
  expand_ends fuel i steps [] labels good room = inr (labels, refl, good, λ k h. h)
  expand_ends zero i steps (j ∷ queue) labels good room = absurd (omega arith)
  expand_ends (suc fuel) i steps (j ∷ queue) labels good room =
      let inside : j < length labels = ground (arith, good.inside j, good.size) in
      let falls = visit-work j queue labels inside in
      let ih =
        expand_ends fuel i (suc steps) (queue ++ (visit s c j labels).1) (visit s c j labels).0
          (visit-IsGood j queue labels good) (omega arith) in
      elim (Bool-cases (steps % cancel_check_interval == 0 && s.done_inside i steps)) [
        | inl e ↦ inl (rw e refl)
        | inr e ↦ elim ih [
          | inl stopped ↦ inl (rw (e, stopped) refl)
          | inr (after, done, closed, stays) ↦ inr (
            after,
            rw (e, done) refl,
            closed,
            λ k h. stays k (visit-StaysLabelled j queue labels inside k h),
          )
        ]
      ]
