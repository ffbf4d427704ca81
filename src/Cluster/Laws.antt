-- ===== src/Cluster/Laws.antt =====
-- The labelling of all the points.
use native.Mathlib.Nat.{mul-le-mul_right}
use geoverse_map_server.Base.{
  ℕ, zero, suc, ◌+◌, ◌*◌, ◌≤◌, ◌<◌, ◌≡◌, ◌⊎◌, inl, inr, refl, true, false, ◌&&◌, List, [], ◌∷◌,
  length, set, ◌==◌, arith, ◌%◌, Bool-cases,
}
use geoverse_map_server.Base.Lists.{length-set}
use geoverse_map_server.Cluster.{
  Label, noise, in_cluster, label_at, labelled, cancelled, Search, cancel_check_interval, expand,
  enough, scan, run, unclassified_from,
}
use geoverse_map_server.Cluster.Expand.{
  is_sparse, IsNeighbourhood, IsGood, StaysLabelled, Label-cases, relabelled-IsGood, work,
  expand_ends,
}
use geoverse_map_server.Cluster.Labels.{
  elem, is_clustered, is_noise, is_unclassified, label_at-set, pending, pending-bound,
  length-unclassified_from, label_at-unclassified_from,
}

square-le : (p n : ℕ) → p ≤ n → p * n ≤ n * n
square-le p n h = mul-le-mul_right n h

module _ (s : Search) (near : IsNeighbourhood s) where
  -- A point that stands in the queue alone.
  waiting-IsGood :
      (i : ℕ) (labels : List Label) → i < s.points → IsGood s labels [] → IsGood s labels (i ∷ [])
  unfolding elem
  waiting-IsGood i labels inside good = record {
    size = good.size;
    inside = λ j h. ground arith;
    quiet = good.quiet;
    closed = λ j k a b d. ground (arith, good.closed j k a b d);
  }

  noise-IsGood :
      (i : ℕ) (labels : List Label)
      → i < s.points
      → is_unclassified (label_at labels i) ≡ true
      → is_sparse s i ≡ true
      → IsGood s labels []
      → IsGood s (set labels i noise) []
  unfolding elem
  noise-IsGood i labels inside fresh sparse good =
      let room : i < length labels = ground (arith, good.size) in
      record {
        size = ground (arith, length-set labels i noise, good.size);
        inside = λ j h. absurd (cc);
        quiet = λ j h. ground (arith, label_at-set labels i j noise room, good.quiet j);
        closed = λ j k a b d.
            let before = label_at-set labels i j noise room in
            let after = label_at-set labels i k noise room in
            let was = good.closed j k (ground arith) b d in ground arith;
      }

  -- Every point before `i` has a label.
  abbrev pub LabelledBefore : ℕ → List Label → Type 0
  LabelledBefore i labels = (k : ℕ) → k < i → is_unclassified (label_at labels k) ≡ false

  extended :
      (i : ℕ) (labels : List Label) (v : Label)
      → i < length labels
      → is_unclassified v ≡ false
      → LabelledBefore i labels
      → LabelledBefore (suc i) (set labels i v)
  extended i labels v room labels_it before k h =
      ground (arith, label_at-set labels i k v room, before k)

  known_too :
      (i : ℕ) (labels : List Label)
      → is_unclassified (label_at labels i) ≡ false
      → LabelledBefore i labels
      → LabelledBefore (suc i) labels
  known_too i labels here before k h = elim (Bool-cases (k == i)) [
    | inl e ↦ ground arith
    | inr e ↦ before k (ground arith)
  ]

  -- The inner loop of a point has fuel enough.
  spread-IsGood :
      (i c : ℕ) (labels : List Label)
      → i < s.points
      → IsGood s labels []
      → let started = set labels i (in_cluster c) in
        (expand s (enough s (s.neighbours i)) i 0 c (s.neighbours i) started ≡ cancelled)
        ⊎ ((after : List Label) × (expand s
                (enough s (s.neighbours i))
                i
                0
                c
                (s.neighbours i)
                started
              ≡ labelled after)
            × IsGood s after []
            × StaysLabelled started after)
  unfolding work
  spread-IsGood i c labels inside good =
      let started = set labels i (in_cluster c) in
      let queued =
        relabelled-IsGood s near c i labels [] (waiting-IsGood i labels inside good)
          (s.neighbours i) (near.inside i) (inr (inr (λ k h. h))) in
      let most : pending started ≤ s.points =
        ground (arith, pending-bound started, length-set labels i (in_cluster c), good.size) in
      let room = square-le (pending started) s.points most in
      expand_ends s near c (enough s (s.neighbours i)) i 0 (s.neighbours i) started queued
        (omega arith)

  -- The loop from a point on is cancelled, or labels every point.
  scan-IsGood :
      (n i c : ℕ) (labels : List Label)
      → i + n ≡ s.points
      → IsGood s labels []
      → LabelledBefore i labels
      → (scan s n i c labels ≡ cancelled)
        ⊎ ((after : List Label) × (scan s n i c labels ≡ labelled after)
            × IsGood s after []
            × LabelledBefore s.points after)
  unfolding scan
  scan-IsGood zero i c labels e good before =
      inr (labels, refl, good, λ k h. before k (omega arith))
  scan-IsGood (suc n) i c labels e good before =
      let inside : i < s.points = omega arith in
      let room : i < length labels = ground (arith, good.size) in
      elim (Bool-cases (i % cancel_check_interval == 0 && s.done_outside i)) [
        | inl stop ↦ inl (rw (stop, scan) refl)
        | inr on ↦ elim (Label-cases (label_at labels i)) [
          | inr (inl e') ↦
              rw (on, e', scan)
                (scan-IsGood n (suc i) c labels (omega arith) good
                  (known_too i labels (ground arith) before))
          | inr (inr (k, e')) ↦
              rw (on, e', scan)
                (scan-IsGood n (suc i) c labels (omega arith) good
                  (known_too i labels (ground arith) before))
          | inl fresh ↦ elim (Bool-cases (is_sparse s i)) [
            | inl sparse ↦
                rw (on, fresh, sparse, scan)
                  (scan-IsGood n (suc i) c (set labels i noise) (omega arith)
                    (noise-IsGood i labels inside (ground arith) sparse good)
                    (extended i labels noise room refl before))
            | inr dense ↦ elim (spread-IsGood i c labels inside good) [
              | inl stopped ↦ inl (rw (on, fresh, dense, stopped, scan) refl)
              | inr (after, done, closed, stays) ↦
                  let started = extended i labels (in_cluster c) room refl before in
                  rw (on, fresh, dense, done, scan)
                    (scan-IsGood n (suc i) (suc c) after (omega arith) closed
                      (λ k h. stays k (started k h)))
            ]
          ]
        ]
      ]

  is_clustered-of :
      (labels : List Label) (i : ℕ)
      → is_unclassified (label_at labels i) ≡ false
      → (is_noise (label_at labels i) ≡ true → is_sparse s i ≡ true)
      → is_sparse s i ≡ false
      → is_clustered (label_at labels i) ≡ true
  is_clustered-of labels i known quiet dense = elim (Label-cases (label_at labels i)) [
    | inl e ↦ absurd (ground arith)
    | inr (inl e) ↦ absurd (ground (arith, quiet (ground arith)))
    | inr (inr (k, e)) ↦ rw e refl
  ]

  -- Where the neighbours of a point are points, no more than there are, the labelling of `run`
  -- ends without a lack of fuel: it is cancelled, or it labels every point
  -- as noise or with a cluster. Then a point is noise only if it has fewer than `minPts`
  -- neighbours, and the neighbours of a point that has enough are all in clusters, as it is.
  pub run_labels :
      (run s ≡ cancelled)
      ⊎ ((labels : List Label) × (run s ≡ labelled labels)
          × (length labels ≡ s.points)
          × ((i : ℕ)
              → i < s.points
              → (is_unclassified (label_at labels i) ≡ false)
                × (is_noise (label_at labels i) ≡ true → is_sparse s i ≡ true)
                × (is_sparse s i ≡ false
                    → (j : ℕ) → elem j (s.neighbours i) ≡ true
                    → (is_clustered (label_at labels i) ≡ true)
                      × (is_clustered (label_at labels j) ≡ true))))
  unfolding run elem
  run_labels =
      let fresh = unclassified_from s.points in
      let blank = label_at-unclassified_from s.points in
      let start : IsGood s fresh [] = record {
        size = length-unclassified_from s.points;
        inside = λ j h. absurd (cc);
        quiet = λ i h. absurd (ground (arith, blank i));
        closed = λ i j a b d. absurd (ground (arith, blank i));
      } in
      elim (scan-IsGood s.points 0 0 fresh (omega arith) start (λ k h. absurd (omega arith))) [
        | inl stopped ↦ inl stopped
        | inr (labels, done, good, known) ↦ inr (
          labels,
          done,
          good.size,
          λ i inside.
              let it = known i inside in
              (
                it,
                good.quiet i,
                λ dense j near_it.
                    let here = is_clustered-of labels i it (good.quiet i) dense in
                    (here, ground (arith, good.closed i j here dense near_it)),
              ),
        )
      ]
