-- ===== src/Cluster/Active.antt =====
-- Under a context that is not done, the labelling gives labels.
use geoverse_map_server.Base.{
  ℕ, zero, suc, ◌%◌, ◌≡◌, ◌≢◌, ◌⊎◌, inl, inr, refl, false, ◌&&◌, List, [], ◌∷◌, ◌++◌, set, ◌==◌,
  arith, Bool-cases,
}
use geoverse_map_server.Cluster.{
  Label, noise, in_cluster, label_at, Outcome, labelled, cancelled, out_of_fuel, Search,
  cancel_check_interval, visit, expand, enough, scan, run, unclassified_from,
}
use geoverse_map_server.Cluster.Expand.{is_sparse, IsNeighbourhood, Label-cases}
use geoverse_map_server.Cluster.Laws.{run_labels}

Outcome-cases :
    (o : Outcome)
    → ((labels : List Label) × (o ≡ labelled labels)) ⊎ ((o ≡ cancelled) ⊎ (o ≡ out_of_fuel))
Outcome-cases (labelled labels) = inl (labels, refl)
Outcome-cases cancelled = inr (inl refl)
Outcome-cases out_of_fuel = inr (inr refl)

-- The context is never done.
abbrev pub IsActive : Search → Type 0
IsActive s = ((i : ℕ) → s.done_outside i ≡ false) × ((i k : ℕ) → s.done_inside i k ≡ false)

module _ (s : Search) (active : IsActive s) where
  expand_active :
      (fuel i steps c : ℕ) (queue : List ℕ) (labels : List Label)
      → expand s fuel i steps c queue labels ≢ cancelled
  unfolding expand
  expand_active fuel i steps c [] labels = λ h. absurd (cc)
  expand_active zero i steps c (j ∷ queue) labels = λ h. absurd (cc)
  expand_active (suc fuel) i steps c (j ∷ queue) labels =
      let on : (steps % cancel_check_interval == 0 && s.done_inside i steps) ≡ false =
        ground (arith, active.1 i steps) in
      let seen = visit s c j labels in
      rw on (expand_active fuel i (suc steps) c (queue ++ seen.1) seen.0)

  scan_active : (n i c : ℕ) (labels : List Label) → scan s n i c labels ≢ cancelled
  unfolding scan
  scan_active zero i c labels = λ h. absurd (cc)
  scan_active (suc n) i c labels =
      let on : (i % cancel_check_interval == 0 && s.done_outside i) ≡ false =
        ground (arith, active.0 i) in
      let started = set labels i (in_cluster c) in
      let inner = expand_active (enough s (s.neighbours i)) i 0 c (s.neighbours i) started in
      elim (Label-cases (label_at labels i)) [
        | inr (inl e) ↦ rw (on, e, scan) (scan_active n (suc i) c labels)
        | inr (inr (k, e)) ↦ rw (on, e, scan) (scan_active n (suc i) c labels)
        | inl e ↦ elim (Bool-cases (is_sparse s i)) [
          | inl sparse ↦ rw (on, e, sparse, scan) (scan_active n (suc i) c (set labels i noise))
          | inr dense ↦
              elim (Outcome-cases
                (expand s (enough s (s.neighbours i)) i 0 c (s.neighbours i) started)) [
                  | inl (after, done) ↦
                      rw (on, e, dense, done, scan) (scan_active n (suc i) (suc c) after)
                  | inr (inl stopped) ↦ absurd (inner stopped)
                  | inr (inr empty) ↦ rw (on, e, dense, empty, scan) (λ h. absurd (cc))
                ]
        ]
      ]

  -- Where the context is never done and the neighbours of a point are points, no more than there
  -- are, the labelling gives labels.
  pub run_returns : IsNeighbourhood s → (labels : List Label) × (run s ≡ labelled labels)
  unfolding run
  run_returns near = elim (run_labels s near) [
    | inl stopped ↦ absurd (scan_active s.points 0 0 (unclassified_from s.points) stopped)
    | inr (labels, done, _, _) ↦ (labels, done)
  ]
