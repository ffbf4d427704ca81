-- ===== src/Cluster/Tests.antt =====
-- Runs of the labelling, and its theorems at a concrete search.
use geoverse_map_server.Base.{
  ℕ, zero, suc, get_or, ◌≤◌, ◌<◌, ◌≡◌, ◌⊎◌, refl, true, false, List, [], ◌∷◌, length, arith,
}
use geoverse_map_server.Cluster.{
  Label, noise, in_cluster, label_at, labelled, cancelled, Search, visit, expand, scan, run,
}
use geoverse_map_server.Cluster.Active.{run_returns}
use geoverse_map_server.Cluster.Expand.{is_sparse, IsNeighbourhood}
use geoverse_map_server.Cluster.Labels.{elem, is_clustered, is_noise, is_unclassified}
use geoverse_map_server.Cluster.Laws.{run_labels}

program : Unit {0}
unfolding visit expand scan run elem
program = tt

-- Three points in a row and one apart.
abbrev neighbours_of : ℕ → List ℕ
neighbours_of i = get_or ((0 ∷ 1 ∷ []) ∷ (0 ∷ 1 ∷ 2 ∷ []) ∷ (1 ∷ 2 ∷ []) ∷ (3 ∷ []) ∷ []) i []

abbrev search : Search
search = record {
  points = 4;
  neighbours = neighbours_of;
  min_points = 3;
  done_outside = λ i. false;
  done_inside = λ i k. false;
}

clusters : run search ≡ labelled (in_cluster 0 ∷ in_cluster 0 ∷ in_cluster 0 ∷ noise ∷ [])
unfolding program
clusters = refl

stopped : run (record search { done_outside = λ i. true }) ≡ cancelled
unfolding program
stopped = refl

few : (i : ℕ) → length (neighbours_of i) ≤ 4
few zero = omega arith
few (suc zero) = omega arith
few (suc (suc zero)) = omega arith
few (suc (suc (suc zero))) = omega arith
few (suc (suc (suc (suc i)))) = omega arith

inside : (i j : ℕ) → elem j (neighbours_of i) ≡ true → j < 4
unfolding elem
inside zero j h = ground arith
inside (suc zero) j h = ground arith
inside (suc (suc zero)) j h = ground arith
inside (suc (suc (suc zero))) j h = ground arith
inside (suc (suc (suc (suc i)))) j h = absurd (cc)

search-IsNeighbourhood : IsNeighbourhood search
search-IsNeighbourhood = record { few = few; inside = inside }

run_labels_example :
    (run search ≡ cancelled)
    ⊎ ((labels : List Label) × (run search ≡ labelled labels)
        × (length labels ≡ search.points)
        × ((i : ℕ)
            → i < search.points
            → (is_unclassified (label_at labels i) ≡ false)
              × (is_noise (label_at labels i) ≡ true → is_sparse search i ≡ true)
              × (is_sparse search i ≡ false
                  → (j : ℕ) → elem j (search.neighbours i) ≡ true
                  → (is_clustered (label_at labels i) ≡ true)
                    × (is_clustered (label_at labels j) ≡ true))))
run_labels_example = run_labels search search-IsNeighbourhood

run_returns_example : (labels : List Label) × (run search ≡ labelled labels)
run_returns_example = run_returns search ((λ i. refl), (λ i k. refl)) search-IsNeighbourhood
