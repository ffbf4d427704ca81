-- ===== src/Cluster/Labels.antt =====
-- Labels in a list, and the points that a list of labels leaves unclassified.
use geoverse_map_server.Base.{
  ℕ, zero, suc, ◌+◌, ◌≤◌, ◌<◌, ◌≡◌, refl, Bool, true, false, ◌||◌, List, [], ◌∷◌, ◌++◌, length, set,
  ◌==◌, arith, if◌then◌else◌,
}
use geoverse_map_server.Cluster.{
  Label, unclassified, noise, in_cluster, label_at, unclassified_from,
}

-- Whether a number stands in a list.
unfoldable pub elem : ℕ → List ℕ → Bool
elem j [] = false
elem j (k ∷ ks) = k == j || elem j ks

pub elem-append : (j : ℕ) (xs ys : List ℕ) → elem j (xs ++ ys) ≡ (elem j xs || elem j ys)
unfolding elem
elem-append j [] ys = refl
elem-append j (x ∷ xs) ys = ground (arith, elem-append j xs ys)

abbrev pub is_clustered : Label → Bool
is_clustered (in_cluster k) = true
is_clustered unclassified = false
is_clustered noise = false

abbrev pub is_noise : Label → Bool
is_noise noise = true
is_noise (in_cluster k) = false
is_noise unclassified = false

abbrev pub is_unclassified : Label → Bool
is_unclassified unclassified = true
is_unclassified (in_cluster k) = false
is_unclassified noise = false

pub label_at-set :
    (labels : List Label) (j i : ℕ) (v : Label)
    → j < length labels
    → label_at (set labels j v) i ≡ (if j == i then v else label_at labels i)
label_at-set [] j i v h = absurd (omega arith)
label_at-set (l ∷ labels) zero zero v h = refl
label_at-set (l ∷ labels) zero (suc i) v h = ground arith
label_at-set (l ∷ labels) (suc j) zero v h = ground arith
label_at-set (l ∷ labels) (suc j) (suc i) v h = ground (arith, label_at-set labels j i v)

-- How many points are unclassified.
unfoldable pub pending : List Label → ℕ
pending [] = 0
pending (l ∷ labels) = if is_unclassified l then suc (pending labels) else pending labels

pub pending-bound : (labels : List Label) → pending labels ≤ length labels
unfolding pending
pending-bound [] = omega arith
pending-bound (l ∷ labels) = ground (arith, pending-bound labels)

-- A label that is not `unclassified` takes a pending point away, and no other.
pub pending-set :
    (labels : List Label) (j : ℕ) (v : Label)
    → is_unclassified v ≡ false
    → j < length labels
    → pending labels
      ≡ pending (set labels j v) + (if is_unclassified (label_at labels j) then 1 else 0)
unfolding pending
pending-set [] j v h b = absurd (omega arith)
pending-set (l ∷ labels) zero v h b = ground arith
pending-set (l ∷ labels) (suc j) v h b = ground (arith, pending-set labels j v)

pub length-unclassified_from : (n : ℕ) → length (unclassified_from n) ≡ n
length-unclassified_from zero = refl
length-unclassified_from (suc n) = ground (arith, length-unclassified_from n)

pub label_at-unclassified_from : (n i : ℕ) → label_at (unclassified_from n) i ≡ unclassified
label_at-unclassified_from zero i = refl
label_at-unclassified_from (suc n) zero = refl
label_at-unclassified_from (suc n) (suc i) = label_at-unclassified_from n i
