-- ===== src/Base/Dict.antt =====
-- Go maps as association lists, over keys with a decidable equality. A `range` over a map has no
-- fixed order, so no theorem may depend on the order of the entries.
use mathlib.Core.Path.{◌≡◌, refl}
use mathlib.Core.List.{List, [], ◌∷◌, map}
use mathlib.Core.Logic.{ite, if_pos, if_neg, ◌≢◌}
use mathlib.Core.Option.{Option, none, some}
use native.Mathlib.Omega.{arith}
use geoverse_map_server.Base.Lists.{All, Reordered, Reordered-refl}

abbrev pub Dict {ℓ} : Type ℓ → Type ℓ → Type ℓ
Dict K V = List (K × V)

module _ {ℓ} {K V : Type ℓ} (dec : Discrete K) where
  -- `m[k]`
  unfoldable pub lookup : K → Dict K V → Option V
  lookup k [] = none
  lookup k ((j, v) ∷ m) = ite (dec j k) (some v) (lookup k m)

  -- `delete(m, k)`
  unfoldable pub delete : K → Dict K V → Dict K V
  delete k [] = []
  delete k ((j, v) ∷ m) = let rest = delete k m in ite (dec j k) rest ((j, v) ∷ rest)

  -- `m[k] = v`
  unfoldable pub insert : K → V → Dict K V → Dict K V
  insert k v m = (k, v) ∷ delete k m

  pub lookup-delete :
      (k j : K) (m : Dict K V) → lookup j (delete k m) ≡ ite (dec k j) none (lookup j m)
  unfolding lookup delete
  lookup-delete k j [] = ground arith
  lookup-delete k j ((i, v) ∷ m) = ground (arith, lookup-delete k j m)

  pub lookup-insert :
      (k j : K) (v : V) (m : Dict K V)
      → lookup j (insert k v m) ≡ ite (dec k j) (some v) (lookup j m)
  unfolding lookup insert
  lookup-insert k j v m = ground (arith, lookup-delete k j m)

module _ {ℓ} {K V : Type ℓ} where
  abbrev pub keys : Dict K V → List K
  keys = map (λ e. e.0)

  abbrev pub values : Dict K V → List V
  values = map (λ e. e.1)

  -- No key stands twice.
  abbrev pub UniqueKeys : Dict K V → Type ℓ
  UniqueKeys [] = Unit
  UniqueKeys ((k, v) ∷ m) = All (λ (e : K × V). e.0 ≢ k) m × UniqueKeys m

module _ {ℓ} {K V : Type ℓ} (dec : Discrete K) where
  pub delete-absent : (k : K) (m : Dict K V) → All (λ (e : K × V). e.0 ≢ k) m → delete dec k m ≡ m
  unfolding delete
  delete-absent k [] h = refl
  delete-absent k ((j, v) ∷ m) h = ground (arith, h.0, delete-absent k m h.1)

  pub lookup-absent :
      (k : K) (m : Dict K V) → All (λ (e : K × V). e.0 ≢ k) m → lookup dec k m ≡ none
  unfolding lookup
  lookup-absent k [] h = refl
  lookup-absent k ((j, v) ∷ m) h = ground (arith, h.0, lookup-absent k m h.1)

  pub absent_of-lookup :
      (k : K) (m : Dict K V) → lookup dec k m ≡ none → All (λ (e : K × V). e.0 ≢ k) m
  unfolding lookup
  absent_of-lookup k [] h = tt
  absent_of-lookup k ((j, v) ∷ m) h = elim (dec j k) [
    | yes e ↦ absurd (ground arith)
    | no n ↦ (n, absent_of-lookup k m (ground arith))
  ]

  pub ne-delete :
      (k j : K) (m : Dict K V)
      → All (λ (e : K × V). e.0 ≢ j) m
      → All (λ (e : K × V). e.0 ≢ j) (delete dec k m)
  unfolding delete
  ne-delete k j [] h = tt
  ne-delete k j ((i, v) ∷ m) h = elim (dec i k) [
    | yes e ↦ rw (if_pos _ e) (ne-delete k j m h.1)
    | no n ↦ rw (if_neg _ n) (h.0, ne-delete k j m h.1)
  ]

  pub delete-ne : (k : K) (m : Dict K V) → All (λ (e : K × V). e.0 ≢ k) (delete dec k m)
  unfolding delete
  delete-ne k [] = tt
  delete-ne k ((i, v) ∷ m) = elim (dec i k) [
    | yes e ↦ rw (if_pos _ e) (delete-ne k m)
    | no n ↦ rw (if_neg _ n) (n, delete-ne k m)
  ]

  pub delete-UniqueKeys : (k : K) (m : Dict K V) → UniqueKeys m → UniqueKeys (delete dec k m)
  unfolding delete
  delete-UniqueKeys k [] u = tt
  delete-UniqueKeys k ((i, v) ∷ m) u = elim (dec i k) [
    | yes e ↦ rw (if_pos _ e) (delete-UniqueKeys k m u.1)
    | no n ↦ rw (if_neg _ n) (ne-delete k i m u.0, delete-UniqueKeys k m u.1)
  ]

  pub insert-UniqueKeys :
      (k : K) (v : V) (m : Dict K V) → UniqueKeys m → UniqueKeys (insert dec k v m)
  unfolding insert
  insert-UniqueKeys k v m u = (delete-ne k m, delete-UniqueKeys k m u)

  -- A deletion takes one value out.
  pub values-delete :
      (k : K) (v : V) (m : Dict K V)
      → UniqueKeys m
      → lookup dec k m ≡ some v
      → Reordered (values m) (v ∷ values (delete dec k m))
  unfolding lookup delete
  values-delete k v [] u h = absurd (cc)
  values-delete k v ((i, w) ∷ m) u h = elim (dec i k) [
    | yes e ↦
        let same : w ≡ v = ground arith in
        let gone : delete dec k m ≡ m = delete-absent k m (rw e at (u.0)) in
        rw (if_pos _ e, gone, same) (Reordered-refl (v ∷ values m))
    | no n ↦
        let ih = values-delete k v m u.1 (ground arith) in
        rw (if_neg _ n)
          (Reordered.trans (Reordered.cons w ih) (Reordered.swap w v (values (delete dec k m))))
  ]
