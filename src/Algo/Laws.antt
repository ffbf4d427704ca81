-- ===== src/Algo/Laws.antt =====
-- The registry of algorithms is valid through every registration, and its description is complete.
use mathlib.Core.List.{append-nil, append_assoc}
use geoverse_map_server.Base.{
  ◌≡◌, inl, inr, refl, sym, ap, List, [], ◌∷◌, ◌++◌, none, some, arith, map, Option-cases,
}
use geoverse_map_server.Base.Dict.{Dict, lookup, insert, lookup-insert}
use geoverse_map_server.Base.Lists.{All}
use geoverse_map_server.Base.Text.{Text, text_eq}
use geoverse_map_server.Algo.{
  Descriptor, Algorithm, Registry, register, register_all, new_registry, get, names, describe_from,
  describe,
}

-- The descriptors of a list of algorithms.
abbrev pub descriptors : List Algorithm → List Descriptor
descriptors = map (λ a. a.describe)

abbrev pub algorithm_names : List Algorithm → List Text
algorithm_names = map (λ a. a.describe.name)

-- A registry holds algorithms: their names are its order, and each stands under its name.
pub record Holds (done : List Algorithm) (r : Registry) : Type 0 where
  pub order : r.order ≡ algorithm_names done
  pub found : All (λ (a : Algorithm). lookup text_eq a.describe.name r.algos ≡ some a) done

names-append :
    (done : List Algorithm) (a : Algorithm)
    → algorithm_names (done ++ a ∷ []) ≡ algorithm_names done ++ a.describe.name ∷ []
names-append [] a = refl
names-append (b ∷ done) a = ap (λ ns. b.describe.name ∷ ns) (names-append done a)

found-insert :
    (m : Dict Text Algorithm) (a : Algorithm) (done : List Algorithm)
    → lookup text_eq a.describe.name m ≡ none
    → All (λ (b : Algorithm). lookup text_eq b.describe.name m ≡ some b) done
    → All
        (λ (b : Algorithm).
          lookup text_eq b.describe.name (insert text_eq a.describe.name a m) ≡ some b)
        (done ++ a ∷ [])
found-insert m a [] new found =
    (ground (arith, lookup-insert text_eq a.describe.name a.describe.name a m), tt)
found-insert m a (b ∷ done) new (here, found) = (
  ground (arith, lookup-insert text_eq a.describe.name b.describe.name a m),
  found-insert m a done new found,
)

register-Holds :
    (done : List Algorithm) (a : Algorithm) (r r' : Registry)
    → Holds done r
    → register a r ≡ some r'
    → Holds (done ++ a ∷ []) r'
unfolding register
register-Holds done a r r' h e = elim (Option-cases (lookup text_eq a.describe.name r.algos)) [
  | inr (dup, there) ↦ absurd (ground arith)
  | inl new ↦
      let same : record {
        algos = insert text_eq a.describe.name a r.algos;
        order = r.order ++ a.describe.name ∷ [];
      }
          ≡ r' =
        ground arith in
      rw (← same) (record {
        order = rw h.order (sym (names-append done a));
        found = found-insert r.algos a done new h.found;
      })
]

register_all-Holds :
    (done more : List Algorithm) (r r' : Registry)
    → Holds done r
    → register_all more r ≡ some r'
    → Holds (done ++ more) r'
unfolding register_all
register_all-Holds done [] r r' h e =
    let same : r ≡ r' = ground arith in rw (append-nil done, ← same) h
register_all-Holds done (a ∷ more) r r' h e = elim (Option-cases (register a r)) [
  | inl bad ↦ absurd (ground arith)
  | inr (next, good) ↦
      let rest =
        register_all-Holds (done ++ a ∷ []) more next r' (register-Holds done a r next h good)
          (ground arith) in
      rw (append_assoc done (a ∷ []) more) at rest
]

describe_from-found :
    (m : Dict Text Algorithm) (done : List Algorithm)
    → All (λ (a : Algorithm). lookup text_eq a.describe.name m ≡ some a) done
    → describe_from m (algorithm_names done) ≡ some (descriptors done)
unfolding describe_from
describe_from-found m [] found = refl
describe_from-found m (a ∷ done) (here, found) = ground (arith, describe_from-found m done found)

-- A registry made of registrations that do not panic describes exactly the algorithms that were
-- registered, in order and without a panic, names them so, and finds each under its name.
pub describe-register_all :
    (done : List Algorithm) (r : Registry)
    → register_all done new_registry ≡ some r
    → (describe r ≡ some (descriptors done))
      × (names r ≡ algorithm_names done)
      × All (λ (a : Algorithm). get a.describe.name r ≡ some a) done
unfolding describe names get
describe-register_all done r e =
    let h = register_all-Holds [] done new_registry r (record { order = refl; found = tt }) e in
    (rw h.order (describe_from-found r.algos done h.found), h.order, h.found)
