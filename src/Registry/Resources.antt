-- ===== src/Registry/Resources.antt =====
-- What the registry owns: every source that it was given is closed once, by `Close` and by no other
-- operation, and a `Build` that fails closes what it had opened.
use mathlib.Core.List.{append-nil, append_assoc}
use geoverse_map_server.Base.{
  ℕ, ◌≡◌, inl, inr, refl, sym, ◌∙◌, List, [], ◌∷◌, ◌++◌, Option, none, some, arith, Option-cases,
  All, ◌≢◌,
}
use geoverse_map_server.Base.Lists.{
  Reordered, Reordered-refl, Reordered-sym, Reordered-append, Reordered-middle,
}
use geoverse_map_server.Base.Dict.{
  Dict, lookup, insert, delete, keys, values, UniqueKeys, delete-absent, absent_of-lookup,
  values-delete,
}
use geoverse_map_server.Base.Text.{Text, text_eq}
use geoverse_map_server.Registry.{
  SourceConfig, opened, failed, Backends, Registry, empty, replace, remove, prepend, sources_at,
  close, open_with_policies, build_from, build,
}
use geoverse_map_server.Registry.Invariant.{
  DistinctNames, IsValid, added-IsValid, replace_new, replace_old, remove_new, remove_old,
}
use geoverse_map_server.Registry.Build.{
  added, build_step, build_failed, Opened-cases, config_names, fresh_name, empty-IsValid,
}

-- The sources that are open: those in use and the retired ones.
abbrev pub handles : {S : Type 0} → Registry S → List S
handles r = values r.sources ++ r.retired

-- `sort.Strings` gives the same names in another order.
abbrev pub Reorders : (List Text → List Text) → Type 0
Reorders sort = (ns : List Text) → Reordered (sort ns) ns

module _ {S : Type 0} where
  sources_at-weaken :
      (k : Text) (v : S) (m : Dict Text S)
      → All (λ (e : Text × S). e.0 ≢ k) m
      → (ns : List Text) → All (λ (n : Text). n ≢ k) ns
      → sources_at ((k, v) ∷ m) ns ≡ sources_at m ns
  unfolding sources_at prepend lookup
  sources_at-weaken k v m h [] a = refl
  sources_at-weaken k v m h (n ∷ ns) a = ground (arith, a.0, sources_at-weaken k v m h ns a.1)

  keys-ne :
      (k : Text) (m : Dict Text S)
      → All (λ (e : Text × S). e.0 ≢ k) m
      → All (λ (n : Text). n ≢ k) (keys m)
  keys-ne k [] h = tt
  keys-ne k ((j, v) ∷ m) h = (h.0, keys-ne k m h.1)

  sources_at-keys : (m : Dict Text S) → UniqueKeys m → sources_at m (keys m) ≡ values m
  unfolding sources_at prepend lookup
  sources_at-keys [] u = refl
  sources_at-keys ((k, v) ∷ m) u =
      ground (arith, sources_at-weaken k v m u.0 (keys m) (keys-ne k m u.0), sources_at-keys m u.1)

  prepend-cons :
      (o : Option S) {xs ys : List S} → Reordered xs ys → Reordered (prepend o xs) (prepend o ys)
  unfolding prepend
  prepend-cons none p = p
  prepend-cons (some s) p = Reordered.cons s p

  prepend-swap :
      (o o' : Option S) (xs : List S)
      → Reordered (prepend o (prepend o' xs)) (prepend o' (prepend o xs))
  unfolding prepend
  prepend-swap none o' xs = Reordered-refl (prepend o' xs)
  prepend-swap (some s) none xs = Reordered-refl (s ∷ xs)
  prepend-swap (some s) (some s') xs = Reordered.swap s s' xs

  sources_at-Reordered :
      (m : Dict Text S) {ns ms : List Text}
      → Reordered ns ms
      → Reordered (sources_at m ns) (sources_at m ms)
  unfolding sources_at
  sources_at-Reordered m Reordered.nil = Reordered.nil
  sources_at-Reordered m (Reordered.cons n p) =
      prepend-cons (lookup text_eq n m) (sources_at-Reordered m p)
  sources_at-Reordered m (Reordered.swap x y xs) =
      prepend-swap (lookup text_eq x m) (lookup text_eq y m) (sources_at m xs)
  sources_at-Reordered m (Reordered.trans p q) =
      Reordered.trans (sources_at-Reordered m p) (sources_at-Reordered m q)

  -- Of a registry with no name twice, `Close` closes every open source once, and leaves none.
  pub close-Reordered :
      (sort : List Text → List Text) (r : Registry S)
      → Reorders sort
      → UniqueKeys r.sources
      → Reordered (close sort r).1 (handles r) × (handles (close sort r).0 ≡ [])
  unfolding close
  close-Reordered sort r sorts u = (
    Reordered-append r.retired (
        rw (sources_at-keys r.sources u) at
          (sources_at-Reordered r.sources (sorts (keys r.sources)))),
    refl,
  )

  -- A source that leaves the map and is retired stays open.
  retired-Reordered :
      (name : Text) (old : S) (r : Registry S)
      → UniqueKeys r.sources
      → lookup text_eq name r.sources ≡ some old
      → Reordered (values (delete text_eq name r.sources) ++ (r.retired ++ old ∷ [])) (handles r)
  retired-Reordered name old r u there =
      let rest = values (delete text_eq name r.sources) in
      let out = Reordered-append r.retired (values-delete text_eq name old r.sources u there) in
      let last = Reordered-middle old (rest ++ r.retired) [] in
      rw (← append_assoc rest r.retired (old ∷ []))
        (Reordered.trans (rw (append-nil (rest ++ r.retired)) at last) (Reordered-sym out))

  -- Of a valid registry, `Replace` closes nothing: what was open is open, with the new source.
  pub replace-Reordered :
      (name : Text) (s : S) (r : Registry S)
      → IsValid r
      → Reordered (handles (replace name s r)) (s ∷ handles r)
  unfolding insert
  replace-Reordered name s r v = elim (Option-cases (lookup text_eq name r.sources)) [
    | inl new ↦
        rw
          (
            replace_new r v name s new,
            delete-absent text_eq name r.sources (absent_of-lookup text_eq name r.sources new),
          )
          (Reordered-refl _)
    | inr (old, there) ↦
        rw (replace_old r v name s there)
          (Reordered.cons s (retired-Reordered name old r v.unique there))
  ]

  -- Of a valid registry, `Remove` closes nothing: what was open is open.
  pub remove-Reordered :
      (name : Text) (r : Registry S) → IsValid r → Reordered (handles (remove name r).0) (handles r)
  remove-Reordered name r v = elim (Option-cases (lookup text_eq name r.sources)) [
    | inl new ↦ rw (remove_new r v name new) (Reordered-refl _)
    | inr (old, there) ↦
        rw (remove_old r v name there) (retired-Reordered name old r v.unique there)
  ]

module _ (b : Backends) (sort : List Text → List Text) (assets db_policy : ℕ) where
  open b use {Source, Error}

  -- The sources that open, in order, up to the first that does not.
  pub opens : List SourceConfig → List Source
  opens [] = []
  opens (sc ∷ scs) = elim (open_with_policies b sc assets db_policy) [
    | failed e ↦ []
    | opened s ↦ s ∷ opens scs
  ]

  added-handles :
      (r : Registry Source) (name : Text) (s : Source)
      → lookup text_eq name r.sources ≡ none
      → handles (added b sort assets db_policy r name s) ≡ s ∷ handles r
  unfolding insert
  added-handles r name s new =
      rw (delete-absent text_eq name r.sources (absent_of-lookup text_eq name r.sources new))

  build_from-closed :
      (scs : List SourceConfig) (r : Registry Source) (e : Error) (closed : List Source)
      → Reorders sort
      → IsValid r
      → DistinctNames (r.order ++ config_names scs)
      → build_from b sort assets db_policy r scs ≡ failed (e, closed)
      → Reordered closed (opens scs ++ handles r)
  unfolding build_from opens
  build_from-closed [] r e closed sorts v d h = absurd (cc)
  build_from-closed (sc ∷ scs) r e closed sorts v d h =
      elim (Opened-cases (open_with_policies b sc assets db_policy)) [
        | inr (e', bad) ↦
            let stop = sym (build_failed b sort assets db_policy r sc scs e' bad) ∙ h in
            let same : (close sort r).1 ≡ closed = cc in
            rw (bad, opens, ← same) ((close-Reordered sort r sorts v.unique).0)
        | inl (s, good) ↦
            let fresh = fresh_name r sc.name (config_names scs) v d in
            let regroup = append_assoc r.order (sc.name ∷ []) (config_names scs) in
            let ih =
              build_from-closed scs (added b sort assets db_policy r sc.name s) e closed sorts
                (added-IsValid r v sc.name s fresh) (rw regroup d)
                (sym (build_step b sort assets db_policy r sc scs s good) ∙ h) in
            rw (good, opens)
              (Reordered.trans (rw (added-handles r sc.name s fresh) at ih)
                (Reordered-middle s (opens scs) (handles r)))
      ]

  -- For sources with distinct names, a `Build` that fails closes exactly the sources that it had
  -- opened, each once.
  pub build-closed :
      (scs : List SourceConfig) (e : Error) (closed : List Source)
      → Reorders sort
      → DistinctNames (config_names scs)
      → build b sort assets db_policy scs ≡ failed (e, closed)
      → Reordered closed (opens scs)
  unfolding build
  build-closed scs e closed sorts d h =
      rw (append-nil (opens scs)) at (build_from-closed scs empty e closed sorts empty-IsValid d h)
