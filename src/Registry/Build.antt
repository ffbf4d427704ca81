-- ===== src/Registry/Build.antt =====
-- `Build`: the registry of a configuration, and the sources closed where one cannot be opened.
use mathlib.Core.List.{append-nil, append_assoc}
use geoverse_map_server.Base.{
  ℕ, ◌≡◌, ◌⊎◌, inl, inr, refl, sym, ◌∙◌, true, false, List, [], ◌∷◌, ◌++◌, none, arith, map,
}
use geoverse_map_server.Base.Dict.{lookup, insert}
use geoverse_map_server.Base.Text.{Text, text_eq}
use geoverse_map_server.Registry.{
  SourceConfig, Opened, opened, failed, Backends, Registry, empty, names, open_with_policies,
  build_from, build, close,
}
use geoverse_map_server.Registry.Invariant.{listed, DistinctNames, IsValid, added-IsValid}

-- The names of the configured sources.
abbrev pub config_names : List SourceConfig → List Text
config_names = map (λ sc. sc.name)

pub Opened-cases :
    {S E : Type 0} (o : Opened S E) → ((s : S) × (o ≡ opened s)) ⊎ ((e : E) × (o ≡ failed e))
Opened-cases (opened s) = inl (s, refl)
Opened-cases (failed e) = inr (e, refl)

listed-in : (n : Text) (xs ys : List Text) → listed n (xs ++ n ∷ ys) ≡ true
unfolding listed
listed-in n [] ys = ground arith
listed-in n (x ∷ xs) ys = ground (arith, listed-in n xs ys)

-- Of a list with no name twice, a name in the middle does not stand before.
listed-middle : (n : Text) (xs ys : List Text) → DistinctNames (xs ++ n ∷ ys) → listed n xs ≡ false
unfolding listed
listed-middle n [] ys d = refl
listed-middle n (x ∷ xs) ys d = ground (arith, d.0, listed-in n xs ys, listed-middle n xs ys d.1)

-- A name that follows in such a list has no source yet.
pub fresh_name :
    {S : Type 0} (r : Registry S) (n : Text) (ns : List Text)
    → IsValid r
    → DistinctNames (r.order ++ n ∷ ns)
    → lookup text_eq n r.sources ≡ none
fresh_name r n ns v d = ground (arith, v.agree n, listed-middle n r.order ns d)

pub empty-IsValid : {S : Type 0} → IsValid (empty {S = S})
unfolding lookup listed
empty-IsValid = record { unique = tt; distinct = tt; agree = λ n. refl }

module _ (b : Backends) (sort : List Text → List Text) (assets db_policy : ℕ) where
  open b use {Source, Error}

  -- The registry with one more source, as the loop of `Build` makes it.
  abbrev pub added : Registry Source → Text → Source → Registry Source
  added r name s = record r {
    sources = insert text_eq name s r.sources;
    order = r.order ++ name ∷ [];
  }

  pub build_step :
      (r : Registry Source) (sc : SourceConfig) (scs : List SourceConfig) (s : Source)
      → open_with_policies b sc assets db_policy ≡ opened s
      → build_from b sort assets db_policy r (sc ∷ scs)
        ≡ build_from b sort assets db_policy (added r sc.name s) scs
  unfolding build_from
  build_step r sc scs s h = rw (h, build_from)

  pub build_failed :
      (r : Registry Source) (sc : SourceConfig) (scs : List SourceConfig) (e : Error)
      → open_with_policies b sc assets db_policy ≡ failed e
      → build_from b sort assets db_policy r (sc ∷ scs) ≡ failed (e, (close sort r).1)
  unfolding build_from
  build_failed r sc scs e h = rw (h, build_from)

  build_from-IsValid :
      (scs : List SourceConfig) (r r' : Registry Source)
      → IsValid r
      → DistinctNames (r.order ++ config_names scs)
      → build_from b sort assets db_policy r scs ≡ opened r'
      → IsValid r' × (names r' ≡ names r ++ config_names scs)
  unfolding build_from names
  build_from-IsValid [] r r' v d h =
      let same : r ≡ r' = cc in rw (← same) (v, sym (append-nil (r.order)))
  build_from-IsValid (sc ∷ scs) r r' v d h =
      elim (Opened-cases (open_with_policies b sc assets db_policy)) [
        | inr (e, bad) ↦ absurd (ground arith)
        | inl (s, good) ↦
            let fresh = fresh_name r sc.name (config_names scs) v d in
            let regroup = append_assoc r.order (sc.name ∷ []) (config_names scs) in
            let (v', e) =
              build_from-IsValid scs (added r sc.name s) r' (added-IsValid r v sc.name s fresh)
                (rw regroup d) (sym (build_step r sc scs s good) ∙ h) in
            (v', e ∙ regroup)
      ]

  -- A registry that is built from sources with distinct names is valid, and lists the names in the
  -- order of the configuration.
  pub build-IsValid :
      (scs : List SourceConfig) {r : Registry Source}
      → DistinctNames (config_names scs)
      → build b sort assets db_policy scs ≡ opened r
      → IsValid r × (names r ≡ config_names scs)
  unfolding build names
  build-IsValid scs {r} d h = build_from-IsValid scs empty r empty-IsValid d h
