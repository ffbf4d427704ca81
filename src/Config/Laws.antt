-- ===== src/Config/Laws.antt =====
-- What `Validate` accepts, and the registry that is built from it.
use geoverse_map_server.Base.{
  ℕ, ◌≡◌, inl, inr, refl, sym, true, false, List, [], ◌∷◌, map, ◌↔◌, arith, ◌∙◌, ap, ◌≤◌, ◌||◌,
}
use geoverse_map_server.Base.Dict.{lookup}
use geoverse_map_server.Base.Ints.{ℤ, pos, ltz}
use geoverse_map_server.Base.Lists.{All}
use geoverse_map_server.Base.Results.{ok, Result-cases}
use geoverse_map_server.Base.Strings.{is_empty, listed, has_prefix}
use geoverse_map_server.Base.Text.{Text, str, text_eq}
use geoverse_map_server.Config.{
  Config, Source, Network, check_parts, check_sources, check_networks, validate,
}
use geoverse_map_server.Config.Asset
use geoverse_map_server.Config.Loop.{
  IsSource, IsNetwork, source_names, network_names, check_sources_sound, check_sources_complete,
  check_networks_sound, check_networks_complete,
}
use geoverse_map_server.Registry.{Registry, SourceConfig, Backends, opened, build, names}
use geoverse_map_server.Registry.Build.{config_names, build-IsValid}
use geoverse_map_server.Registry.Invariant.{DistinctNames, is_some}
use geoverse_map_server.Registry.Invariant

-- What a configuration must be, part by part.
pub record IsConfig (c : Config) : Type 0 where
  pub assets : Asset.validate c.assets ≡ ok tt
  pub port : (n : ℕ) × (c.server.port ≡ pos n) × (1 ≤ n) × (n ≤ 65535)
  pub keys : c.auth.enabled ≡ true → is_empty c.auth.api_keys ≡ false
  pub disk : c.cache.disk.enabled ≡ true → is_empty c.cache.disk.dir ≡ false
  pub mcp : c.mcp.enabled ≡ true → has_prefix (str "/") c.mcp.path ≡ true
  pub some_source : is_empty c.sources ≡ false
  pub sources : All IsSource c.sources
  pub distinct : DistinctNames (source_names c.sources)
  pub networks : All (IsNetwork (source_names c.sources)) c.networks
  pub distinct_networks : DistinctNames (network_names c.networks)

-- The networks are judged alike by two lists of the same names.
sourced-by :
    (xs ys : List Text) (ns : List Network)
    → ((n : Text) → listed n xs ≡ listed n ys)
    → All (IsNetwork xs) ns
    → All (IsNetwork ys) ns
sourced-by xs ys [] same each = tt
sourced-by xs ys (n ∷ ns) same (here, each) = (
  record { named = here.named; sourced = sym (same n.source) ∙ here.sourced },
  sourced-by xs ys ns same each,
)

wrapped : (c : Config) → validate c ≡ ok tt → Asset.validate c.assets ≡ ok tt
unfolding validate
wrapped c h = elim (Result-cases (Asset.validate c.assets)) [
  | inl (tt, e) ↦ e
  | inr (e, bad) ↦ absurd (ground arith)
]

parts : (c : Config) → validate c ≡ ok tt → check_parts c ≡ ok tt
unfolding validate
parts c h =
    let good = wrapped c h in
    elim (Result-cases (check_parts c)) [ inl (tt, e) ↦ e | inr (e, bad) ↦ absurd (ground arith) ]

loops :
    (c : Config)
    → validate c ≡ ok tt
    → (seen : List Text) × (check_sources 0 [] c.sources ≡ ok seen)
      × (check_networks 0 seen [] c.networks ≡ ok tt)
unfolding validate
loops c h =
    let good = wrapped c h in
    let fine = parts c h in
    elim (Result-cases (check_sources 0 [] c.sources)) [
      | inl (seen, e) ↦ (seen, e, ground arith)
      | inr (e, bad) ↦ absurd (ground arith)
    ]

port-cases :
    (z : ℤ)
    → (ltz z (pos 1) || ltz (pos 65535) z) ≡ false
    → (n : ℕ) × (z ≡ pos n) × (1 ≤ n) × (n ≤ 65535)
port-cases (pos n) h = (n, refl, ground arith, ground arith)
port-cases (ℤ.negsuc n) h = absurd (ground arith)

validate-IsConfig : (c : Config) → validate c ≡ ok tt → IsConfig c
unfolding check_parts listed
validate-IsConfig c h =
    let fine = parts c h in
    let (seen, first, second) = loops c h in
    let (each, distinct, _, adds) = check_sources_sound c.sources 0 [] seen first in
    let (nets, alone, _) = check_networks_sound seen c.networks 0 [] second in
    record {
      assets = wrapped c h;
      port = port-cases c.server.port (ground arith);
      keys = ground arith;
      disk = ground arith;
      mcp = ground arith;
      some_source = ground arith;
      sources = each;
      distinct = distinct;
      networks =
          sourced-by seen (source_names c.sources) c.networks (λ n. ground (arith, adds n)) nets;
      distinct_networks = alone;
    }

IsConfig-validate : (c : Config) → IsConfig c → validate c ≡ ok tt
unfolding validate check_parts listed
IsConfig-validate c v =
    let apart : (n : Text) → listed n (source_names c.sources) ≡ true → listed n [] ≡ false =
      λ n _. refl in
    let (seen, first) = check_sources_complete c.sources 0 [] v.sources v.distinct apart in
    let (_, _, _, adds) = check_sources_sound c.sources 0 [] seen first in
    let nets =
      sourced-by (source_names c.sources) seen c.networks (λ n. ground (arith, adds n))
        v.networks in
    let second =
      check_networks_complete seen c.networks 0 [] nets v.distinct_networks (λ n _. refl) in
    let (n, port, low, high) = v.port in
    ground (arith, v.assets, v.keys, v.disk, v.mcp, v.some_source)

-- `Validate` accepts a configuration exactly if every part of it is as it must be: the asset policy
-- is valid, the port is from 1 to 65535, the keys, directory and path that are switched on are
-- there, there is a source, each source has what its type needs, each network names a configured
-- source, and no name stands twice.
pub validate_iff : (c : Config) → (validate c ≡ ok tt) ↔ IsConfig c
validate_iff c = (validate-IsConfig c, IsConfig-validate c)

-- What the registry reads of a source.
abbrev pub registered : Source → SourceConfig
registered s = record { name = s.name; kind = s.kind; asset_policy = 0; db_policy = 0 }

config_names-registered : (ss : List Source) → config_names (map registered ss) ≡ source_names ss
config_names-registered [] = refl
config_names-registered (s ∷ ss) = ap (λ ns. s.name ∷ ns) (config_names-registered ss)

sourced-names :
    {S : Type 0} (r : Registry S) (ns : List Network)
    → Invariant.IsValid r
    → All (IsNetwork (names r)) ns
    → All (λ (n : Network). is_some (lookup text_eq n.source r.sources) ≡ true) ns
unfolding names
sourced-names r [] v each = tt
sourced-names r (n ∷ ns) v (here, each) =
    (sym (v.agree n.source) ∙ here.sourced, sourced-names r ns v each)

module _ (b : Backends) (sort : List Text → List Text) (assets db_policy : ℕ) where
  -- A registry built from a configuration that `Validate` accepts is valid, lists the sources in
  -- the configuration's order, and has the source of every configured network.
  pub build-validate :
      (c : Config) {r : Registry b.Source}
      → validate c ≡ ok tt
      → build b sort assets db_policy (map registered c.sources) ≡ opened r
      → Invariant.IsValid r
        × (names r ≡ source_names c.sources)
        × All (λ (n : Network). is_some (lookup text_eq n.source r.sources) ≡ true) c.networks
  build-validate c {r} h built =
      let v = validate-IsConfig c h in
      let named = config_names-registered c.sources in
      let (valid, order) =
        build-IsValid b sort assets db_policy (map registered c.sources) (rw named (v.distinct))
          built in
      let listing = order ∙ named in
      (valid, listing, sourced-names r c.networks valid (rw listing (v.networks)))
