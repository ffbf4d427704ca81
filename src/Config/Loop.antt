-- ===== src/Config/Loop.antt =====
-- The loops of `Validate` over the sources and the networks, and the names that they have seen.
use geoverse_map_server.Base.{
  ℕ, suc, ◌≡◌, inl, inr, refl, true, false, List, [], ◌∷◌, map, ◌↔◌, arith, ◌||◌, Bool-cases,
}
use geoverse_map_server.Base.Lists.{All}
use geoverse_map_server.Base.Results.{ok}
use geoverse_map_server.Base.Strings.{same, is_empty, listed, has_prefix}
use geoverse_map_server.Base.Text.{Text, str}
use geoverse_map_server.Config.{
  Source, Network, is_name, is_database, is_file, crossed, check_source, check_sources,
  check_networks,
}
use geoverse_map_server.Registry.Invariant.{DistinctNames}

-- What a source must be by its type, apart from the others.
pub record IsSource (s : Source) : Type 0 where
  pub named : is_name s.name ≡ true
  pub known : (is_database s.kind || is_file s.kind) ≡ true
  pub database : is_database s.kind ≡ true → (is_empty s.dsn ≡ false) × (is_empty s.table ≡ false)
  pub scheme :
      is_database s.kind ≡ true
      → same s.kind (str "mysql") ≡ true
      → has_prefix (str "mysql://") s.dsn ≡ true
  pub file : is_database s.kind ≡ false → is_empty s.path ≡ false
  pub ordered : crossed s.min_zoom s.max_zoom ≡ false

-- What a network must be: a name, and a source that is configured.
pub record IsNetwork (sources : List Text) (n : Network) : Type 0 where
  pub named : is_name n.name ≡ true
  pub sourced : listed n.source sources ≡ true

abbrev pub source_names : List Source → List Text
source_names = map (λ s. s.name)

abbrev pub network_names : List Network → List Text
network_names = map (λ n. n.name)

-- No text of the first list stands in the second.
abbrev pub Apart : List Text → List Text → Type 0
Apart ns seen = (n : Text) → listed n ns ≡ true → listed n seen ≡ false

check_source_iff : (s : Source) → is_name s.name ≡ true → (check_source s ≡ ok tt) ↔ IsSource s
unfolding check_source
check_source_iff s named = (
  λ h. record {
    named = named;
    known = ground arith;
    database = ground arith;
    scheme = ground arith;
    file = ground arith;
    ordered = ground arith;
  },
  λ v. ground (arith, v.known, v.database, v.scheme, v.file, v.ordered),
)

Apart-cons :
    (n : Text) (ns seen : List Text)
    → Apart (n ∷ ns) seen ↔ ((listed n seen ≡ false) × Apart ns seen)
unfolding listed
Apart-cons n ns seen =
    (λ a. (a n (ground arith), λ m h. a m (ground arith)), λ (fresh, a) m h. ground (arith, a m))

-- The names seen at the end are those of the list and those seen before it.
abbrev pub Adds : List Text → List Text → List Text → Type 0
Adds ns seen out = (n : Text) → listed n out ≡ (listed n ns || listed n seen)

Apart-seen :
    (n : Text) (ns seen : List Text)
    → (Apart ns (n ∷ seen) × (listed n seen ≡ false))
      ↔ ((listed n ns ≡ false) × Apart (n ∷ ns) seen)
unfolding listed
Apart-seen n ns seen = (
  λ (a, fresh). (
    elim (Bool-cases (listed n ns)) [ inl t ↦ ground (arith, a n t) | inr f ↦ f ],
    λ m h. ground (arith, a m, fresh),
  ),
  λ (d, a). (λ m h. ground (arith, a m, d), a n (ground arith)),
)

Adds-cons : (n : Text) (ns seen out : List Text) → Adds ns (n ∷ seen) out → Adds (n ∷ ns) seen out
unfolding listed
Adds-cons n ns seen out adds m = ground (arith, adds m)

-- A success of the loop: the first source passes, and the loop goes on.
check_sources-step :
    (i : ℕ) (seen out : List Text) (s : Source) (ss : List Source)
    → check_sources i seen (s ∷ ss) ≡ ok out
    → (is_name s.name ≡ true)
      × (listed s.name seen ≡ false)
      × (check_source s ≡ ok tt)
      × (check_sources (suc i) (s.name ∷ seen) ss ≡ ok out)
unfolding check_sources is_name
check_sources-step i seen out s ss h = ground arith

pub check_sources_sound :
    (ss : List Source) (i : ℕ) (seen out : List Text)
    → check_sources i seen ss ≡ ok out
    → All IsSource ss
      × DistinctNames (source_names ss)
      × Apart (source_names ss) seen
      × Adds (source_names ss) seen out
unfolding check_sources listed
check_sources_sound [] i seen out h = (tt, tt, λ n no. absurd (cc), λ n. ground arith)
check_sources_sound (s ∷ ss) i seen out h =
    let (named, fresh, passed, rest) = check_sources-step i seen out s ss h in
    let (each, distinct, apart, adds) = check_sources_sound ss (suc i) (s.name ∷ seen) out rest in
    let (absent, apart') = (Apart-seen s.name (source_names ss) seen).0 (apart, fresh) in
    (
      ((check_source_iff s named).0 passed, each),
      (absent, distinct),
      apart',
      Adds-cons s.name (source_names ss) seen out adds,
    )

pub check_sources_complete :
    (ss : List Source) (i : ℕ) (seen : List Text)
    → All IsSource ss
    → DistinctNames (source_names ss)
    → Apart (source_names ss) seen
    → (out : List Text) × (check_sources i seen ss ≡ ok out)
unfolding check_sources is_name
check_sources_complete [] i seen each distinct apart = (seen, refl)
check_sources_complete (s ∷ ss) i seen (here, each) (absent, distinct) apart =
    let (apart', fresh) = (Apart-seen s.name (source_names ss) seen).1 (absent, apart) in
    let (out, rest) = check_sources_complete ss (suc i) (s.name ∷ seen) each distinct apart' in
    let passed = (check_source_iff s here.named).1 here in (out, ground (arith, here.named))

module _ (sources : List Text) where
  pub check_networks_sound :
      (ns : List Network) (i : ℕ) (seen : List Text)
      → check_networks i sources seen ns ≡ ok tt
      → All (IsNetwork sources) ns
        × DistinctNames (network_names ns)
        × Apart (network_names ns) seen
  unfolding check_networks listed
  check_networks_sound [] i seen h = (tt, tt, λ n no. absurd (cc))
  check_networks_sound (n ∷ ns) i seen h =
      let ih = check_networks_sound ns (suc i) (n.name ∷ seen) (ground arith) in
      let (absent, apart) = (Apart-seen n.name (network_names ns) seen).0 (ih.2, ground arith) in
      ((record { named = ground arith; sourced = ground arith }, ih.0), (absent, ih.1), apart)

  pub check_networks_complete :
      (ns : List Network) (i : ℕ) (seen : List Text)
      → All (IsNetwork sources) ns
      → DistinctNames (network_names ns)
      → Apart (network_names ns) seen
      → check_networks i sources seen ns ≡ ok tt
  unfolding check_networks is_name
  check_networks_complete [] i seen each distinct apart = refl
  check_networks_complete (n ∷ ns) i seen (here, each) (absent, distinct) apart =
      let (apart', fresh) = (Apart-seen n.name (network_names ns) seen).1 (absent, apart) in
      let rest = check_networks_complete ns (suc i) (n.name ∷ seen) each distinct apart' in
      ground (arith, here.named, here.sourced)
