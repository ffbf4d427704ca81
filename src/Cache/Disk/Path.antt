-- ===== src/Cache/Disk/Path.antt =====
-- The map from cache keys to files (`path` of internal/cache/disk.go). A key is split at its
-- slashes; each segment has to match the expression `^[A-Za-z0-9_.-]+$` and be neither `.` nor
-- `..`. The path is the list of segments below the cache directory; `none` is the empty string.
use geoverse_map_server.Base.{
  ℕ, ◌≡◌, ◌≢◌, refl, sym, ap, ◌∙◌, Bool, true, false, ◌&&◌, ◌||◌, List, [], ◌∷◌, ◌++◌, Option, none,
  some, ite, leb, ◌==◌, if◌then◌else◌, All, arith, ℕ_discrete, Bool-cases, inl, inr,
}
use geoverse_map_server.Base.Strings.{has_prefix}
use geoverse_map_server.Base.Text.{Text, str, text_eq}

abbrev pub FilePath : Type 0
FilePath = List Text

unfoldable pub path_eq : Discrete FilePath
unfolding text_eq
path_eq = hlevel ℕ_discrete

abbrev slash : ℕ
slash = b'/'

-- `strings.Split(key, "/")`
unfoldable pub split : Text → List Text
split [] = [] ∷ []
split (c ∷ key) = elim (split key) [
  | [] ↦ (c ∷ []) ∷ []
  | seg ∷ segs ↦ if c == slash then [] ∷ seg ∷ segs else (c ∷ seg) ∷ segs
]

-- The character class of `keySegRe`.
is_safe_byte : ℕ → Bool
is_safe_byte c =
    leb b'A' c && leb c b'Z'
    || leb b'a' c && leb c b'z'
    || leb b'0' c && leb c b'9'
    || c == b'_'
    || c == b'.'
    || c == b'-'

all_safe : Text → Bool
unfolding is_safe_byte
all_safe [] = true
all_safe (c ∷ seg) = is_safe_byte c && all_safe seg

-- `keySegRe.MatchString`
matches : Text → Bool
unfolding all_safe
matches [] = false
matches (c ∷ seg) = all_safe (c ∷ seg)

is_safe : Text → Bool
unfolding matches
is_safe seg = ite (text_eq seg (str ".")) false (ite (text_eq seg (str "..")) false (matches seg))

all_segs : List Text → Bool
unfolding is_safe
all_segs [] = true
all_segs (seg ∷ segs) = is_safe seg && all_segs segs

-- `path`
unfoldable pub key_path : Text → Option FilePath
unfolding split all_segs
key_path key = let segs = split key in if all_segs segs then some segs else none

-- The directory of a path, and whether its last segment begins with `.tmp-`.
unfoldable pub parent : FilePath → FilePath
parent [] = []
parent (seg ∷ []) = []
parent (seg ∷ seg' ∷ segs) = seg ∷ parent (seg' ∷ segs)

unfoldable pub is_temp : FilePath → Bool
is_temp [] = false
is_temp (seg ∷ []) = has_prefix (str ".tmp-") seg
is_temp (seg ∷ seg' ∷ segs) = is_temp (seg' ∷ segs)

-- The key that a list of segments spells.
unfoldable pub join : List Text → Text
join [] = []
join (seg ∷ []) = seg
join (seg ∷ seg' ∷ segs) = seg ++ slash ∷ join (seg' ∷ segs)

-- A segment that names a file below its directory, and no other place.
pub record IsSegment (seg : Text) : Type 0 where
  pub nonempty : seg ≢ []
  pub not_dot : seg ≢ str "."
  pub not_dot_dot : seg ≢ str ".."
  pub no_slash : All (λ c. c ≢ slash) seg

split-ne-nil : (key : Text) → (seg : Text) × (segs : List Text) × (split key ≡ seg ∷ segs)
unfolding split
split-ne-nil [] = ([], [], refl)
split-ne-nil (c ∷ key) =
    let (seg, segs, e) = split-ne-nil key in
    elim (Bool-cases (c == slash)) [
      | inl here ↦ ([], seg ∷ segs, rw (e, split, here))
      | inr other ↦ (c ∷ seg, segs, rw (e, split, other))
    ]

join-cons :
    (c : ℕ) (seg : Text) (segs : List Text) → join ((c ∷ seg) ∷ segs) ≡ c ∷ join (seg ∷ segs)
unfolding join
join-cons c seg [] = refl
join-cons c seg (s ∷ segs) = refl

-- Splitting loses nothing.
join-split : (key : Text) → join (split key) ≡ key
unfolding split join
join-split [] = refl
join-split (c ∷ key) =
    let (seg, segs, e) = split-ne-nil key in
    let ih : join (seg ∷ segs) ≡ key = rw e at (join-split key) in
    elim (Bool-cases (c == slash)) [
      | inl here ↦ rw (e, split, here) (ground (arith, ih))
      | inr other ↦ rw (e, split, other) (join-cons c seg segs ∙ ap (◌∷◌ c) ih)
    ]

all_safe-no_slash : (seg : Text) → all_safe seg ≡ true → All (λ c. c ≢ slash) seg
unfolding all_safe
all_safe-no_slash [] h = tt
all_safe-no_slash (c ∷ seg) h = (ground arith, all_safe-no_slash seg (ground arith))

matches-no_slash : (seg : Text) → matches seg ≡ true → (seg ≢ []) × All (λ c. c ≢ slash) seg
unfolding matches
matches-no_slash [] h = absurd (ground arith)
matches-no_slash (c ∷ seg) h = (ground arith, all_safe-no_slash (c ∷ seg) h)

is_safe-IsSegment : (seg : Text) → is_safe seg ≡ true → IsSegment seg
unfolding is_safe
is_safe-IsSegment seg h =
    let fits : matches seg ≡ true = ground arith in
    record {
      nonempty = (matches-no_slash seg fits).0;
      not_dot = ground arith;
      not_dot_dot = ground arith;
      no_slash = (matches-no_slash seg fits).1;
    }

all_segs-All : (segs : List Text) → all_segs segs ≡ true → All IsSegment segs
unfolding all_segs
all_segs-All [] h = tt
all_segs-All (seg ∷ segs) h =
    (is_safe-IsSegment seg (ground arith), all_segs-All segs (ground arith))

-- A key that has a path names a file below the cache directory: each segment of the path is
-- neither empty nor `.` nor `..`, holds no slash, and the segments spell the key.
pub key_path-IsSegment :
    (key : Text) {p : FilePath}
    → key_path key ≡ some p
    → (p ≢ []) × All IsSegment p × (join p ≡ key)
unfolding key_path
key_path-IsSegment key {p} h =
    let same : split key ≡ p = ground arith in
    let safe : all_segs (split key) ≡ true = ground arith in
    let (seg, segs, e) = split-ne-nil key in
    (ground arith, rw same at (all_segs-All (split key) safe), rw same at (join-split key))

-- Distinct keys have distinct files.
pub key_path-injective :
    (key key' : Text) {p : FilePath} → key_path key ≡ some p → key_path key' ≡ some p → key ≡ key'
key_path-injective key key' h h' = sym (key_path-IsSegment key h).2 ∙ (key_path-IsSegment key' h').2
