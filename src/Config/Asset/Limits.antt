-- ===== src/Config/Asset/Limits.antt =====
-- The size limits of a valid asset policy, which fit in an int64.
use geoverse_map_server.Base.{
  ℕ, ◌*◌, ◌^◌, ◌≤◌, ◌<◌, ◌≡◌, inl, inr, refl, true, false, Bool, arith, ltb, ◌==◌, if◌then◌else◌,
  Bool-cases,
}
use geoverse_map_server.Base.Ints.{ℤ, pos, negsuc, ltz, int64-small, to_ℕ}
use geoverse_map_server.Base.Results.{ok}
use geoverse_map_server.Config.Asset.{
  Assets, mebibyte, max_asset_size_mb, validate, limit_mb, scaled, limit_bytes,
}

-- A limit in mebibytes that `Validate` lets through.
abbrev pub IsLimit : ℤ → Type 0
IsLimit z = (n : ℕ) × (z ≡ pos n) × (n ≤ max_asset_size_mb)

IsLimit-cases : (z : ℤ) → ltz z (pos 0) ≡ false → ltz (pos max_asset_size_mb) z ≡ false → IsLimit z
IsLimit-cases (pos n) h k = (n, refl, ground arith)
IsLimit-cases (negsuc n) h k = absurd (cc)

pub validate-IsLimit :
    (a : Assets)
    → validate a ≡ ok tt
    → IsLimit a.max_file_size_mb × IsLimit a.max_memory_file_size_mb
unfolding validate
validate-IsLimit a h = (
  IsLimit-cases a.max_file_size_mb (ground arith) (ground arith),
  IsLimit-cases a.max_memory_file_size_mb (ground arith) (ground arith),
)

scaled-exact : (n : ℕ) → n ≤ max_asset_size_mb → scaled (pos n) ≡ pos (n * mebibyte)
scaled-exact n h =
    let fits : n * mebibyte < 2 ^ 63 = omega arith in
    let exact = int64-small (n * mebibyte) fits in
    elim (Bool-cases (n == 0)) [ inl e ↦ ground arith | inr e ↦ rw e exact ]

-- The tighter of two limits, where 0 is no limit.
abbrev pub tighter : ℕ → ℕ → ℕ
tighter m n = if m == 0 then n else if n == 0 then m else if ltb n m then n else m

-- The limit in mebibytes that applies to a source.
abbrev pub effective : Assets → Bool → ℕ
effective a true = tighter (to_ℕ a.max_file_size_mb) (to_ℕ a.max_memory_file_size_mb)
effective a false = to_ℕ a.max_file_size_mb

effective-limit :
    (a : Assets) (memory_backed : Bool)
    → IsLimit a.max_file_size_mb
    → IsLimit a.max_memory_file_size_mb
    → (limit_mb a memory_backed ≡ pos (effective a memory_backed))
      × (effective a memory_backed ≤ max_asset_size_mb)
unfolding limit_mb
effective-limit a true (m, e, low) (n, f, low') = (ground arith, ground (arith, e, f))
effective-limit a false (m, e, low) (n, f, low') = (ground arith, ground (arith, e))

scaled-small :
    (z : ℤ) (k : ℕ)
    → z ≡ pos k
    → k ≤ max_asset_size_mb
    → (scaled z ≡ pos (k * mebibyte)) × (to_ℕ (scaled z) < 2 ^ 63)
scaled-small z k e low =
    let exact = scaled-exact k low in
    let fits : k * mebibyte < 2 ^ 63 = omega arith in rw (e, exact) (refl, fits)

-- Under a valid policy the limit in bytes is the limit in mebibytes that applies, the tighter of
-- the two for a source held in memory, scaled without an overflow of the int64.
pub limit_bytes-exact :
    (a : Assets) (memory_backed : Bool)
    → validate a ≡ ok tt
    → (limit_bytes a memory_backed ≡ pos (effective a memory_backed * mebibyte))
      × (to_ℕ (limit_bytes a memory_backed) < 2 ^ 63)
unfolding limit_bytes
limit_bytes-exact a memory_backed h =
    let (file, memory) = validate-IsLimit a h in
    let (e, low) = effective-limit a memory_backed file memory in
    scaled-small (limit_mb a memory_backed) (effective a memory_backed) e low
