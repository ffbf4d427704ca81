-- ===== src/Config/Asset.antt =====
-- internal/config/assets.go: the policy for sources that are files; Files is what it does to them.
pub mod Files
pub mod Limits
use geoverse_map_server.Base.{
  ℕ, suc, ◌+◌, ◌*◌, Bool, true, false, List, [], ◌∷◌, Option, none, some, not, ◌&&◌, ◌||◌, ◌==◌,
  if◌then◌else◌,
}
use geoverse_map_server.Base.Ints.{ℤ, pos, negsuc, ltz, int64}
use geoverse_map_server.Base.Lists.{length, take}
use geoverse_map_server.Base.Results.{Result, ok, error, and_then}
use geoverse_map_server.Base.Strings.{same, is_empty, has_prefix, trim_space}
use geoverse_map_server.Base.Text.{Text, str}

pub record Assets : Type 0 where
  pub root : Text
  pub enforce_root : Bool
  pub max_file_size_mb : ℤ
  pub max_memory_file_size_mb : ℤ

abbrev pub mebibyte : ℕ
mebibyte = 1048576

-- `math.MaxInt64 / mebibyte`
abbrev pub max_asset_size_mb : ℕ
max_asset_size_mb = 8796093022207

pub data AssetsError : Type 0 where
  empty_root : AssetsError
  negative_file_size : AssetsError
  negative_memory_size : AssetsError
  huge_file_size : AssetsError
  huge_memory_size : AssetsError

-- `Validate`
unfoldable pub validate : Assets → Result Unit AssetsError
validate a =
    if a.enforce_root && is_empty (trim_space a.root)
    then error empty_root
    else if ltz a.max_file_size_mb (pos 0)
    then error negative_file_size
    else if ltz a.max_memory_file_size_mb (pos 0)
    then error negative_memory_size
    else if ltz (pos max_asset_size_mb) a.max_file_size_mb
    then error huge_file_size
    else if ltz (pos max_asset_size_mb) a.max_memory_file_size_mb
    then error huge_memory_size
    else ok tt

-- `m == 0`
abbrev is_zero : ℤ → Bool
is_zero (pos n) = n == 0
is_zero (negsuc n) = false

-- `limitMB` of `limitBytes`: the tighter of the limits that apply.
unfoldable pub limit_mb : Assets → Bool → ℤ
limit_mb a memory_backed =
    if memory_backed
      && ltz (pos 0) a.max_memory_file_size_mb
      && (is_zero a.max_file_size_mb || ltz a.max_memory_file_size_mb a.max_file_size_mb)
    then a.max_memory_file_size_mb
    else a.max_file_size_mb

-- `limitMB * mebibyte` under the guard above it.
abbrev pub scaled : ℤ → ℤ
scaled (pos n) = if n == 0 then pos 0 else int64 (n * mebibyte)
scaled (negsuc n) = pos 0

-- `limitBytes`
unfoldable pub limit_bytes : Assets → Bool → ℤ
limit_bytes a memory_backed = scaled (limit_mb a memory_backed)
