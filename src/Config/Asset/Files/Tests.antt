-- ===== src/Config/Asset/Files/Tests.antt =====
-- Runs of the asset policy, and its theorems at concrete inputs.
use geoverse_map_server.Base.{
  ℕ, ◌≡◌, refl, true, false, Bool, List, [], ◌∷◌, Option, some, ℕ_discrete,
}
use geoverse_map_server.Base.Ints.{pos}
use geoverse_map_server.Base.Lists.{length}
use geoverse_map_server.Base.Results.{ok, error}
use geoverse_map_server.Base.Strings.{same, space_width, space_width_back, cut_front, trim_space}
use geoverse_map_server.Base.Text.{Text, str, text_eq}
use geoverse_map_server.Config.Asset.{Assets, validate, limit_mb, limit_bytes}
use geoverse_map_server.Config.Asset.Files.{
  FileInfo, FileSystem, AssetInfo, outside_root, changed, Paths, real_path, canonical_root,
  within_root, check_below, check_root, check_info, inspect_file, inspect_resolved, inspect_asset,
  check_same, open_again, open_stat, open_inspected, open_asset, check_length, read_opened,
  read_asset,
}
use geoverse_map_server.Config.Asset.Files.Open.{Within, IsAllowed, open_asset-IsAllowed}
use geoverse_map_server.Config.Asset.Files.Read.{read_asset-whole}

program : Unit {0}
unfolding same space_width space_width_back cut_front trim_space text_eq ℕ_discrete validate
    limit_mb limit_bytes real_path canonical_root within_root check_below check_root check_info
    inspect_file inspect_resolved inspect_asset check_same open_again open_stat open_inspected
    open_asset check_length read_opened read_asset
program = tt

abbrev policy : Assets
policy = record {
  root = str "/data";
  enforce_root = true;
  max_file_size_mb = pos 64;
  max_memory_file_size_mb = pos 1;
}

-- Paths below the root are those that `inside` takes.
abbrev paths_of : Bool → Paths
paths_of inside = record {
  rel = λ root target. if_inside inside;
  is_abs = λ p. false;
  clean = λ p. p;
}
  where
    if_inside : Bool → Option Text
    if_inside true = some (str "a")
    if_inside false = some (str "../a")

abbrev file_of : ℕ → FileInfo
file_of identity = record { identity = identity; size = 3; mod_time = 0; regular = true }

abbrev system_of : ℕ → FileSystem
system_of identity = record {
  abs = λ p. some p;
  eval_symlinks = λ p. some p;
  stat = λ p. some (file_of identity);
  open_file = λ p. some identity;
}

abbrev info : AssetInfo
info = record {
  requested_path = str "a";
  resolved_path = str "a";
  size = 3;
  mod_time = 0;
  file_info = file_of 7;
}

abbrev steady : FileSystem × FileSystem × FileSystem
steady = (system_of 7, system_of 7, system_of 7)

abbrev fstat : ℕ → Option FileInfo
fstat f = some (file_of f)

valid : validate policy ≡ ok tt
unfolding program
valid = refl

opened : open_asset (paths_of true) policy steady fstat (str " a") true ≡ ok (7, info)
unfolding program
opened = refl

swapped :
    open_asset (paths_of true) policy (system_of 7, system_of 8, system_of 7) fstat (str "a") true
    ≡ error (changed (str "a"))
unfolding program
swapped = refl

escaped :
    open_asset (paths_of false) policy steady fstat (str "a") true ≡ error (outside_root (str "a"))
unfolding program
escaped = refl

abbrev content : ℕ → Option (List ℕ)
content f = some (1 ∷ 2 ∷ 3 ∷ [])

was_read :
    read_asset (paths_of true) policy steady fstat content (str "a") true
    ≡ ok (1 ∷ 2 ∷ 3 ∷ [], info)
unfolding program
was_read = refl

open_asset-IsAllowed_example :
    IsAllowed (paths_of true) policy (system_of 7) true info
    × ((found : FileInfo) × (fstat 7 ≡ some found) × (found.identity ≡ info.file_info.identity))
    × ((system_of 7).open_file info.resolved_path ≡ some 7)
open_asset-IsAllowed_example =
    open_asset-IsAllowed (paths_of true) policy (system_of 7) (system_of 7) (system_of 7) fstat true
      (str " a") 7 info opened

read_asset-whole_example :
    (f : ℕ) × (open_asset (paths_of true) policy steady fstat (str "a") true ≡ ok (f, info))
    × (content f ≡ some (1 ∷ 2 ∷ 3 ∷ []))
    × Within (limit_bytes policy true) (length {A = ℕ} (1 ∷ 2 ∷ 3 ∷ []))
read_asset-whole_example =
    read_asset-whole (paths_of true) policy steady fstat content (str "a") true (1 ∷ 2 ∷ 3 ∷ [])
      info valid was_read
