-- ===== src/Config/Asset/Files.antt =====
-- The files under the policy of internal/config/assets.go: InspectAsset, OpenAsset and ReadAsset.
-- The file system is an argument, one at each call, so that it may change between two calls.
pub mod Open
pub mod Read
mod Tests
use geoverse_map_server.Base.{
  ℕ, suc, ◌+◌, ◌*◌, Bool, true, false, List, [], ◌∷◌, Option, none, some, not, ◌&&◌, ◌||◌, ◌==◌,
  if◌then◌else◌,
}
use geoverse_map_server.Base.Ints.{ℤ, pos, negsuc, ltz, int64}
use geoverse_map_server.Base.Lists.{length, take}
use geoverse_map_server.Base.Results.{Result, ok, error, and_then}
use geoverse_map_server.Base.Strings.{same, is_empty, has_prefix, trim_space}
use geoverse_map_server.Base.Text.{Text, str}
use geoverse_map_server.Config.Asset.{Assets, limit_bytes}

-- `os.FileInfo`: which file it is, its size, its time and whether it is regular.
pub record FileInfo : Type 0 where
  pub identity : ℕ
  pub size : ℕ
  pub mod_time : ℕ
  pub regular : Bool

-- What one moment's file system answers: `filepath.Abs`, `filepath.EvalSymlinks`, `os.Stat`,
-- `os.Open` (the identity of the file that is opened).
pub record FileSystem : Type 0 where
  pub abs : Text → Option Text
  pub eval_symlinks : Text → Option Text
  pub stat : Text → Option FileInfo
  pub open_file : Text → Option ℕ

pub record AssetInfo : Type 0 where
  pub requested_path : Text
  pub resolved_path : Text
  pub size : ℕ
  pub mod_time : ℕ
  pub file_info : FileInfo

pub data AssetError : Type 0 where
  path_empty : AssetError
  unresolved : Text → AssetError
  bad_root : AssetError
  outside_root : Text → AssetError
  no_stat : Text → AssetError
  not_regular : Text → AssetError
  too_large : Text → ℕ → AssetError
  not_opened : Text → AssetError
  changed : Text → AssetError
  not_read : Text → AssetError
  grew : Text → AssetError

-- A step of the operating system that may fail.
abbrev pub try : {A : Type 0} → Option A → AssetError → Result A AssetError
try none e = error e
try (some a) e = ok a

-- `filepath.Abs`, `filepath.EvalSymlinks` and `filepath.Abs` again, as both callers chain them.
pub real_path : FileSystem → AssetError → Text → Result Text AssetError
real_path fs e path = and_then (try (fs.abs path) e) λ (absolute : Text).
    and_then (try (fs.eval_symlinks absolute) e) λ (resolved : Text). try (fs.abs resolved) e

-- `canonicalRoot`
pub canonical_root : FileSystem → Text → Result Text AssetError
canonical_root fs path = real_path fs bad_root (trim_space path)

-- `filepath.Rel`, `filepath.IsAbs` and `filepath.Clean`, which read no file.
pub record Paths : Type 0 where
  pub rel : Text → Text → Option Text
  pub is_abs : Text → Bool
  pub clean : Text → Text

-- The identity check at the end of `OpenAsset`.
pub check_same : AssetInfo → ℕ → FileInfo → AssetInfo → Result (ℕ × AssetInfo) AssetError
check_same before f opened after =
    if not (same before.resolved_path after.resolved_path)
      || not (opened.identity == after.file_info.identity)
    then error (changed before.requested_path)
    else ok (f, after)

-- `io.LimitReader` of a file: the bytes that it gives.
abbrev read_up_to : ℤ → List ℕ → List ℕ
read_up_to (pos k) content = take k content
read_up_to (negsuc k) content = []

-- The bytes that `ReadAsset` reads of the content: one more than the limit, or all.
abbrev pub limited : ℤ → List ℕ → List ℕ
limited (pos n) content = if n == 0 then content else read_up_to (int64 (n + 1)) content
limited (negsuc n) content = content

-- The end of `ReadAsset`, by what was read.
pub check_length : ℤ → AssetInfo → List ℕ → Result (List ℕ × AssetInfo) AssetError
check_length limit info whole =
    let raw : List ℕ = limited limit whole in
    if ltz (pos 0) limit && ltz limit (pos (length raw))
    then error (grew info.requested_path)
    else ok (raw, info)

pub read_opened : ℤ → (ℕ → Option (List ℕ)) → ℕ × AssetInfo → Result (List ℕ × AssetInfo) AssetError
read_opened limit content (f, info) =
    and_then (try (content f) (not_read info.requested_path)) (check_length limit info)

module _ (paths : Paths) where
  -- The test of the path relative to the root.
  abbrev stays : Option Text → Bool
  stays none = false
  stays (some r) =
      if paths.is_abs r then false else not (same r (str "..")) && not (has_prefix (str "../") r)

  -- `withinRoot`, where the separator is a slash
  pub within_root : Text → Text → Bool
  within_root root target = stays (paths.rel root target)

  -- The test of a path below the root that was found.
  pub check_below : Text → Text → Text → Result Unit AssetError
  check_below requested resolved root =
      if within_root root resolved then ok tt else error (outside_root requested)

  -- The root boundary of `InspectAsset`.
  pub check_root : Assets → FileSystem → Text → Text → Result Unit AssetError
  check_root a fs requested resolved =
      let bounded : Result Unit AssetError =
        and_then (canonical_root fs a.root) (check_below requested resolved) in
      if a.enforce_root then bounded else ok tt

  -- The tests of `InspectAsset` on what `os.Stat` gives.
  pub check_info : ℤ → Text → Text → FileInfo → Result AssetInfo AssetError
  check_info limit requested resolved info =
      if not info.regular
      then error (not_regular requested)
      else if ltz (pos 0) limit && ltz limit (pos info.size)
      then error (too_large requested info.size)
      else ok (record {
        requested_path = requested;
        resolved_path = paths.clean resolved;
        size = info.size;
        mod_time = info.mod_time;
        file_info = info;
      })

  -- The end of `InspectAsset`, from `os.Stat`.
  pub inspect_file :
      Assets → FileSystem → Bool → Text → Text → Unit {0} → Result AssetInfo AssetError
  inspect_file a fs memory_backed requested resolved _ =
      and_then (try (fs.stat resolved) (no_stat requested))
        (check_info (limit_bytes a memory_backed) requested resolved)

  -- `InspectAsset` of a path that was resolved.
  pub inspect_resolved : Assets → FileSystem → Bool → Text → Text → Result AssetInfo AssetError
  inspect_resolved a fs memory_backed requested resolved =
      and_then (check_root a fs requested resolved)
        (inspect_file a fs memory_backed requested resolved)

  -- `InspectAsset`
  pub inspect_asset : Assets → FileSystem → Text → Bool → Result AssetInfo AssetError
  inspect_asset a fs path memory_backed =
      let requested : Text = trim_space path in
      let inspected : Result AssetInfo AssetError =
        and_then (real_path fs (unresolved requested) requested)
          (inspect_resolved a fs memory_backed requested) in
      if is_empty requested then error path_empty else inspected

  -- The rounds of `OpenAsset` after `f.Stat`, after `os.Open` and after the first inspection.
  pub open_again :
      Assets → FileSystem → Bool → AssetInfo → ℕ → FileInfo → Result (ℕ × AssetInfo) AssetError
  open_again a third memory_backed before f opened =
      and_then (inspect_asset a third before.resolved_path memory_backed)
        (check_same before f opened)

  pub open_stat :
      Assets
      → FileSystem
      → (ℕ → Option FileInfo)
      → Bool
      → AssetInfo
      → ℕ
      → Result (ℕ × AssetInfo) AssetError
  open_stat a third fstat memory_backed before f =
      and_then (try (fstat f) (no_stat before.requested_path))
        (open_again a third memory_backed before f)

  pub open_inspected :
      Assets
      → FileSystem × FileSystem
      → (ℕ → Option FileInfo)
      → Bool
      → AssetInfo
      → Result (ℕ × AssetInfo) AssetError
  open_inspected a (second, third) fstat memory_backed before =
      and_then (try (second.open_file before.resolved_path) (not_opened before.requested_path))
        (open_stat a third fstat memory_backed before)

  -- `OpenAsset`, by the file systems at its calls of `InspectAsset`, `os.Open` and `InspectAsset`:
  -- the file that is open, and its description. The function is `f.Stat`, what is known of an open
  -- file.
  pub open_asset :
      Assets
      → FileSystem × FileSystem × FileSystem
      → (ℕ → Option FileInfo)
      → Text
      → Bool
      → Result (ℕ × AssetInfo) AssetError
  open_asset a (first, second, third) fstat path memory_backed =
      and_then (inspect_asset a first path memory_backed)
        (open_inspected a (second, third) fstat memory_backed)

  -- `ReadAsset`, where the last function is what a read of an open file gives.
  pub read_asset :
      Assets
      → FileSystem × FileSystem × FileSystem
      → (ℕ → Option FileInfo)
      → (ℕ → Option (List ℕ))
      → Text
      → Bool
      → Result (List ℕ × AssetInfo) AssetError
  read_asset a systems fstat content path memory_backed =
      and_then (open_asset a systems fstat path memory_backed)
        (read_opened (limit_bytes a memory_backed) content)
