-- ===== src/Config/Asset/Files/Open.antt =====
-- What is known of a file that was inspected, opened or read under the asset policy.
use geoverse_map_server.Base.{ℕ, ◌≤◌, ◌<◌, ◌≡◌, true, false, Bool, arith, ◌&&◌, Option, none, some}
use geoverse_map_server.Base.Ints.{ℤ, pos, negsuc, ltz, to_ℕ}
use geoverse_map_server.Base.Results.{ok, and_then-ok}
use geoverse_map_server.Base.Strings.{same, trim_space}
use geoverse_map_server.Base.Text.{Text}
use geoverse_map_server.Config.Asset.{Assets, limit_bytes}
use geoverse_map_server.Config.Asset.Files.{
  FileSystem, FileInfo, AssetInfo, AssetError, Paths, try, real_path, unresolved, no_stat,
  not_opened, canonical_root, within_root, check_root, check_info, check_below, inspect_file,
  inspect_resolved, inspect_asset, check_same, open_again, open_stat, open_inspected, open_asset,
}

pub try-ok : {A : Type 0} (o : Option A) (e : AssetError) {a : A} → try o e ≡ ok a → o ≡ some a
try-ok none e h = cc
try-ok (some a) e h = cc

-- A size within a limit, where a limit of 0 is none.
abbrev pub Within : ℤ → ℕ → Type 0
Within limit n = 0 < to_ℕ limit → n ≤ to_ℕ limit

Within-of : (limit : ℤ) (n : ℕ) → (ltz (pos 0) limit && ltz limit (pos n)) ≡ false → Within limit n
Within-of (pos k) n h = ground arith
Within-of (negsuc k) n h = ground arith

module _ (paths : Paths) (a : Assets) where
  -- The file is regular, as large as it is said to be and no larger than allowed, and under an
  -- enforced root its real path lies below the real root.
  pub record IsAllowed (fs : FileSystem) (memory_backed : Bool) (info : AssetInfo) : Type 0 where
    pub resolved : Text
    pub path : info.resolved_path ≡ paths.clean resolved
    pub found : fs.stat resolved ≡ some info.file_info
    pub regular : info.file_info.regular ≡ true
    pub sized : info.size ≡ info.file_info.size
    pub small : Within (limit_bytes a memory_backed) info.size
    pub rooted :
        a.enforce_root ≡ true
        → (root : Text) × (canonical_root fs a.root ≡ ok root)
          × (within_root paths root resolved ≡ true)

  check_root-within :
      (fs : FileSystem) (requested resolved : Text)
      → check_root paths a fs requested resolved ≡ ok tt
      → a.enforce_root ≡ true
      → (root : Text) × (canonical_root fs a.root ≡ ok root)
        × (within_root paths root resolved ≡ true)
  unfolding check_root check_below
  check_root-within fs requested resolved h on =
      let (root, e, k) =
        and_then-ok (canonical_root fs a.root) (check_below paths requested resolved)
          (rw on at h) in
      (root, e, ground arith)

  check_info-fields :
      (limit : ℤ) (requested resolved : Text) (file : FileInfo) (info : AssetInfo)
      → check_info paths limit requested resolved file ≡ ok info
      → (info.resolved_path ≡ paths.clean resolved)
        × (info.file_info ≡ file)
        × (file.regular ≡ true)
        × (info.size ≡ file.size)
        × Within limit file.size
  unfolding check_info
  check_info-fields limit requested resolved file info h = (
    ground arith,
    ground arith,
    ground arith,
    ground arith,
    Within-of limit file.size (ground arith),
  )

  -- A path that passes the inspection is that of an allowed file.
  pub inspect_asset-IsAllowed :
      (fs : FileSystem) (path : Text) (memory_backed : Bool) (info : AssetInfo)
      → inspect_asset paths a fs path memory_backed ≡ ok info
      → IsAllowed fs memory_backed info
  unfolding inspect_asset inspect_resolved inspect_file
  inspect_asset-IsAllowed fs path memory_backed info h =
      let requested : Text = trim_space path in
      let (resolved, _, inspected) =
        and_then-ok (real_path fs (unresolved requested) requested)
          (inspect_resolved paths a fs memory_backed requested) (ground arith) in
      let (_, bounded, at_file) =
        and_then-ok (check_root paths a fs requested resolved)
          (inspect_file paths a fs memory_backed requested resolved) inspected in
      let (file, stat, checked) =
        and_then-ok (try (fs.stat resolved) (no_stat requested))
          (check_info paths (limit_bytes a memory_backed) requested resolved) at_file in
      let (path', same', regular, sized, small) =
        check_info-fields (limit_bytes a memory_backed) requested resolved file info checked in
      record {
        resolved = resolved;
        path = path';
        found = rw same' (try-ok (fs.stat resolved) (no_stat requested) stat);
        regular = rw same' regular;
        sized = rw same' sized;
        small = rw sized small;
        rooted = check_root-within fs requested resolved bounded;
      }

check_same-ok :
    (before : AssetInfo) (g f : ℕ) (opened : FileInfo) (after info : AssetInfo)
    → check_same before g opened after ≡ ok (f, info)
    → (g ≡ f)
      × (after ≡ info)
      × (before.resolved_path ≡ after.resolved_path)
      × (opened.identity ≡ after.file_info.identity)
unfolding check_same same
check_same-ok before g f opened after info h =
    (ground arith, ground arith, ground arith, ground arith)

module _ (paths : Paths) (a : Assets) (first second third : FileSystem)
    (fstat : ℕ → Option FileInfo) (memory_backed : Bool) where
  -- However the file system changes between the calls of `OpenAsset`, the file that it returns
  -- open is the one that its last inspection allowed: regular, within the limit, and under an
  -- enforced root below the root; it was opened at the path that the inspection gives.
  pub open_asset-IsAllowed :
      (path : Text) (f : ℕ) (info : AssetInfo)
      → open_asset paths a (first, second, third) fstat path memory_backed ≡ ok (f, info)
      → IsAllowed paths a third memory_backed info
        × ((opened : FileInfo) × (fstat f ≡ some opened)
            × (opened.identity ≡ info.file_info.identity))
        × (second.open_file info.resolved_path ≡ some f)
  unfolding open_asset open_inspected open_stat open_again
  open_asset-IsAllowed path f info h =
      let (before, _, h1) =
        and_then-ok (inspect_asset paths a first path memory_backed)
          (open_inspected paths a (second, third) fstat memory_backed) h in
      let (g, got, h2) =
        and_then-ok (try (second.open_file before.resolved_path) (not_opened before.requested_path))
          (open_stat paths a third fstat memory_backed before) h1 in
      let (opened, stat, h3) =
        and_then-ok (try (fstat g) (no_stat before.requested_path))
          (open_again paths a third memory_backed before g) h2 in
      let (after, again, h4) =
        and_then-ok (inspect_asset paths a third before.resolved_path memory_backed)
          (check_same before g opened) h3 in
      let (same_file, same_info, same_path, identity) =
        check_same-ok before g f opened after info h4 in
      let allowed =
        inspect_asset-IsAllowed paths a third before.resolved_path memory_backed after again in
      let opening =
        try-ok (second.open_file before.resolved_path) (not_opened before.requested_path) got in
      let statted = try-ok (fstat g) (no_stat before.requested_path) stat in
      rw (← same_file, ← same_info) (allowed, (opened, statted, identity), rw (← same_path) opening)
