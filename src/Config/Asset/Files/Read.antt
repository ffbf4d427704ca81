-- ===== src/Config/Asset/Files/Read.antt =====
-- What `ReadAsset` gives: all of the file that was opened, within the limit.
use geoverse_map_server.Base.{
  ℕ, ◌+◌, ◌*◌, ◌^◌, ◌≤◌, ◌<◌, ◌≡◌, inl, inr, refl, false, Bool, arith, ◌&&◌, List, Option, some,
  ◌==◌, Bool-cases, ◌∙◌, ap,
}
use geoverse_map_server.Base.Ints.{pos, ltz, int64-small}
use geoverse_map_server.Base.Lists.{length, take, length-take, take-whole}
use geoverse_map_server.Base.Results.{ok, and_then-ok}
use geoverse_map_server.Base.Text.{Text}
use geoverse_map_server.Config.Asset.{Assets, mebibyte, limit_bytes, validate}
use geoverse_map_server.Config.Asset.Files.{
  FileSystem, FileInfo, AssetInfo, Paths, try, not_read, open_asset, limited, check_length,
  read_opened, read_asset,
}
use geoverse_map_server.Config.Asset.Limits.{effective, limit_bytes-exact}
use geoverse_map_server.Config.Asset.Files.Open.{Within, try-ok}

limited-whole :
    (n : ℕ) (whole : List ℕ)
    → n + 1 < 2 ^ 63
    → (ltz (pos 0) (pos n) && ltz (pos n) (pos (length (limited (pos n) whole)))) ≡ false
    → (limited (pos n) whole ≡ whole) × Within (pos n) (length whole)
limited-whole n whole fits h = elim (Bool-cases (n == 0)) [
  | inl e ↦ (ground arith, ground arith)
  | inr e ↦
      let word = int64-small (n + 1) fits in
      let cut : limited (pos n) whole ≡ take (n + 1) whole = rw (e, word) refl in
      let short : length whole ≤ n = ground (arith, length-take (n + 1) whole) in
      (ground (arith, take-whole whole (n + 1)), λ _. short)
]

check_length-whole :
    (n : ℕ) (info info' : AssetInfo) (whole raw : List ℕ)
    → n + 1 < 2 ^ 63
    → check_length (pos n) info whole ≡ ok (raw, info')
    → (whole ≡ raw) × (info ≡ info') × Within (pos n) (length raw)
unfolding check_length
check_length-whole n info info' whole raw fits h =
    let (all, small) = limited-whole n whole fits (ground arith) in
    let same : whole ≡ raw = ground arith in (same, ground arith, rw same at small)

-- Under a valid policy a file that `ReadAsset` gives is the whole content of the file that
-- `OpenAsset` opened, never a part of it, and within the limit.
pub read_asset-whole :
    (paths : Paths) (a : Assets) (systems : FileSystem × FileSystem × FileSystem)
    (fstat : ℕ → Option FileInfo) (content : ℕ → Option (List ℕ)) (path : Text)
    (memory_backed : Bool) (raw : List ℕ) (info : AssetInfo)
    → validate a ≡ ok tt
    → read_asset paths a systems fstat content path memory_backed ≡ ok (raw, info)
    → (f : ℕ) × (open_asset paths a systems fstat path memory_backed ≡ ok (f, info))
      × (content f ≡ some raw)
      × Within (limit_bytes a memory_backed) (length raw)
unfolding read_asset read_opened
read_asset-whole paths a systems fstat content path memory_backed raw info valid h =
    let (exact, bound) = limit_bytes-exact a memory_backed valid in
    let n : ℕ = effective a memory_backed * mebibyte in
    let fits : n + 1 < 2 ^ 63 = ground (arith, exact, bound) in
    let ((f, described), opened, h1) =
      and_then-ok (open_asset paths a systems fstat path memory_backed)
        (read_opened (limit_bytes a memory_backed) content) h in
    let (whole, got, h2) =
      and_then-ok (try (content f) (not_read described.requested_path))
        (check_length (limit_bytes a memory_backed) described) h1 in
    let (all, same_info, small) =
      check_length-whole n described info whole raw fits (rw exact at h2) in
    (
      f,
      opened ∙ ap (λ i. ok (f, i)) same_info,
      rw all at (try-ok (content f) (not_read described.requested_path) got),
      rw exact small,
    )
