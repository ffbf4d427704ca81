-- ===== src/Cache/Disk.antt =====
-- internal/cache/disk.go: the persistent tier. The files below the cache directory are a map from
-- the path below that directory, a list of segments, to the bytes and the modification time.
-- Which calls of the operating system fail is an argument; so is the name that `CreateTemp` picks
-- and, for the sweep, what `sort.Slice` does with entries of one age. Times and sizes are natural
-- numbers; a duration that is not positive is 0, which the code treats alike. The janitor calls
-- `Sweep` every five minutes; its goroutine is not modelled.
pub mod Path
pub mod Access
pub mod Entries
pub mod Sweep
mod Tests
use geoverse_map_server.Base.{
  ℕ, ◌+◌, ◌-◌, ◌*◌, ◌/◌, ◌%◌, ◌^◌, ◌≡◌, Bool, true, false, not, ◌&&◌, ◌||◌, List, [], ◌∷◌, ◌++◌,
  Option, none, some, length, leb, ltb, if◌then◌else◌,
}
use geoverse_map_server.Base.Dict.{Dict, lookup, insert, delete}
use geoverse_map_server.Base.Text.{Text, str}
use geoverse_map_server.Cache.Disk.Path.{FilePath, path_eq, key_path, parent, is_temp}

pub record File : Type 0 where
  pub bytes : Text
  pub mtime : ℕ

abbrev pub Files : Type 0
Files = Dict FilePath File

pub record Disk : Type 0 where
  pub ttl : ℕ
  -- 0 for no bound
  pub max_bytes : ℕ
  pub files : Files
  pub hits : ℕ
  pub misses : ℕ

-- `maxSizeMB * 1024 * 1024` in 64 bits; a product that wraps to a negative number is no bound.
pub max_bytes_of : ℕ → ℕ
max_bytes_of max_size_mb =
    let b = (max_size_mb * 1024 * 1024) % 2 ^ 64 in if ltb b (2 ^ 63) then b else 0

-- `NewDisk`, over what the directory holds; `none` where it cannot be made.
pub new_disk : Bool → ℕ → ℕ → Files → Option Disk
new_disk mkdir_fails ttl max_size_mb files =
    if mkdir_fails
    then none
    else some (record {
      ttl = ttl;
      max_bytes = max_bytes_of max_size_mb;
      files = files;
      hits = 0;
      misses = 0;
    })

abbrev pub count64 : ℕ → ℕ
count64 n = (n + 1) % 2 ^ 64

-- Which calls of a read fail, for any reason but that there is no such file.
pub record ReadFaults : Type 0 where
  pub stat : Bool
  pub remove : Bool
  pub read : Bool

unfoldable pub miss : Disk → Disk
miss d = record d { misses = count64 d.misses }

-- `time.Since(fi.ModTime()) > ttl`, where expiry is on.
unfoldable pub is_old : ℕ → ℕ → File → Bool
is_old ttl now f = ltb 0 ttl && ltb ttl (now - f.mtime)

-- `Get` of a file that is there.
unfoldable pub get_file : ReadFaults → ℕ → FilePath → File → Disk → Disk × Option Text
get_file faults now p f d =
    if is_old d.ttl now f
    then (
      miss (record d { files = if faults.remove then d.files else delete path_eq p d.files }),
      none,
    )
    else if faults.read
    then (miss d, none)
    else (record d { hits = count64 d.hits }, some f.bytes)

unfoldable pub get : ReadFaults → ℕ → Text → Disk → Disk × Option Text
get faults now key d = elim (key_path key) [
  | none ↦ (miss d, none)
  | some p ↦ if faults.stat then (miss d, none) else elim (lookup path_eq p d.files) [
    | none ↦ (miss d, none)
    | some f ↦ get_file faults now p f d
  ]
]

-- Which calls of a write fail. A failed `Write` has written some first part of the bytes.
pub record WriteFaults : Type 0 where
  pub mkdir : Bool
  pub create : Bool
  pub write : Bool
  pub written : Text
  pub close : Bool
  pub rename : Bool
  pub remove : Bool

-- `os.Remove` of the temporary file on a failure.
abandon : WriteFaults → FilePath → Files → Files
abandon faults temp files = if faults.remove then files else delete path_eq temp files

-- The part of `Set` after `CreateTemp`: the temporary file, and the rename.
publish : WriteFaults → ℕ → FilePath → FilePath → Text → Files → Files
publish faults now temp p value files =
    let created = insert path_eq temp (record { bytes = faults.written; mtime = now }) files in
    let filled = insert path_eq temp (record { bytes = value; mtime = now }) files in
    if faults.write
    then abandon faults temp created
    else if faults.close
    then abandon faults temp filled
    else if faults.rename
    then abandon faults temp filled
    else insert path_eq p (record { bytes = value; mtime = now }) (delete path_eq temp filled)

-- `Set`; the last part of the temporary file's name is `.tmp-` and the given suffix.
pub set : WriteFaults → ℕ → Text → Text → Text → Disk → Disk
set faults now suffix key value d = elim (key_path key) [
  | none ↦ d
  | some p ↦ if faults.mkdir || faults.create then d else record d {
    files = publish faults now (parent p ++ (str ".tmp-" ++ suffix) ∷ []) p value d.files;
  }
]

-- `Purge`: every file that can be removed goes, and is counted.
purge_files : (FilePath → Bool) → Files → Files × ℕ
purge_files removable [] = ([], 0)
purge_files removable ((p, f) ∷ files) =
    let rest = purge_files removable files in
    if removable p then (rest.0, rest.1 + 1) else ((p, f) ∷ rest.0, rest.1)

pub purge : (FilePath → Bool) → Disk → Disk × ℕ
purge removable d = let r = purge_files removable d.files in (record d { files = r.0 }, r.1)

pub file_bytes : Files → ℕ
file_bytes [] = 0
file_bytes ((p, f) ∷ files) = length f.bytes + file_bytes files

-- `DiskStats`, less the directory's name and the floating-point fields.
pub record DiskStats : Type 0 where
  pub files : ℕ
  pub bytes : ℕ
  pub max_bytes : ℕ
  pub hits : ℕ
  pub misses : ℕ

pub stats : Disk → DiskStats
stats d = record {
  files = length d.files;
  bytes = file_bytes d.files;
  max_bytes = d.max_bytes;
  hits = d.hits;
  misses = d.misses;
}

pub record DiskEntry : Type 0 where
  pub path : FilePath
  pub size : ℕ
  pub mtime : ℕ

-- What the walk of `Sweep` leaves alone: neither an orphaned temporary file nor one that expired.
abbrev pub hour : ℕ
hour = 3600 * 1000000000

pub is_swept : ℕ → ℕ → FilePath → File → Bool
is_swept ttl now p f = is_temp p && ltb hour (now - f.mtime) || is_old ttl now f

pub record Walk : Type 0 where
  pub left : Files
  pub entries : List DiskEntry
  pub total : ℕ

-- The walk: the files that stay, the entries that count, and their size.
pub walk : (FilePath → Bool) → ℕ → ℕ → Files → Walk
walk removable ttl now [] = record { left = []; entries = []; total = 0 }
walk removable ttl now ((p, f) ∷ files) =
    let rest = walk removable ttl now files in
    if is_swept ttl now p f
    then (if removable p then rest else record rest { left = (p, f) ∷ rest.left })
    else record {
      left = (p, f) ∷ rest.left;
      entries = record { path = p; size = length f.bytes; mtime = f.mtime } ∷ rest.entries;
      total = length f.bytes + rest.total;
    }

-- `d.maxBytes * 9 / 10` in 64 bits, `none` where it wraps to a negative number.
pub target_of : ℕ → Option ℕ
target_of max_bytes =
    let n = (max_bytes * 9) % 2 ^ 64 in if ltb n (2 ^ 63) then some (n / 10) else none

pub meets : ℕ → Option ℕ → Bool
meets total none = false
meets total (some target) = leb total target

-- The loop that deletes the oldest entries until the target is met.
pub trim : (FilePath → Bool) → Option ℕ → List DiskEntry → ℕ → Files → Files
trim removable target [] total files = files
trim removable target (e ∷ es) total files =
    let gone = trim removable target es (total - e.size) (delete path_eq e.path files) in
    let kept = trim removable target es total files in
    if meets total target then files else if removable e.path then gone else kept

pub sweep : (List DiskEntry → List DiskEntry) → (FilePath → Bool) → ℕ → Disk → Disk
sweep sort removable now d =
    let w = walk removable d.ttl now d.files in
    if not (ltb 0 d.max_bytes) || leb w.total d.max_bytes
    then record d { files = w.left }
    else record d { files = trim removable (target_of d.max_bytes) (sort w.entries) w.total w.left }
