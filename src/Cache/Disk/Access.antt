-- ===== src/Cache/Disk/Access.antt =====
-- Reads and writes of the disk tier.
use geoverse_map_server.Base.{
  ℕ, ◌+◌, ◌≤◌, ◌≡◌, ◌≢◌, ◌⊎◌, inl, inr, refl, ap, Bool, false, ◌||◌, List, [], ◌∷◌, ◌++◌, none,
  some, length, if◌then◌else◌, arith, Bool-cases, Option-cases, All,
}
use geoverse_map_server.Base.Dict.{lookup, insert, delete, lookup-insert, lookup-delete}
use geoverse_map_server.Base.Text.{Text, str}
use geoverse_map_server.Base.Strings.{has_prefix}
use geoverse_map_server.Cache.Disk.Path.{FilePath, path_eq, key_path, parent, is_temp}
use geoverse_map_server.Cache.Disk.{
  File, Files, Disk, ReadFaults, WriteFaults, count64, miss, is_old, get_file, get, abandon,
  publish, set, purge_files, purge,
}

-- The temporary file of a write.
abbrev pub temp_path : FilePath → Text → FilePath
temp_path p suffix = parent p ++ (str ".tmp-" ++ suffix) ∷ []

is_temp-append :
    (segs : List Text) (seg : Text) → is_temp (segs ++ seg ∷ []) ≡ has_prefix (str ".tmp-") seg
unfolding is_temp
is_temp-append [] seg = refl
is_temp-append (s ∷ []) seg = refl
is_temp-append (s ∷ s' ∷ segs) seg = is_temp-append (s' ∷ segs) seg

-- A path whose last segment does not begin with `.tmp-` is no temporary file.
not_temp : (p q : FilePath) (suffix : Text) → is_temp q ≡ false → q ≢ temp_path p suffix
not_temp p q suffix h e =
    let t = is_temp-append (parent p) (str ".tmp-" ++ suffix) in ground (arith, ap is_temp e, t, h)

-- A file after a write is the one before, or it is the file of the key and holds all the bytes.
abbrev pub IsOldOrWhole : ℕ → Text → Text → Files → Files → FilePath → Type 0
IsOldOrWhole now key value files files' q =
    (lookup path_eq q files' ≡ lookup path_eq q files)
    ⊎ (key_path key ≡ some q)
      × (lookup path_eq q files' ≡ some (record { bytes = value; mtime = now }))

lookup-abandon :
    (faults : WriteFaults) (temp q : FilePath) (f : File) (files : Files)
    → q ≢ temp
    → lookup path_eq q (abandon faults temp (insert path_eq temp f files)) ≡ lookup path_eq q files
unfolding abandon
lookup-abandon faults temp q f files ne = ground (
  arith,
  lookup-insert path_eq temp q f files,
  lookup-delete path_eq temp q (insert path_eq temp f files),
)

lookup-publish :
    (faults : WriteFaults) (now : ℕ) (temp p q : FilePath) (value : Text) (files : Files)
    → q ≢ temp
    → (lookup path_eq q (publish faults now temp p value files) ≡ lookup path_eq q files)
      ⊎ (p ≡ q)
        × (lookup path_eq q (publish faults now temp p value files)
            ≡ some (record { bytes = value; mtime = now }))
unfolding publish
lookup-publish faults now temp p q value files ne =
    let new : File = record { bytes = value; mtime = now } in
    let part : File = record { bytes = faults.written; mtime = now } in
    ground (
      arith,
      lookup-abandon faults temp q part files ne,
      lookup-abandon faults temp q new files ne,
      lookup-insert path_eq p q new (delete path_eq temp (insert path_eq temp new files)),
      lookup-delete path_eq temp q (insert path_eq temp new files),
      lookup-insert path_eq temp q new files,
    )

-- No fault.
abbrev pub no_read_faults : ReadFaults
no_read_faults = record { stat = false; remove = false; read = false }

abbrev pub no_write_faults : WriteFaults
no_write_faults = record {
  mkdir = false;
  create = false;
  write = false;
  written = [];
  close = false;
  rename = false;
  remove = false;
}

set-path :
    (faults : WriteFaults) (now : ℕ) (suffix key value : Text) (d : Disk) {p : FilePath}
    → key_path key ≡ some p
    → (set faults now suffix key value d).files ≡ (
        if faults.mkdir || faults.create
        then d.files
        else publish faults now (temp_path p suffix) p value d.files)
unfolding set
set-path faults now suffix key value d good = rw (good, set) (ground arith)

-- Whatever fails, a write leaves no partial tile: every file that is not a temporary one is as
-- before, or it is the file of the key, with all the bytes and the time of the write.
pub set-atomic :
    (faults : WriteFaults) (now : ℕ) (suffix key value : Text) (d : Disk) (q : FilePath)
    → is_temp q ≡ false
    → IsOldOrWhole now key value d.files (set faults now suffix key value d).files q
unfolding set
set-atomic faults now suffix key value d q steady = elim (Option-cases (key_path key)) [
  | inl bad ↦ inl (rw (bad, set))
  | inr (p, good) ↦ rw (set-path faults now suffix key value d good) (
      ground (
        arith,
        lookup-publish faults now (temp_path p suffix) p q value d.files
            (not_temp p q suffix steady),
      ))
]

-- Without a fault the file of the key holds the bytes, and no temporary file is left.
set-whole :
    (now : ℕ) (suffix key value : Text) (d : Disk) {p : FilePath}
    → key_path key ≡ some p
    → p ≢ temp_path p suffix
    → (lookup path_eq p (set no_write_faults now suffix key value d).files
        ≡ some (record { bytes = value; mtime = now }))
      × (lookup path_eq (temp_path p suffix) (set no_write_faults now suffix key value d).files
          ≡ none)
unfolding publish
set-whole now suffix key value d {p} good ne =
    let t = temp_path p suffix in
    let new : File = record { bytes = value; mtime = now } in
    let filled = insert path_eq t new d.files in
    rw (set-path no_write_faults now suffix key value d good) (
      ground (arith, lookup-insert path_eq p p new (delete path_eq t filled)),
      ground (
        arith,
        lookup-insert path_eq p t new (delete path_eq t filled),
        lookup-delete path_eq t t filled,
      ),
    )

get-path :
    (faults : ReadFaults) (now : ℕ) (key : Text) (d : Disk) {p : FilePath} {f : File}
    → key_path key ≡ some p
    → lookup path_eq p d.files ≡ some f
    → faults.stat ≡ false
    → get faults now key d ≡ get_file faults now p f d
unfolding get get_file
get-path faults now key d good there ok = rw (good, ok, there, get)

set-ttl :
    (faults : WriteFaults) (now : ℕ) (suffix key value : Text) (d : Disk)
    → (set faults now suffix key value d).ttl ≡ d.ttl
unfolding set
set-ttl faults now suffix key value d = ground arith

get_file-live :
    (now : ℕ) (p : FilePath) (f : File) (d : Disk)
    → now ≤ f.mtime + d.ttl
    → (get_file no_read_faults now p f d).1 ≡ some f.bytes
unfolding get_file is_old
get_file-live now p f d h = ground arith

-- A tile whose key's last segment does not begin with `.tmp-` and that was written without a
-- fault is read back while it is not too old, and the write left no temporary file.
pub get-set_whole :
    (stored now : ℕ) (suffix key value : Text) (d : Disk) {p : FilePath}
    → key_path key ≡ some p
    → is_temp p ≡ false
    → now ≤ stored + d.ttl
    → ((get no_read_faults now key (set no_write_faults stored suffix key value d)).1 ≡ some value)
      × (lookup path_eq (temp_path p suffix) (set no_write_faults stored suffix key value d).files
          ≡ none)
get-set_whole stored now suffix key value d {p} good steady live =
    let d' = set no_write_faults stored suffix key value d in
    let w = set-whole stored suffix key value d good (not_temp p p suffix steady) in
    (
      rw (get-path no_read_faults now key d' good w.0 refl)
          (get_file-live now p _ d' (rw (set-ttl no_write_faults stored suffix key value d) live)),
      w.1,
    )

-- What a read returns are the bytes of the key's file, and where files expire it is not too old.
pub get-Fresh_file :
    (faults : ReadFaults) (now : ℕ) (key : Text) (d : Disk) (value : Text)
    → (get faults now key d).1 ≡ some value
    → (p : FilePath) × (f : File) × (key_path key ≡ some p)
      × (lookup path_eq p d.files ≡ some f)
      × (f.bytes ≡ value)
      × ((d.ttl ≡ 0) ⊎ (now ≤ f.mtime + d.ttl))
unfolding get get_file is_old
get-Fresh_file faults now key d value h = ground arith

-- Every read counts once, as a hit if it returns a tile and as a miss otherwise.
pub get-counts :
    (faults : ReadFaults) (now : ℕ) (key : Text) (d : Disk)
    → (((get faults now key d).1 ≡ none)
        × (((get faults now key d).0).misses ≡ count64 d.misses)
        × (((get faults now key d).0).hits ≡ d.hits))
      ⊎ (((get faults now key d).1 ≢ none)
          × (((get faults now key d).0).misses ≡ d.misses)
          × (((get faults now key d).0).hits ≡ count64 d.hits))
unfolding get get_file miss
get-counts faults now key d = ground arith

purge_files-counts :
    (removable : FilePath → Bool) (files : Files)
    → ((purge_files removable files).1 + length (purge_files removable files).0 ≡ length files)
      × All (λ (e : FilePath × File). removable e.0 ≡ false) (purge_files removable files).0
unfolding purge_files
purge_files-counts removable [] = (refl, tt)
purge_files-counts removable ((p, f) ∷ files) =
    let ih = purge_files-counts removable files in
    elim (Bool-cases (removable p)) [
      | inl gone ↦ rw gone (omega (arith, ih.0), ih.1)
      | inr kept ↦ rw kept (omega (arith, ih.0), (kept, ih.1))
    ]

-- A purge counts every file that it removes, and leaves no file that can be removed.
pub purge-counts :
    (removable : FilePath → Bool) (d : Disk)
    → ((purge removable d).1 + length ((purge removable d).0).files ≡ length d.files)
      × All (λ (e : FilePath × File). removable e.0 ≡ false) ((purge removable d).0).files
unfolding purge
purge-counts removable d = purge_files-counts removable d.files
