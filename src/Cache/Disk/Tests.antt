-- ===== src/Cache/Disk/Tests.antt =====
-- Runs of the disk tier, and its theorems at concrete inputs.
use geoverse_map_server.Base.{
  ℕ, ◌*◌, ◌/◌, ◌≤◌, ◌<◌, ◌≡◌, ◌≢◌, ◌⊎◌, inl, inr, refl, false, List, [], ◌∷◌, none, some, leb,
  if◌then◌else◌, arith, Bool-cases, All, take, ℕ_discrete,
}
use geoverse_map_server.Base.Lists.{Reordered, Reordered-refl}
use geoverse_map_server.Base.Dict.{lookup, insert, delete}
use geoverse_map_server.Base.Text.{Text, str, text_eq}
use geoverse_map_server.Cache.Disk.Path.{
  FilePath, path_eq, split, key_path, is_temp, parent, join, IsSegment, key_path-IsSegment,
}
use geoverse_map_server.Cache.Disk.{
  Disk, DiskEntry, is_old, get_file, get, set, is_swept, walk, target_of, meets, trim, sweep,
  file_bytes, max_bytes_of, new_disk, stats,
}
use geoverse_map_server.Cache.Disk.Access.{
  no_read_faults, no_write_faults, IsOldOrWhole, set-atomic,
}
use geoverse_map_server.Cache.Disk.Entries.{
  SortsByAge, OldestFirst, Once, all_removable, entries_of, entry_of,
}
use geoverse_map_server.Cache.Disk.Sweep.{
  live_files, by_age, delete_all, IsLeast, sweep-bound, sweep-oldest,
}

-- Insertion sort by age.
insert_age : DiskEntry → List DiskEntry → List DiskEntry
insert_age e [] = e ∷ []
insert_age e (x ∷ xs) =
    let rest = insert_age e xs in if leb e.mtime x.mtime then e ∷ x ∷ xs else x ∷ rest

sort_age : List DiskEntry → List DiskEntry
unfolding insert_age
sort_age [] = []
sort_age (e ∷ es) = insert_age e (sort_age es)

insert_age-Reordered : (e : DiskEntry) (xs : List DiskEntry) → Reordered (insert_age e xs) (e ∷ xs)
unfolding insert_age
insert_age-Reordered e [] = Reordered-refl (e ∷ [])
insert_age-Reordered e (x ∷ xs) = elim (Bool-cases (leb e.mtime x.mtime)) [
  | inl young ↦ rw young (Reordered-refl (e ∷ x ∷ xs))
  | inr old ↦
      rw old
        (Reordered.trans (Reordered.cons x (insert_age-Reordered e xs)) (Reordered.swap x e xs))
]

sort_age-Reordered : (es : List DiskEntry) → Reordered (sort_age es) es
unfolding sort_age
sort_age-Reordered [] = Reordered.nil
sort_age-Reordered (e ∷ es) =
    Reordered.trans (insert_age-Reordered e (sort_age es))
      (Reordered.cons e (sort_age-Reordered es))

insert_age-All :
    (m : ℕ) (e : DiskEntry) (xs : List DiskEntry)
    → m ≤ e.mtime
    → All (λ (x : DiskEntry). m ≤ x.mtime) xs
    → All (λ (x : DiskEntry). m ≤ x.mtime) (insert_age e xs)
unfolding insert_age
insert_age-All m e [] h a = (h, tt)
insert_age-All m e (x ∷ xs) h a = elim (Bool-cases (leb e.mtime x.mtime)) [
  | inl young ↦ rw young (h, a)
  | inr old ↦ rw old (a.0, insert_age-All m e xs h a.1)
]

All-older :
    (m n : ℕ) (xs : List DiskEntry)
    → m ≤ n
    → All (λ (x : DiskEntry). n ≤ x.mtime) xs
    → All (λ (x : DiskEntry). m ≤ x.mtime) xs
All-older m n [] h a = tt
All-older m n (x ∷ xs) h a = (omega (arith, a.0), All-older m n xs h a.1)

insert_age-OldestFirst :
    (e : DiskEntry) (xs : List DiskEntry) → OldestFirst xs → OldestFirst (insert_age e xs)
unfolding insert_age
insert_age-OldestFirst e [] h = (tt, tt)
insert_age-OldestFirst e (x ∷ xs) h = elim (Bool-cases (leb e.mtime x.mtime)) [
  | inl young ↦
      let first : e.mtime ≤ x.mtime = ground arith in
      rw young ((first, All-older e.mtime x.mtime xs first h.0), h)
  | inr old ↦
      rw old (insert_age-All x.mtime e xs (ground arith) h.0, insert_age-OldestFirst e xs h.1)
]

sort_age-OldestFirst : (es : List DiskEntry) → OldestFirst (sort_age es)
unfolding sort_age
sort_age-OldestFirst [] = tt
sort_age-OldestFirst (e ∷ es) = insert_age-OldestFirst e (sort_age es) (sort_age-OldestFirst es)

sort_age-SortsByAge : SortsByAge sort_age
sort_age-SortsByAge = record { reorders = sort_age-Reordered; oldest_first = sort_age-OldestFirst }

program : Unit {0}
unfolding path_eq key_path is_temp parent lookup insert delete text_eq ℕ_discrete get set is_old
    is_swept walk target_of meets trim sweep file_bytes entries_of entry_of sort_age split get_file
program = tt

abbrev key : Text
key = str "roads/3/1"

abbrev stored : FilePath
stored = str "roads" ∷ str "3" ∷ str "1" ∷ []

-- Three tiles of 4, 3 and 6 bytes, and room for 10.
abbrev full : Disk
full = record {
  ttl = 100;
  max_bytes = 10;
  files =
      (stored, record { bytes = str "abcd"; mtime = 30 })
      ∷ (str "b" ∷ [], record { bytes = str "efg"; mtime = 10 })
      ∷ (str "c" ∷ [], record { bytes = str "hijklm"; mtime = 20 })
      ∷ [];
  hits = 0;
  misses = 0;
}

-- The oldest two go.
swept :
    (sweep sort_age all_removable 50 full).files
    ≡ (stored, record { bytes = str "abcd"; mtime = 30 }) ∷ []
unfolding program
swept = refl

full-Once : Once full.files
full-Once = ((ground arith, (ground arith, tt)), ((ground arith, tt), (tt, tt)))

-- What is not a segment has no file.
up : key_path (str "../etc") ≡ none
unfolding program
up = refl

key_path-key : key_path key ≡ some stored
unfolding program
key_path-key = refl

key_path-IsSegment_example : (stored ≢ []) × All IsSegment stored × (join stored ≡ key)
key_path-IsSegment_example = key_path-IsSegment key key_path-key

stored_steady : is_temp stored ≡ false
unfolding program
stored_steady = refl

set-atomic_example :
    IsOldOrWhole 60 key
      (str "new")
      full.files
      (set no_write_faults 60 (str "1") key (str "new") full).files
      stored
set-atomic_example =
    set-atomic no_write_faults 60 (str "1") key (str "new") full stored stored_steady

-- A read that finds the tile.
get-key : (get no_read_faults 99 key full).1 ≡ some (str "abcd")
unfolding program
get-key = refl

live : live_files sort_age 50 full ≡ full.files
unfolding program
live = refl

sweep-bound_example :
    (file_bytes (sweep sort_age all_removable 50 full).files ≤ full.max_bytes)
    × (((sweep sort_age all_removable 50 full).files ≡ live_files sort_age 50 full)
        ⊎ (file_bytes (sweep sort_age all_removable 50 full).files ≤ full.max_bytes * 9 / 10))
sweep-bound_example =
    sweep-bound sort_age 50 full sort_age-SortsByAge full-Once (omega arith) (omega arith)

full_over : full.max_bytes < file_bytes (live_files sort_age 50 full)
unfolding program
full_over = omega arith

sweep-oldest_example :
    (k : ℕ) × ((sweep sort_age all_removable 50 full).files
      ≡ delete_all (take k (by_age sort_age 50 full)) (live_files sort_age 50 full))
    × OldestFirst (by_age sort_age 50 full)
    × IsLeast
        (target_of full.max_bytes)
        (by_age sort_age 50 full)
        (file_bytes (live_files sort_age 50 full))
        k
sweep-oldest_example = sweep-oldest sort_age 50 full sort_age-SortsByAge (omega arith) full_over

-- The start of a tier over the same files, and its statistics.
started : new_disk false 100 1 full.files ≡ some (record full { max_bytes = 1048576 })
unfolding new_disk max_bytes_of
started = refl

sized : stats full ≡ record { files = 3; bytes = 13; max_bytes = 10; hits = 0; misses = 0 }
unfolding stats file_bytes
sized = refl
