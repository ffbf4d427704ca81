-- ===== src/Cache/Disk/Sweep.antt =====
-- The sweep of the disk tier: what it deletes, and what it leaves.
use geoverse_map_server.Base.{
  ℕ, ◌-◌, ◌*◌, ◌/◌, ◌^◌, ◌≤◌, ◌<◌, ◌≡◌, ◌≢◌, ◌⊎◌, inl, inr, refl, ◌∙◌, true, false, not, ◌||◌, List,
  [], ◌∷◌, Option, some, length, take, ltb, leb, dec_lt, arith, Bool-cases, All, zero, suc,
}
use geoverse_map_server.Base.Dict.{delete}
use geoverse_map_server.Cache.Disk.Path.{FilePath, path_eq}
use geoverse_map_server.Cache.Disk.{
  File, Files, Disk, DiskEntry, is_swept, walk, target_of, meets, trim, sweep, file_bytes,
}
use geoverse_map_server.Cache.Disk.Entries.{
  Once, OldestFirst, all_removable, entry_of, entries_of, sizes, SortsByAge, Present, DistinctPaths,
  All-zip, All-perm, DistinctPaths-perm, sizes-perm, sizes-entries_of, Present-entries,
  DistinctPaths-entries, file_bytes-delete, Present-delete, Once-delete,
}

-- If everything can be removed, the walk's entries are those of the files that it leaves, and its
-- total is their size.
walk-entries :
    (ttl now : ℕ) (files : Files)
    → ((walk all_removable ttl now files).entries
        ≡ entries_of (walk all_removable ttl now files).left)
      × ((walk all_removable ttl now files).total
          ≡ file_bytes (walk all_removable ttl now files).left)
unfolding walk entries_of entry_of file_bytes
walk-entries ttl now [] = (refl, refl)
walk-entries ttl now ((p, f) ∷ files) =
    let ih = walk-entries ttl now files in ground (arith, ih.0, ih.1)

-- No file that the walk leaves is an orphan or expired.
walk-live :
    (ttl now : ℕ) (files : Files)
    → All
        (λ (e : FilePath × File). is_swept ttl now e.0 e.1 ≡ false)
        (walk all_removable ttl now files).left
unfolding walk
walk-live ttl now [] = tt
walk-live ttl now ((p, f) ∷ files) = elim (Bool-cases (is_swept ttl now p f)) [
  | inl old ↦ rw old (walk-live ttl now files)
  | inr live ↦ rw live (live, walk-live ttl now files)
]

-- The loop ends with its target met, if the entries are the directory's files, each once.
trim-fits :
    (target : ℕ) (es : List DiskEntry) (total : ℕ) (files : Files)
    → Once files
    → All (Present files) es
    → DistinctPaths es
    → total ≡ file_bytes files
    → sizes es ≡ total
    → file_bytes (trim all_removable (some target) es total files) ≤ target
unfolding trim meets sizes
trim-fits target [] total files o a d t s = omega arith
trim-fits target (e ∷ es) total files o a d t s = elim (Bool-cases (leb total target)) [
  | inl met ↦ rw met (ground arith)
  | inr over ↦
      let (f, there, size) = a.0 in
      let freed = file_bytes-delete e.path f files o there in
      let others =
        All-zip {P = λ x. x.path ≢ e.path} {Q = Present files}
          {R = Present (delete path_eq e.path files)} es (Present-delete e.path files) d.0 a.1 in
      rw over (
        trim-fits target es (total - e.size) (delete path_eq e.path files)
          (Once-delete e.path files o) others d.1 (omega arith) (omega arith))
]

-- Deletion of the files of some entries.
pub delete_all : List DiskEntry → Files → Files
delete_all [] files = files
delete_all (e ∷ es) files = delete_all es (delete path_eq e.path files)

-- What is left of the total without the first `k` entries.
unfoldable pub remainder : ℕ → List DiskEntry → ℕ → ℕ
remainder total es zero = total
remainder total [] (suc k) = total
remainder total (e ∷ es) (suc k) = remainder (total - e.size) es k

-- `k` entries are enough, or all there are, and one less is not enough.
pub record IsLeast (target : Option ℕ) (es : List DiskEntry) (total k : ℕ) : Type 0 where
  pub enough : (k ≡ length es) ⊎ (meets (remainder total es k) target ≡ true)
  pub needed : (k ≡ 0) ⊎ (meets (remainder total es (k - 1)) target ≡ false)

IsLeast-suc :
    (target : Option ℕ) (e : DiskEntry) (es : List DiskEntry) (total k : ℕ)
    → meets total target ≡ false
    → IsLeast target es (total - e.size) k
    → IsLeast target (e ∷ es) total (suc k)
unfolding remainder
IsLeast-suc target e es total zero over least = record {
  enough = ground (arith, least.enough);
  needed = inr over;
}
IsLeast-suc target e es total (suc k) over least = record {
  enough = ground (arith, least.enough);
  needed = ground (arith, least.needed);
}

-- The loop deletes the first `k` entries, for the least `k` that is enough.
trim-IsLeast :
    (target : Option ℕ) (es : List DiskEntry) (total : ℕ) (files : Files)
    → (k : ℕ) × (trim all_removable target es total files ≡ delete_all (take k es) files)
      × IsLeast target es total k
unfolding trim delete_all remainder
trim-IsLeast target [] total files = (0, refl, record { enough = inl refl; needed = inl refl })
trim-IsLeast target (e ∷ es) total files = elim (Bool-cases (meets total target)) [
  | inl met ↦ (0, rw met, record { enough = inr met; needed = inl refl })
  | inr over ↦
      let (k, same, least) =
        trim-IsLeast target es (total - e.size) (delete path_eq e.path files) in
      (suc k, rw (over, same), IsLeast-suc target e es total k over least)
]

ne-walk :
    (p : FilePath) (ttl now : ℕ) (files : Files)
    → All (λ (e : FilePath × File). e.0 ≢ p) files
    → All (λ (e : FilePath × File). e.0 ≢ p) (walk all_removable ttl now files).left
unfolding walk
ne-walk p ttl now [] h = tt
ne-walk p ttl now ((q, f) ∷ files) h = elim (Bool-cases (is_swept ttl now q f)) [
  | inl old ↦ rw old (ne-walk p ttl now files h.1)
  | inr live ↦ rw live (h.0, ne-walk p ttl now files h.1)
]

Once-walk :
    (ttl now : ℕ) (files : Files) → Once files → Once (walk all_removable ttl now files).left
unfolding walk
Once-walk ttl now [] o = tt
Once-walk ttl now ((q, f) ∷ files) o = elim (Bool-cases (is_swept ttl now q f)) [
  | inl old ↦ rw old (Once-walk ttl now files o.1)
  | inr live ↦ rw live (ne-walk q ttl now files o.0, Once-walk ttl now files o.1)
]

target_small : (n : ℕ) → n * 9 < 2 ^ 63 → target_of n ≡ some (n * 9 / 10)
unfolding target_of
target_small n h = ground arith

module _ (sort : List DiskEntry → List DiskEntry) (now : ℕ) (d : Disk) where
  -- The files that are neither orphaned temporary files nor expired.
  abbrev pub live_files : Files
  live_files = (walk all_removable d.ttl now d.files).left

  abbrev pub by_age : List DiskEntry
  by_age = sort (entries_of live_files)

  sweep_within :
      file_bytes live_files ≤ d.max_bytes → (sweep sort all_removable now d).files ≡ live_files
  unfolding sweep
  sweep_within h = ground (arith, (walk-entries d.ttl now d.files).1)

  sweep_over :
      0 < d.max_bytes
      → d.max_bytes < file_bytes live_files
      → (sweep sort all_removable now d).files
        ≡ trim all_removable (target_of d.max_bytes) by_age (file_bytes live_files) live_files
  unfolding sweep
  sweep_over on h =
      let (e, t) = walk-entries d.ttl now d.files in
      let over : (not (ltb 0 d.max_bytes) || leb (file_bytes live_files) d.max_bytes) ≡ false =
        ground arith in
      rw (e, t, over)

  -- For entries sorted by age, a directory that lists each path once, and a positive bound of which
  -- nine times fit a signed word: where every file can be removed, the sweep leaves at most the
  -- bound, namely the files that are neither orphans nor expired, or, where these exceed the bound,
  -- at most nine tenths of it.
  pub sweep-bound :
      SortsByAge sort
      → Once d.files
      → 0 < d.max_bytes
      → d.max_bytes * 9 < 2 ^ 63
      → (file_bytes (sweep sort all_removable now d).files ≤ d.max_bytes)
        × (((sweep sort all_removable now d).files ≡ live_files)
            ⊎ (file_bytes (sweep sort all_removable now d).files ≤ d.max_bytes * 9 / 10))
  sweep-bound sorts o on small = elim (dec_lt d.max_bytes (file_bytes live_files)) [
    | no fits ↦
        let within : file_bytes live_files ≤ d.max_bytes = omega arith in
        (rw (sweep_within within) within, inl (sweep_within within))
    | yes over ↦
        let once = Once-walk d.ttl now d.files o in
        let order = sorts.reorders (entries_of live_files) in
        let met =
          trim-fits (d.max_bytes * 9 / 10) by_age (file_bytes live_files) live_files once
            (All-perm (Present live_files) order (Present-entries live_files once))
            (DistinctPaths-perm order (DistinctPaths-entries live_files once)) refl
            (sizes-perm order ∙ sizes-entries_of live_files) in
        let bound : file_bytes (sweep sort all_removable now d).files ≤ d.max_bytes * 9 / 10 =
          rw (sweep_over on over, target_small d.max_bytes small) met in
        (omega (arith, bound), inr bound)
  ]

  -- For entries sorted by age and a positive bound that is exceeded: where every file can be
  -- removed, the sweep deletes the `k` oldest of
  -- the files that are neither orphans nor expired, for the least `k` that meets the target.
  pub sweep-oldest :
      SortsByAge sort
      → 0 < d.max_bytes
      → d.max_bytes < file_bytes live_files
      → (k : ℕ) × ((sweep sort all_removable now d).files ≡ delete_all (take k by_age) live_files)
        × OldestFirst by_age
        × IsLeast (target_of d.max_bytes) by_age (file_bytes live_files) k
  sweep-oldest sorts on over =
      let (k, same, least) =
        trim-IsLeast (target_of d.max_bytes) by_age (file_bytes live_files) live_files in
      (k, sweep_over on over ∙ same, sorts.oldest_first (entries_of live_files), least)
