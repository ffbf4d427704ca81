-- ===== src/Pmtiles/Archive/Tiles.antt =====
-- How a tile is found in the directories of an archive.
use geoverse_map_server.Base.{
  ℕ, zero, suc, ◌+◌, ◌%◌, ◌^◌, ◌<◌, ◌≤◌, ◌≡◌, ◌∙◌, true, false, List, Option, none, some, length,
  take, drop, arith, get_elem?, subst, Bool-cases, Option-cases, inl, inr, ◌⊎◌, ltb,
}
use geoverse_map_server.Base.Text.{Text}
use geoverse_map_server.Base.Results.{ok, Result-cases}
use geoverse_map_server.Pmtiles.Hilbert.{zxy_to_id}
use geoverse_map_server.Pmtiles.Directory.{DirectoryEntry, covers, entry_if, find_entry}
use geoverse_map_server.Pmtiles.Directory.Writer.{Ascending}
use geoverse_map_server.Pmtiles.Directory.Search.{
  last_entry, find_entry-last_entry, find_entry-covers, find_entry-stands,
}
use geoverse_map_server.Pmtiles.Archive.{
  Source, read_at, read_section, leaf_directory, entry_within, tile_entry, entry_data, tile,
}

-- A path through at most so many directories, each with its numbers in order, to the entry whose
-- run has the tile: an entry of a leaf leads to the directory of that leaf.
pub data Leads (gunzip : Text → Option Text) (s : Source) (id : ℕ) (e : DirectoryEntry)
    : ℕ → List DirectoryEntry → Type 0 where
  here :
      {depth : ℕ} {entries : List DirectoryEntry}
      → Ascending 0 entries
      → last_entry id entries ≡ some e
      → 0 < e.run_length
      → id < e.tile_id + e.run_length
      → e.tile_id + e.run_length < 2 ^ 64
      → Leads gunzip s id e (suc depth) entries
  leaf :
      {depth : ℕ} {entries entries' : List DirectoryEntry} (l : DirectoryEntry)
      → Ascending 0 entries
      → last_entry id entries ≡ some l
      → l.run_length ≡ 0
      → leaf_directory gunzip s l ≡ ok entries'
      → Leads gunzip s id e depth entries'
      → Leads gunzip s id e (suc depth) entries

find_entry-covered :
    (id : ℕ) (entries : List DirectoryEntry) (e : DirectoryEntry)
    → Ascending 0 entries
    → last_entry id entries ≡ some e
    → covers e id ≡ true
    → find_entry entries id ≡ some e
unfolding entry_if
find_entry-covered id entries e order last c =
    find_entry-last_entry entries id order ∙ rw (last, c, entry_if)

covers-run :
    (id : ℕ) (e : DirectoryEntry)
    → id < e.tile_id + e.run_length
    → e.tile_id + e.run_length < 2 ^ 64
    → covers e id ≡ true
unfolding covers
covers-run id e h small = ground arith

covers-leaf : (id : ℕ) (e : DirectoryEntry) → e.run_length ≡ 0 → covers e id ≡ true
unfolding covers
covers-leaf id e h = ground arith

entry_within-Leads :
    (gunzip : Text → Option Text) (s : Source) (id : ℕ) (e : DirectoryEntry) {depth : ℕ}
    {entries : List DirectoryEntry}
    → Leads gunzip s id e depth entries
    → entry_within gunzip s depth entries id ≡ ok (some e)
unfolding entry_within
entry_within-Leads gunzip s id e (Leads.here {entries = entries} order last run within small) =
    let found = find_entry-covered id entries e order last (covers-run id e within small) in
    let some_run : ltb 0 e.run_length ≡ true = ground arith in rw (found, entry_within, some_run)
entry_within-Leads gunzip s id e
      (Leads.leaf {entries = entries} l order last empty directory rest) =
    let found = find_entry-covered id entries l order last (covers-leaf id l empty) in
    let no_run : ltb 0 l.run_length ≡ false = ground arith in
    rw (found, entry_within, no_run, directory) (entry_within-Leads gunzip s id e rest)

-- Where, for a tile of a zoom up to 31, a path through at most four directories leads to an entry
-- whose run has the tile's number, the tile is what the archive holds at that entry's place.
pub tile-Leads :
    (gunzip : Text → Option Text) (s : Source) (z x y : ℕ) (e : DirectoryEntry)
    → z ≤ 31
    → Leads gunzip s (zxy_to_id z x y) e 4 s.root
    → tile gunzip s z x y
      ≡ read_section s.file ((s.head.tile_data_offset + e.offset) % 2 ^ 64) e.length
unfolding tile tile_entry entry_data
tile-Leads gunzip s z x y e h path =
    let low : ltb 31 z ≡ false = ground arith in
    let byte : z % 256 ≡ z = omega arith in
    rw (low, byte, entry_within-Leads gunzip s (zxy_to_id z x y) e path)

read_section-bytes :
    (file : Text) (offset n : ℕ) (bytes : Text)
    → read_section file offset n ≡ ok bytes
    → (bytes ≡ take n (drop offset file)) × ((n ≡ 0) ⊎ (offset + n ≤ length file))
unfolding read_section read_at
read_section-bytes file offset n bytes h = ground arith

-- A path through at most so many directories to an entry of the last one whose run has the tile:
-- an entry of a leaf, for the tile or one before it, leads to the directory of that leaf.
pub data Holds (gunzip : Text → Option Text) (s : Source) (id : ℕ) (e : DirectoryEntry)
    : ℕ → List DirectoryEntry → Type 0 where
  here :
      {depth : ℕ} {entries : List DirectoryEntry} (n : ℕ)
      → get_elem? entries n ≡ some e
      → 0 < e.run_length
      → e.tile_id ≤ id
      → id < (e.tile_id + e.run_length) % 2 ^ 64
      → Holds gunzip s id e (suc depth) entries
  leaf :
      {depth : ℕ} {entries entries' : List DirectoryEntry} (n : ℕ) (l : DirectoryEntry)
      → get_elem? entries n ≡ some l
      → l.run_length ≡ 0
      → l.tile_id ≤ id
      → leaf_directory gunzip s l ≡ ok entries'
      → Holds gunzip s id e depth entries'
      → Holds gunzip s id e (suc depth) entries

covers-lt :
    (e : DirectoryEntry) (id : ℕ)
    → covers e id ≡ true
    → 0 < e.run_length
    → id < (e.tile_id + e.run_length) % 2 ^ 64
unfolding covers
covers-lt e id h run = ground arith

entry_within-Holds :
    (gunzip : Text → Option Text) (s : Source) (id depth : ℕ) (entries : List DirectoryEntry)
    (e : DirectoryEntry)
    → entry_within gunzip s depth entries id ≡ ok (some e)
    → Holds gunzip s id e depth entries
unfolding entry_within
entry_within-Holds gunzip s id zero entries e h = absurd (ground arith)
entry_within-Holds gunzip s id (suc depth) entries e h =
    elim (Option-cases (find_entry entries id)) [
      | inl missing ↦ absurd (ground arith)
      | inr (x, found) ↦
          let (n, stands, low) = find_entry-stands id entries x found in
          elim (Bool-cases (ltb 0 x.run_length)) [
            | inl run ↦
                let same : x ≡ e = ground arith in
                let in_run : id < (x.tile_id + x.run_length) % 2 ^ 64 =
                  covers-lt x id (find_entry-covers id entries x found) (ground arith) in
                subst (λ y. Holds gunzip s id y (suc depth) entries) same
                  (Holds.here n stands (ground arith) low in_run)
            | inr no_run ↦ elim (Result-cases (leaf_directory gunzip s x)) [
              | inl (entries', read) ↦
                  Holds.leaf n x stands (ground arith) low read
                    (entry_within-Holds gunzip s id depth entries' e (ground arith))
              | inr (bad, failed) ↦ absurd (ground arith)
            ]
          ]
    ]

-- The bytes of a tile are those of an entry that a directory of the archive holds, at the end of a
-- path of at most four directories from the root, and whose run starts at the tile's number or before
-- it and has it; and they lie within the file. No tile of a zoom above 31 is served.
pub tile-Holds :
    (gunzip : Text → Option Text) (s : Source) (z x y : ℕ) (bytes : Text)
    → tile gunzip s z x y ≡ ok bytes
    → (z ≤ 31)
      × (e : DirectoryEntry) × Holds gunzip s (zxy_to_id z x y) e 4 s.root
      × (bytes ≡ take e.length (drop ((s.head.tile_data_offset + e.offset) % 2 ^ 64) s.file))
      × ((e.length ≡ 0)
          ⊎ ((s.head.tile_data_offset + e.offset) % 2 ^ 64 + e.length ≤ length s.file))
unfolding tile tile_entry entry_data
tile-Holds gunzip s z x y bytes h = elim (Bool-cases (ltb 31 z)) [
  | inl high ↦ absurd (ground arith)
  | inr low ↦
      let byte : z % 256 ≡ z = ground arith in
      elim (Result-cases (entry_within gunzip s 4 s.root (zxy_to_id z x y))) [
        | inr (bad, failed) ↦ absurd (ground (arith, byte))
        | inl (none, missing) ↦ absurd (ground (arith, byte))
        | inl (some e, found) ↦
            let held : read_section s.file ((s.head.tile_data_offset + e.offset) % 2 ^ 64) e.length
                ≡ ok bytes =
              ground (arith, byte) in
            let holds = entry_within-Holds gunzip s (zxy_to_id z x y) 4 s.root e found in
            let part = read_section-bytes s.file _ e.length bytes held in
            (ground arith, e, holds, part.0, part.1)
      ]
]
