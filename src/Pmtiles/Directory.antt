-- ===== src/Pmtiles/Directory.antt =====
-- The directories of an archive (internal/source/pmtiles/pmtiles.go): `decompress`,
-- `decodeDirectory` and `findEntry`. Words have 64 bits. gzip is an argument. Of an error the model
-- keeps which check failed, and not the index or the text.
pub mod Writer
pub mod RoundTrip
pub mod Search
use geoverse_map_server.Base.{
  ℕ, zero, suc, ◌+◌, ◌-◌, ◌/◌, ◌%◌, ◌^◌, Bool, true, false, not, ◌&&◌, ◌||◌, List, [], ◌∷◌, Option,
  none, some, length, get_elem?, ltb, ◌==◌, if◌then◌else◌,
}
use geoverse_map_server.Base.Text.{Text}
use geoverse_map_server.Base.Results.{Result, ok, error, and_then}
use geoverse_map_server.Pmtiles.Varint.{read_uvarint}

pub record DirectoryEntry : Type 0 where
  pub tile_id : ℕ
  pub offset : ℕ
  pub length : ℕ
  pub run_length : ℕ

pub data DirectoryError : Type 0 where
  bad_compression bad_gzip : DirectoryError
  bad_count many_entries : DirectoryError
  bad_tile_id bad_run_length bad_length bad_offset bad_first_offset : DirectoryError

abbrev pub compression_none : ℕ
compression_none = 1

abbrev pub compression_gzip : ℕ
compression_gzip = 2

-- `decompress`
unfoldable pub decompress : (Text → Option Text) → Text → ℕ → Result Text DirectoryError
decompress gunzip raw compression =
    if compression == compression_none
    then ok raw
    else if compression == compression_gzip
    then elim (gunzip raw) [ none ↦ error bad_gzip | some plain ↦ ok plain ]
    else error bad_compression

unfoldable pub read_word : DirectoryError → Text → Result (ℕ × Text) DirectoryError
read_word e r = elim (read_uvarint r) [ none ↦ error e | some w ↦ ok w ]

-- What a loop of `decodeDirectory` reads: a column of the table, and the bytes left.
abbrev pub Column : Type 0
Column = Result (List ℕ × Text) DirectoryError

unfoldable pub cons_column : ℕ → List ℕ × Text → Column
cons_column v rest = ok (v ∷ rest.0, rest.1)

-- The first loop: each number is the sum of the differences so far.
unfoldable pub read_ids : ℕ → ℕ → Text → Column
read_ids zero last_id r = ok ([], r)
read_ids (suc n) last_id r =
    and_then (read_word bad_tile_id r)
      (λ w. let id = (last_id + w.0) % 2 ^ 64 in and_then (read_ids n id w.1) (cons_column id))

-- The second loop.
unfoldable pub read_runs : ℕ → Text → Column
read_runs zero r = ok ([], r)
read_runs (suc n) r =
    and_then (read_word bad_run_length r) (λ w. and_then (read_runs n w.1) (cons_column w.0))

-- The third loop.
unfoldable pub read_lengths : ℕ → Text → Column
read_lengths zero r = ok ([], r)
read_lengths (suc n) r = and_then (read_word bad_length r) (λ w.
    let rest = and_then (read_lengths n w.1) (cons_column w.0) in
    if w.0 == 0 then error bad_length else rest)

-- An offset: 0 stands for the end of the entry before.
unfoldable pub offset_of : Bool → ℕ → ℕ → Result ℕ DirectoryError
offset_of first next_offset encoded =
    if encoded == 0 && not first
    then ok next_offset
    else if encoded == 0
    then error bad_first_offset
    else ok (encoded - 1)

-- The fourth loop, over the lengths.
unfoldable pub read_offsets : Bool → ℕ → List ℕ → Text → Column
read_offsets first next_offset [] r = ok ([], r)
read_offsets first next_offset (l ∷ ls) r = and_then (read_word bad_offset r) (λ w.
    and_then (offset_of first next_offset w.0)
      (λ offset. and_then (read_offsets false ((offset + l) % 2 ^ 64) ls w.1) (cons_column offset)))

-- The table, row by row.
unfoldable pub rows : List ℕ → List ℕ → List ℕ → List ℕ → List DirectoryEntry
rows (id ∷ ids) (run ∷ runs) (l ∷ ls) (o ∷ os) =
    record { tile_id = id; offset = o; length = l; run_length = run } ∷ rows ids runs ls os
rows ids runs ls os = []

-- `decodeDirectory` of bytes that are not compressed.
unfoldable pub decode_plain : Text → Result (List DirectoryEntry) DirectoryError
decode_plain plain = and_then (read_word bad_count plain) (λ count.
    if count.0 == 0
    then error bad_count
    else if ltb 10000000 count.0
    then error many_entries
    else and_then (read_ids count.0 0 count.1) (λ ids. and_then (read_runs count.0 ids.1) (λ runs.
      and_then (read_lengths count.0 runs.1) (λ lengths.
        and_then (read_offsets true 0 lengths.0 lengths.1)
          (λ offsets. ok (rows ids.0 runs.0 lengths.0 offsets.0))))))

-- `decodeDirectory`
unfoldable pub decode_directory :
    (Text → Option Text) → Text → ℕ → Result (List DirectoryEntry) DirectoryError
decode_directory gunzip raw compression = and_then (decompress gunzip raw compression) decode_plain

-- The loop of `sort.Search`: the least index from `i` to `j` at which the test holds.
unfoldable pub search_between : ℕ → (ℕ → Bool) → ℕ → ℕ → ℕ
search_between zero f i j = i
search_between (suc fuel) f i j =
    let h = (i + j) / 2 in
    let next : ℕ × ℕ = if f h then (i, h) else (h + 1, j) in
    let rest = search_between fuel f next.0 next.1 in if ltb i j then rest else i

-- `sort.Search`. An interval of `n` is empty after at most `n` rounds.
unfoldable pub sort_search : ℕ → (ℕ → Bool) → ℕ
sort_search n f = search_between n f 0 n

-- `entries[i].tileID > tileID`; past the end there is nothing to read, and `sort.Search` asks for
-- no such index.
unfoldable pub is_after : List DirectoryEntry → ℕ → ℕ → Bool
is_after entries id i = elim (get_elem? entries i) [ none ↦ true | some e ↦ ltb id e.tile_id ]

-- `e.runLength == 0 || tileID < e.tileID + e.runLength`
unfoldable pub covers : DirectoryEntry → ℕ → Bool
covers e id = e.run_length == 0 || ltb id ((e.tile_id + e.run_length) % 2 ^ 64)

unfoldable pub entry_if : ℕ → Option DirectoryEntry → Option DirectoryEntry
entry_if id none = none
entry_if id (some e) = if covers e id then some e else none

-- `findEntry`
unfoldable pub find_entry : List DirectoryEntry → ℕ → Option DirectoryEntry
find_entry entries id =
    let i = sort_search (length entries) (is_after entries id) in
    if i == 0 then none else entry_if id (get_elem? entries (i - 1))
