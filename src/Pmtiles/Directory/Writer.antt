-- ===== src/Pmtiles/Directory/Writer.antt =====
-- A writer of directories, as the format describes them: what `decodeDirectory` is to read.
use geoverse_map_server.Base.{
  ℕ, ◌+◌, ◌-◌, ◌^◌, ◌<◌, ◌≤◌, Bool, true, false, not, ◌&&◌, List, [], ◌∷◌, ◌++◌, map, length, ◌==◌,
  if◌then◌else◌,
}
use geoverse_map_server.Base.Text.{Text}
use geoverse_map_server.Pmtiles.Varint.{put_uvarint}
use geoverse_map_server.Pmtiles.Directory.{DirectoryEntry}

unfoldable pub put_words : List ℕ → Text
put_words [] = []
put_words (v ∷ vs) = put_uvarint v ++ put_words vs

unfoldable pub put_ids : ℕ → List ℕ → Text
put_ids last_id [] = []
put_ids last_id (id ∷ ids) = put_uvarint (id - last_id) ++ put_ids id ids

-- An offset that is the end of the entry before is written as 0, and any other plus 1.
unfoldable pub offset_code : Bool → ℕ → ℕ → ℕ
offset_code first end offset = if not first && offset == end then 0 else offset + 1

unfoldable pub put_offsets : Bool → ℕ → List DirectoryEntry → Text
put_offsets first end [] = []
put_offsets first end (e ∷ es) =
    put_uvarint (offset_code first end e.offset) ++ put_offsets false (e.offset + e.length) es

abbrev pub ids_of : List DirectoryEntry → List ℕ
ids_of = map (λ e. e.tile_id)

abbrev pub runs_of : List DirectoryEntry → List ℕ
runs_of = map (λ e. e.run_length)

abbrev pub lengths_of : List DirectoryEntry → List ℕ
lengths_of = map (λ e. e.length)

abbrev pub offsets_of : List DirectoryEntry → List ℕ
offsets_of = map (λ e. e.offset)

unfoldable pub put_directory : List DirectoryEntry → Text
put_directory es =
    put_uvarint (length es)
    ++ (put_ids 0 (ids_of es)
        ++ (put_words (runs_of es) ++ (put_words (lengths_of es) ++ put_offsets true 0 es)))

-- An entry with words in its fields, that is not empty, and ends within a word.
pub record IsEntry (e : DirectoryEntry) : Type 0 where
  pub id_bound : e.tile_id < 2 ^ 64
  pub run_bound : e.run_length < 2 ^ 64
  pub nonempty : 0 < e.length
  pub end_bound : e.offset + e.length < 2 ^ 64

-- The numbers do not decrease.
abbrev pub Ascending : ℕ → List DirectoryEntry → Type 0
Ascending last_id [] = Unit
Ascending last_id (e ∷ es) = (last_id ≤ e.tile_id) × Ascending e.tile_id es
