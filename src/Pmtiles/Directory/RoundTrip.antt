-- ===== src/Pmtiles/Directory/RoundTrip.antt =====
-- `decodeDirectory` reads what the format's writer wrote.
use mathlib.Core.List.{append_assoc, append-nil}
use geoverse_map_server.Base.{
  ℕ, ◌+◌, ◌-◌, ◌%◌, ◌^◌, ◌<◌, ◌≤◌, ◌≡◌, refl, ap, Bool, true, false, List, [], ◌∷◌, ◌++◌, Option,
  length, arith, ltb, ◌==◌, All,
}
use geoverse_map_server.Base.Text.{Text}
use geoverse_map_server.Base.Results.{ok}
use geoverse_map_server.Pmtiles.Varint.{put_uvarint, read_uvarint-put_uvarint}
use geoverse_map_server.Pmtiles.Directory.{
  DirectoryEntry, DirectoryError, bad_count, bad_tile_id, bad_run_length, bad_length, bad_offset,
  decompress, read_word, cons_column, read_ids, read_runs, read_lengths, offset_of, read_offsets,
  rows, decode_plain, decode_directory,
}
use geoverse_map_server.Pmtiles.Directory.Writer.{
  put_words, put_ids, offset_code, put_offsets, ids_of, runs_of, lengths_of, offsets_of,
  put_directory, IsEntry, Ascending,
}

read_word-put_uvarint :
    (e : DirectoryError) (v : ℕ) (r : Text)
    → v < 2 ^ 64
    → read_word e (put_uvarint v ++ r) ≡ ok (v, r)
unfolding read_word
read_word-put_uvarint e v r h = rw (read_uvarint-put_uvarint v r h, read_word)

read_ids-put_ids :
    (last_id : ℕ) (es : List DirectoryEntry) (r : Text)
    → All IsEntry es
    → Ascending last_id es
    → read_ids (length es) last_id (put_ids last_id (ids_of es) ++ r) ≡ ok (ids_of es, r)
unfolding read_ids put_ids cons_column
read_ids-put_ids last_id [] r a b = refl
read_ids-put_ids last_id (e ∷ es) r a b =
    let small : e.tile_id - last_id < 2 ^ 64 = omega (arith, a.0.id_bound) in
    let sum : (last_id + (e.tile_id - last_id)) % 2 ^ 64 ≡ e.tile_id =
      omega (arith, a.0.id_bound, b.0) in
    rw (
      append_assoc (put_uvarint (e.tile_id - last_id)) (put_ids e.tile_id (ids_of es)) r,
      read_word-put_uvarint bad_tile_id (e.tile_id - last_id) (put_ids e.tile_id (ids_of es) ++ r)
          small,
      sum,
      read_ids-put_ids e.tile_id es r a.1 b.1,
    )

read_runs-put_words :
    (es : List DirectoryEntry) (r : Text)
    → All IsEntry es
    → read_runs (length es) (put_words (runs_of es) ++ r) ≡ ok (runs_of es, r)
unfolding read_runs put_words cons_column
read_runs-put_words [] r a = refl
read_runs-put_words (e ∷ es) r a = rw (
  append_assoc (put_uvarint e.run_length) (put_words (runs_of es)) r,
  read_word-put_uvarint bad_run_length e.run_length (put_words (runs_of es) ++ r) (a.0.run_bound),
  read_runs-put_words es r a.1,
)

read_lengths-put_words :
    (es : List DirectoryEntry) (r : Text)
    → All IsEntry es
    → read_lengths (length es) (put_words (lengths_of es) ++ r) ≡ ok (lengths_of es, r)
unfolding read_lengths put_words cons_column
read_lengths-put_words [] r a = refl
read_lengths-put_words (e ∷ es) r a =
    let some_bytes : (e.length == 0) ≡ false = ground (arith, a.0.nonempty) in
    rw (
      append_assoc (put_uvarint e.length) (put_words (lengths_of es)) r,
      read_word-put_uvarint bad_length e.length (put_words (lengths_of es) ++ r)
          (omega (arith, a.0.end_bound)),
      read_lengths-put_words es r a.1,
      some_bytes,
    )

offset_of-offset_code :
    (first : Bool) (end offset : ℕ) → offset_of first end (offset_code first end offset) ≡ ok offset
unfolding offset_of offset_code
offset_of-offset_code true end offset = ground arith
offset_of-offset_code false end offset = ground arith

offset_code-lt :
    (first : Bool) (end offset : ℕ) → offset + 1 < 2 ^ 64 → offset_code first end offset < 2 ^ 64
unfolding offset_code
offset_code-lt first end offset h = ground arith

read_offsets-put_offsets :
    (first : Bool) (end : ℕ) (es : List DirectoryEntry) (r : Text)
    → All IsEntry es
    → read_offsets first end (lengths_of es) (put_offsets first end es ++ r) ≡ ok (offsets_of es, r)
unfolding read_offsets put_offsets cons_column
read_offsets-put_offsets first end [] r a = refl
read_offsets-put_offsets first end (e ∷ es) r a =
    let code = offset_code first end e.offset in
    let next = e.offset + e.length in
    let fits : next % 2 ^ 64 ≡ next = omega (arith, a.0.end_bound) in
    rw (
      append_assoc (put_uvarint code) (put_offsets false next es) r,
      read_word-put_uvarint bad_offset code (put_offsets false next es ++ r)
          (offset_code-lt first end e.offset (omega (arith, a.0.end_bound, a.0.nonempty))),
      offset_of-offset_code first end e.offset,
      fits,
      read_offsets-put_offsets false next es r a.1,
    )

rows-columns :
    (es : List DirectoryEntry) → rows (ids_of es) (runs_of es) (lengths_of es) (offsets_of es) ≡ es
unfolding rows
rows-columns [] = refl
rows-columns (e ∷ es) = ap (◌∷◌ e) (rows-columns es)

-- The bytes that a writer of directories gives for one to ten million entries with words in their
-- fields and some bytes each, whose numbers do not decrease, decode to those entries, however they
-- were compressed.
pub decode_directory-put_directory :
    (gunzip : Text → Option Text) (raw : Text) (compression : ℕ) (es : List DirectoryEntry)
    → decompress gunzip raw compression ≡ ok (put_directory es)
    → All IsEntry es
    → Ascending 0 es
    → 0 < length es
    → length es ≤ 10000000
    → decode_directory gunzip raw compression ≡ ok es
unfolding decode_directory decode_plain put_directory
decode_directory-put_directory gunzip raw compression es plain a b some_entries few =
    let ids = put_ids 0 (ids_of es) in
    let runs = put_words (runs_of es) in
    let lengths = put_words (lengths_of es) in
    let offsets = put_offsets true 0 es in
    let positive : (length es == 0) ≡ false = ground arith in
    let reasonable : ltb 10000000 (length es) ≡ false = ground arith in
    rw (
      plain,
      read_word-put_uvarint bad_count (length es) (ids ++ (runs ++ (lengths ++ offsets)))
          (omega arith),
      positive,
      reasonable,
      read_ids-put_ids 0 es (runs ++ (lengths ++ offsets)) a b,
      read_runs-put_words es (lengths ++ offsets) a,
      read_lengths-put_words es offsets a,
      ← append-nil offsets,
      read_offsets-put_offsets true 0 es [] a,
      rows-columns es,
    )
