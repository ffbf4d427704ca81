-- ===== src/Pmtiles/Archive.antt =====
-- An archive in one file (internal/source/pmtiles/pmtiles.go): its header, what `load` checks, and
-- the reading of a tile. The file is the text of its bytes and no read fails below its end; gzip
-- and the parser of the metadata are arguments. The coordinates of the bounds and of the centre
-- stay in units of 1e-7 degrees, as the unsigned words that the header holds. Of an error the model
-- keeps which check failed.
pub mod Load
pub mod Tiles
use geoverse_map_server.Base.{
  ℕ, zero, suc, ◌+◌, ◌*◌, ◌%◌, ◌^◌, Bool, true, false, not, ◌&&◌, ◌||◌, List, [], ◌∷◌, Option, none,
  some, length, get_or, take, drop, ite, ltb, leb, ◌==◌, if◌then◌else◌,
}
use geoverse_map_server.Base.Text.{Text, str, text_eq}
use geoverse_map_server.Base.Results.{Result, ok, error, and_then}
use geoverse_map_server.Pmtiles.Hilbert.{zxy_to_id}
use geoverse_map_server.Pmtiles.Directory.{
  DirectoryEntry, DirectoryError, compression_none, compression_gzip, decompress, decode_directory,
  find_entry,
}

abbrev pub header_length : ℕ
header_length = 127

pub record Header : Type 0 where
  pub root_offset : ℕ
  pub root_length : ℕ
  pub metadata_offset : ℕ
  pub metadata_length : ℕ
  pub leaf_offset : ℕ
  pub tile_data_offset : ℕ
  pub internal_comp : ℕ
  pub tile_comp : ℕ
  pub tile_type : ℕ
  pub min_zoom : ℕ
  pub max_zoom : ℕ
  pub min_lon : ℕ
  pub min_lat : ℕ
  pub max_lon : ℕ
  pub max_lat : ℕ
  pub center_zoom : ℕ
  pub center_lon : ℕ
  pub center_lat : ℕ

pub data ArchiveError : Type 0 where
  short_read section_too_large buffer_panic : ArchiveError
  bad_header_length bad_magic empty_root bad_zooms : ArchiveError
  bad_internal_comp bad_tile_comp bad_tile_type bad_metadata : ArchiveError
  bad_directory : DirectoryError → ArchiveError
  too_nested not_found : ArchiveError

-- The bytes from an offset on, as a little-endian number of `n` bytes.
unfoldable pub little_endian : ℕ → Text → ℕ
little_endian zero raw = 0
little_endian (suc n) [] = 0
little_endian (suc n) (b ∷ raw) = b + 256 * little_endian n raw

-- The fields that `parseHeader` reads.
unfoldable pub header_of : Text → Header
header_of raw =
    let u64 : ℕ → ℕ = λ offset. little_endian 8 (drop offset raw) in
    let u32 : ℕ → ℕ = λ offset. little_endian 4 (drop offset raw) in
    let byte : ℕ → ℕ = λ offset. get_or raw offset 0 in
    record {
      root_offset = u64 8;
      root_length = u64 16;
      metadata_offset = u64 24;
      metadata_length = u64 32;
      leaf_offset = u64 40;
      tile_data_offset = u64 56;
      internal_comp = byte 97;
      tile_comp = byte 98;
      tile_type = byte 99;
      min_zoom = byte 100;
      max_zoom = byte 101;
      min_lon = u32 102;
      min_lat = u32 106;
      max_lon = u32 110;
      max_lat = u32 114;
      center_zoom = byte 118;
      center_lon = u32 119;
      center_lat = u32 123;
    }

-- The checks of `parseHeader`, over the fields.
unfoldable pub checked_header : Text → Header → Result Header ArchiveError
checked_header raw h =
    if not (length raw == header_length)
    then error bad_header_length
    else if not (ite (text_eq (take 7 raw) (str "PMTiles")) true false) || not (get_or raw 7 0 == 3)
    then error bad_magic
    else if h.root_length == 0
    then error empty_root
    else if ltb h.max_zoom h.min_zoom
    then error bad_zooms
    else ok h

-- `parseHeader`
unfoldable pub parse_header : Text → Result Header ArchiveError
parse_header raw = checked_header raw (header_of raw)

pub data TileFormat : Type 0 where
  mvt png jpg webp : TileFormat

-- `formatForTileType`
unfoldable pub format_for_tile_type : ℕ → Result TileFormat ArchiveError
format_for_tile_type t =
    if t == 1
    then ok mvt
    else if t == 2
    then ok png
    else if t == 3
    then ok jpg
    else if t == 4
    then ok webp
    else error bad_tile_type

-- `ReadAt` of a buffer: no bytes can be read anywhere but at a negative offset, and a read that
-- reaches the end of the file before it fills the buffer fails.
unfoldable pub read_at : Text → ℕ → ℕ → Result Text ArchiveError
read_at file offset n =
    if leb (2 ^ 63) offset
    then error short_read
    else if n == 0 || leb (offset + n) (length file)
    then ok (take n (drop offset file))
    else error short_read

-- The length from which on `make` of bytes panics, by the runtime on 64-bit machines. Below it the
-- memory is taken to be there.
abbrev pub max_buffer : ℕ
max_buffer = 2 ^ 48

-- `readSection`. The panic of `make` is a value here.
unfoldable pub read_section : Text → ℕ → ℕ → Result Text ArchiveError
read_section file offset n =
    if leb (2 ^ 63) n
    then error section_too_large
    else if ltb max_buffer n
    then error buffer_panic
    else read_at file offset n

pub record VectorLayer : Type 0 where
  pub id : Text
  pub fields : List (Text × Text)

-- What `load` takes from the metadata, and from the configuration of the source.
pub record Metadata : Type 0 where
  pub name : Text
  pub description : Text
  pub vector_layers : List VectorLayer

pub record ArchiveConfig : Type 0 where
  pub name : Text
  pub title : Text
  pub description : Text
  pub min_zoom : Option ℕ
  pub max_zoom : Option ℕ

pub record TileInfo : Type 0 where
  pub name : Text
  pub title : Text
  pub description : Text
  pub format : TileFormat
  pub min_zoom : ℕ
  pub max_zoom : ℕ
  pub bounds : ℕ × ℕ × ℕ × ℕ
  pub center : ℕ × ℕ × ℕ
  pub vector_layers : List VectorLayer
  pub gzipped : Bool
  pub cacheable : Bool

pub record Source : Type 0 where
  pub file : Text
  pub head : Header
  pub root : List DirectoryEntry
  pub info : TileInfo

abbrev pub or_else : Text → Text → Text
or_else [] other = other
or_else (c ∷ t) other = c ∷ t

abbrev pub given_or : Option ℕ → ℕ → ℕ
given_or none n = n
given_or (some m) n = m

unfoldable pub in_directory : {A : Type 0} → Result A DirectoryError → Result A ArchiveError
in_directory (ok a) = ok a
in_directory (error e) = error (bad_directory e)

-- `compressionNone` or `compressionGzip`.
unfoldable pub is_supported : ℕ → Bool
is_supported c = c == compression_none || c == compression_gzip

abbrev pub no_metadata : Metadata
no_metadata = record { name = []; description = []; vector_layers = [] }

-- `json.Unmarshal` of the metadata, if there is any.
unfoldable pub metadata_of : (Text → Option Metadata) → Text → Result Metadata ArchiveError
metadata_of parse [] = ok no_metadata
metadata_of parse (c ∷ raw) = elim (parse (c ∷ raw)) [ none ↦ error bad_metadata | some m ↦ ok m ]

unfoldable pub tile_info : ArchiveConfig → Header → TileFormat → Metadata → TileInfo
tile_info cfg h format m = record {
  name = cfg.name;
  title = or_else (or_else cfg.title m.name) cfg.name;
  description = or_else cfg.description m.description;
  format = format;
  min_zoom = given_or cfg.min_zoom h.min_zoom;
  max_zoom = given_or cfg.max_zoom h.max_zoom;
  bounds = (h.min_lon, h.min_lat, h.max_lon, h.max_lat);
  center = (h.center_lon, h.center_lat, h.center_zoom);
  vector_layers = m.vector_layers;
  gzipped = h.tile_comp == compression_gzip;
  cacheable = false;
}

module _ (gunzip : Text → Option Text) where
  -- The part of `load` after the checks of the header.
  unfoldable pub load_sections :
      (Text → Option Metadata)
      → ArchiveConfig
      → Text
      → Header
      → TileFormat
      → Result Source ArchiveError
  load_sections parse cfg file h format =
      and_then (read_section file h.root_offset h.root_length) (λ root_raw.
        and_then (in_directory (decode_directory gunzip root_raw h.internal_comp)) (λ root.
          and_then (read_section file h.metadata_offset h.metadata_length) (λ metadata_raw.
            and_then (in_directory (decompress gunzip metadata_raw h.internal_comp)) (λ metadata.
              and_then (metadata_of parse metadata) (λ m.
                let source : Source = record {
                  file = file;
                  head = h;
                  root = root;
                  info = tile_info cfg h format m;
                } in
                ok source)))))

  -- The part of `load` after `parseHeader`.
  unfoldable pub load_header :
      (Text → Option Metadata) → ArchiveConfig → Text → Header → Result Source ArchiveError
  load_header parse cfg file h =
      if not (is_supported h.internal_comp)
      then error bad_internal_comp
      else if not (is_supported h.tile_comp)
      then error bad_tile_comp
      else and_then (format_for_tile_type h.tile_type) (load_sections parse cfg file h)

  -- `load`
  unfoldable pub load : (Text → Option Metadata) → ArchiveConfig → Text → Result Source ArchiveError
  load parse cfg file =
      and_then (read_at file 0 header_length)
        (λ raw. and_then (parse_header raw) (load_header parse cfg file))

  -- The directory of a leaf.
  unfoldable pub leaf_directory :
      Source → DirectoryEntry → Result (List DirectoryEntry) ArchiveError
  leaf_directory s e =
      and_then (read_section s.file ((s.head.leaf_offset + e.offset) % 2 ^ 64) e.length)
        (λ raw. in_directory (decode_directory gunzip raw s.head.internal_comp))

  -- The loop of `tileEntry`, for so many more levels.
  pub entry_within :
      Source → ℕ → List DirectoryEntry → ℕ → Result (Option DirectoryEntry) ArchiveError
  entry_within s zero entries id = error too_nested
  entry_within s (suc depth) entries id = elim (find_entry entries id) [
    | none ↦ ok none
    | some e ↦
        if ltb 0 e.run_length
        then ok (some e)
        else and_then (leaf_directory s e) (λ leaf. entry_within s depth leaf id)
  ]

  -- `tileEntry`
  pub tile_entry : Source → ℕ → Result (Option DirectoryEntry) ArchiveError
  tile_entry s id = entry_within s 4 s.root id

  -- The part of `Tile` that reads the data of an entry.
  pub entry_data : Source → Option DirectoryEntry → Result Text ArchiveError
  entry_data s none = error not_found
  entry_data s (some e) =
      read_section s.file ((s.head.tile_data_offset + e.offset) % 2 ^ 64) e.length

  -- `Tile`
  pub tile : Source → ℕ → ℕ → ℕ → Result Text ArchiveError
  tile s z x y =
      if ltb 31 z
      then error not_found
      else and_then (tile_entry s (zxy_to_id (z % 256) x y)) (entry_data s)
