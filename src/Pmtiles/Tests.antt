-- ===== src/Pmtiles/Tests.antt =====
-- Runs of the archive reader, and its theorems at concrete inputs.
use geoverse_map_server.Base.{
  ℕ, zero, suc, ◌+◌, ◌-◌, ◌%◌, ◌^◌, ◌<◌, ◌≤◌, ◌≡◌, refl, false, List, [], ◌∷◌, ◌++◌, Option, none,
  length, take, drop, ◌⊎◌, arith, ℕ_discrete,
}
use geoverse_map_server.Base.Text.{Text, str, text_eq}
use geoverse_map_server.Base.Results.{ok}
use geoverse_map_server.Pmtiles.Hilbert.{bit, mirror, turn, distance, zxy_to_id}
use geoverse_map_server.Pmtiles.Hilbert.Curve.{quadrant, curve}
use geoverse_map_server.Pmtiles.Hilbert.Ids.{lower_count, zxy_to_id-curve, zxy_to_id-injective}
use geoverse_map_server.Pmtiles.Varint.{read_more, read_uvarint, uvarint_of, put_uvarint}
use geoverse_map_server.Pmtiles.Directory.{
  DirectoryEntry, decompress, read_word, cons_column, read_ids, read_runs, read_lengths, offset_of,
  read_offsets, rows, decode_plain, decode_directory, search_between, sort_search, is_after, covers,
  entry_if, find_entry,
}
use geoverse_map_server.Pmtiles.Directory.Writer.{
  put_words, put_ids, offset_code, put_offsets, put_directory,
}
use geoverse_map_server.Pmtiles.Directory.RoundTrip.{decode_directory-put_directory}
use geoverse_map_server.Pmtiles.Directory.Search.{last_entry, find_entry-last_entry}
use geoverse_map_server.Pmtiles.Archive.{
  ArchiveConfig, Metadata, Source, little_endian, header_of, checked_header, parse_header, mvt,
  format_for_tile_type, read_at, read_section, in_directory, is_supported, metadata_of, tile_info,
  load_sections, load_header, load, leaf_directory, tile,
}
use geoverse_map_server.Pmtiles.Archive.Load.{IsLoaded, load-IsLoaded}
use geoverse_map_server.Pmtiles.Archive.Tiles.{Leads, tile-Leads, Holds, tile-Holds}

program : Unit {0}
unfolding bit mirror turn distance zxy_to_id quadrant curve lower_count read_more read_uvarint
    uvarint_of put_uvarint decompress read_word cons_column read_ids read_runs read_lengths
    offset_of read_offsets rows decode_plain decode_directory search_between sort_search is_after
    covers entry_if find_entry put_words put_ids offset_code put_offsets put_directory last_entry
    text_eq ℕ_discrete little_endian header_of checked_header parse_header format_for_tile_type
    read_at read_section in_directory is_supported metadata_of tile_info load_sections load_header
    load
program = tt

-- The order of the tiles of zoom 1.
first_tiles :
    zxy_to_id 1 0 0 ∷ zxy_to_id 1 0 1 ∷ zxy_to_id 1 1 1 ∷ zxy_to_id 1 1 0 ∷ [] ≡ 1 ∷ 2 ∷ 3 ∷ 4 ∷ []
unfolding program
first_tiles = refl

zxy_to_id-curve_example :
    (zxy_to_id 1 1 0 ≡ lower_count 1 + curve 1 1 0) × (zxy_to_id 1 1 0 < lower_count 2)
zxy_to_id-curve_example = zxy_to_id-curve 1 1 0 (omega arith) (omega arith) (omega arith)

abbrev one : ℕ
one = 1

zxy_to_id-injective_example : (one ≡ one) × (one ≡ one) × (one ≡ one)
zxy_to_id-injective_example =
    zxy_to_id-injective one one one one one one (omega arith) (omega arith) (omega arith)
      (omega arith) (omega arith) (omega arith) refl

abbrev entries : List DirectoryEntry
entries =
    record { tile_id = 1; offset = 0; length = 3; run_length = 2 }
    ∷ record { tile_id = 4; offset = 3; length = 4; run_length = 1 }
    ∷ []

written : put_directory entries ≡ 2 ∷ 1 ∷ 3 ∷ 2 ∷ 1 ∷ 3 ∷ 4 ∷ 1 ∷ 0 ∷ []
unfolding program
written = refl

abbrev no_gunzip : Text → Option Text
no_gunzip t = none

plain : decompress no_gunzip (put_directory entries) 1 ≡ ok (put_directory entries)
unfolding decompress
plain = refl

decode_directory-put_directory_example :
    decode_directory no_gunzip (put_directory entries) 1 ≡ ok entries
decode_directory-put_directory_example =
    decode_directory-put_directory no_gunzip (put_directory entries) 1 entries plain
      (
        record {
          id_bound = omega arith;
          run_bound = omega arith;
          nonempty = omega arith;
          end_bound = omega arith;
        },
        (
          record {
            id_bound = omega arith;
            run_bound = omega arith;
            nonempty = omega arith;
            end_bound = omega arith;
          },
          tt,
        ),
      )
      (omega arith, (omega arith, tt)) (omega arith) (omega arith)

find_entry-last_entry_example : find_entry entries 2 ≡ entry_if 2 (last_entry 2 entries)
find_entry-last_entry_example = find_entry-last_entry entries 2 (omega arith, (omega arith, tt))

-- An archive: the header, the directory at 127, the tiles at 136.
abbrev zeros : ℕ → Text
zeros zero = []
zeros (suc n) = 0 ∷ zeros n

abbrev word : ℕ → Text
word n = n ∷ zeros 7

abbrev file : Text
file =
    str "PMTiles"
    ++ (3 ∷ word 127)
    ++ word 9
    ++ word 136
    ++ word 0
    ++ word 136
    ++ word 0
    ++ word 136
    ++ zeros 33
    ++ (1 ∷ 1 ∷ 1 ∷ 0 ∷ 1 ∷ [])
    ++ zeros 25
    ++ (2 ∷ 1 ∷ 3 ∷ 2 ∷ 1 ∷ 3 ∷ 4 ∷ 1 ∷ 0 ∷ [])
    ++ str "abcdefg"

abbrev config : ArchiveConfig
config = record {
  name = str "roads";
  title = [];
  description = [];
  min_zoom = none;
  max_zoom = none;
}

abbrev no_parse : Text → Option Metadata
no_parse t = none

abbrev source : Source
source = record {
  file = file;
  head = record {
    root_offset = 127;
    root_length = 9;
    metadata_offset = 136;
    metadata_length = 0;
    leaf_offset = 136;
    tile_data_offset = 136;
    internal_comp = 1;
    tile_comp = 1;
    tile_type = 1;
    min_zoom = 0;
    max_zoom = 1;
    min_lon = 0;
    min_lat = 0;
    max_lon = 0;
    max_lat = 0;
    center_zoom = 0;
    center_lon = 0;
    center_lat = 0;
  };
  root = entries;
  info = record {
    name = str "roads";
    title = str "roads";
    description = [];
    format = mvt;
    min_zoom = 0;
    max_zoom = 1;
    bounds = (0, 0, 0, 0);
    center = (0, 0, 0);
    vector_layers = [];
    gzipped = false;
    cacheable = false;
  };
}

loaded : load no_gunzip no_parse config file ≡ ok source
unfolding program
loaded = refl

load-IsLoaded_example : IsLoaded no_gunzip file source
load-IsLoaded_example = load-IsLoaded no_gunzip no_parse config file source loaded

tile_four : zxy_to_id 1 1 0 ≡ 4
unfolding program
tile_four = refl

path :
    Leads no_gunzip source
      (zxy_to_id 1 1 0)
      (record { tile_id = 4; offset = 3; length = 4; run_length = 1 })
      4
      source.root
unfolding program
path = Leads.here (omega arith, (omega arith, tt)) refl (omega arith) (omega arith) (omega arith)

tile-Leads_example : tile no_gunzip source 1 1 0 ≡ read_section file 139 4
tile-Leads_example =
    tile-Leads no_gunzip source 1 1 0
      (record { tile_id = 4; offset = 3; length = 4; run_length = 1 }) (omega arith) path

served : tile no_gunzip source 1 1 0 ≡ ok (str "defg")
unfolding program
served = tile-Leads_example

tile-Holds_example :
    (1 ≤ 31)
    × (e : DirectoryEntry) × Holds no_gunzip source (zxy_to_id 1 1 0) e 4 source.root
    × (str "defg" ≡ take e.length (drop ((136 + e.offset) % 2 ^ 64) file))
    × ((e.length ≡ 0) ⊎ ((136 + e.offset) % 2 ^ 64 + e.length ≤ length file))
tile-Holds_example = tile-Holds no_gunzip source 1 1 0 (str "defg") served

-- An offset that wraps leads back to the root directory.
leaf :
    leaf_directory no_gunzip source
      (record { tile_id = 0; offset = 2 ^ 64 - 9; length = 9; run_length = 0 })
    ≡ ok entries
unfolding program leaf_directory
leaf = refl
