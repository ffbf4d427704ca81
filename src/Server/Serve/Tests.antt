-- ===== src/Server/Serve/Tests.antt =====
-- Runs of the routes to a tile, and their theorems at concrete inputs.
use geoverse_map_server.Base.{
  ◌≡◌, ◌⊎◌, refl, true, false, [], ◌∷◌, ◌++◌, Option, none, some, ℕ_discrete,
}
use geoverse_map_server.Base.Ints.{pos}
use geoverse_map_server.Base.Results.{ok}
use geoverse_map_server.Base.Text.{Text, str, text_eq}
use geoverse_map_server.Cache.Memory
use geoverse_map_server.Cache.Memory.History.{new-IsValid}
use geoverse_map_server.Cache.Disk.Access.{no_read_faults, no_write_faults}
use geoverse_map_server.Cache.Tiered.{Tiered}
use geoverse_map_server.Pmtiles.Archive.{mvt}
use geoverse_map_server.Server.{
  Tile, side, valid, split_last, lower, is_extension, split_ext, digits_from, in_word, parse_uint,
  checked_tile, tile_of, parse_tile, ext_matches, format_name,
}
use geoverse_map_server.Server.Serve.{
  TileSource, Response, tile_content, no_content, unknown_matrix_set, Request, Service,
  decimal_within, cache_key, is_gzipped, cache_get, cache_set, respond, after_miss, after_get,
  serve_source, serve_tile, serve_parsed, handle_tile, handle_standard_tile, handle_wmts_tile,
}
use geoverse_map_server.Server.Serve.Routes.{
  StackValid, Panics, handle_standard_tile-handle_tile, handle_tile-total,
}

abbrev source : TileSource
source = record {
  format = mvt;
  min_zoom = pos 0;
  max_zoom = pos 3;
  cacheable = true;
  tile = λ z x y. some (ok (z ∷ x ∷ y ∷ []));
}

abbrev service : Service
service = record { source_of = λ layer. some source; tag_of = λ b. b; gunzip = λ b. none }

abbrev request : Request
request = record {
  if_none_match = [];
  accepts_gzip = true;
  reads = no_read_faults;
  writes = no_write_faults;
  suffix = str "1";
  now = 1;
  disk_now = 2;
  promote_now = 3;
  stored = 4;
  disk_stored = 5;
}

program : Unit {0}
unfolding side valid split_last lower is_extension split_ext digits_from in_word parse_uint
    checked_tile tile_of parse_tile ext_matches format_name text_eq ℕ_discrete decimal_within
    cache_key is_gzipped cache_get cache_set respond after_miss after_get serve_source serve_tile
    serve_parsed handle_tile handle_standard_tile
program = tt

-- Without caches the source answers.
uncached :
    handle_tile service request (str "roads") (str "2") (str "1") (str "3.pbf") none
    ≡ some (none, tile_content mvt (2 ∷ 1 ∷ 3 ∷ []) (2 ∷ 1 ∷ 3 ∷ []) false)
unfolding program
uncached = refl

beyond :
    handle_tile service request (str "roads") (str "4") (str "1") (str "3.mvt") none
    ≡ some (none, no_content)
unfolding program
beyond = refl

other_set :
    handle_standard_tile service request
      (str "roads")
      (str "other")
      (str "2")
      (str "3")
      (str "1")
      none
    ≡ some (none, unknown_matrix_set)
unfolding program
other_set = refl

abbrev tiers : Option Tiered
tiers = some (record { mem = some (Memory.new 2 10); disk = none })

handle_standard_tile-handle_tile_example :
    (handle_standard_tile service request
        (str "roads")
        (str "WebMercatorQuad")
        (str "2")
        (str "3")
        (str "1")
        tiers
      ≡ handle_tile service request
          (str "roads")
          (str "2")
          (str "1")
          (str "3" ++ b'.' ∷ format_name mvt)
          tiers)
    × (handle_wmts_tile service request
          (str "roads")
          (str "GoogleMapsCompatible")
          (str "2")
          (str "3")
          (str "1" ++ b'.' ∷ format_name mvt)
          tiers
        ≡ handle_tile service request
            (str "roads")
            (str "2")
            (str "1")
            (str "3" ++ b'.' ∷ format_name mvt)
            tiers)
handle_standard_tile-handle_tile_example =
    handle_standard_tile-handle_tile service request (str "roads") (str "2") (str "3") (str "1")
      tiers refl

handle_tile-total_example :
    ((c' : Option Tiered) × (r : Response) × (handle_tile service request
          (str "roads")
          (str "2")
          (str "1")
          (str "3.pbf")
          tiers
        ≡ some (c', r))
      × StackValid c')
    ⊎ ((p : Text × Text) × (t : Tile) × (split_ext (str "3.pbf") ≡ some p)
        × (parse_tile (str "2") (str "1") p.0 ≡ ok t)
        × Panics service (str "roads") t)
handle_tile-total_example =
    handle_tile-total service request (str "roads") (str "2") (str "1") (str "3.pbf") tiers
      (new-IsValid 2 10)
