-- ===== src/Server/Serve.antt =====
-- internal/server/tiles.go and the tile routes of tiles_ogc.go and wmts.go: how a request for a
-- tile is answered from the stack of caches and the source. The registry, the sources, the hash and
-- gzip are arguments. A response is its status, and for a tile its format, bytes, tag and whether
-- the bytes are sent as gzip. `none` is a panic.
mod Routes
mod Tests
use geoverse_map_server.Base.{
  ℕ, zero, suc, ◌+◌, ◌-◌, ◌/◌, ◌%◌, ◌^◌, Bool, true, false, not, ◌&&◌, ◌||◌, List, [], ◌∷◌, ◌++◌,
  Option, none, some, ite, length, get_or, ltb, ◌==◌, if◌then◌else◌, ◌>>=◌,
}
use geoverse_map_server.Base.Ints.{ℤ, pos, negsuc}
use geoverse_map_server.Base.Results.{Result, ok, error}
use geoverse_map_server.Base.Text.{Text, str, text_eq}
use geoverse_map_server.Cache.Disk.{ReadFaults, WriteFaults}
use geoverse_map_server.Cache.Tiered
use geoverse_map_server.Cache.Tiered.{Tiered}
use geoverse_map_server.Pmtiles.Archive.{TileFormat}
use geoverse_map_server.Server.{Tile, AddressError, split_ext, parse_tile, ext_matches, format_name}

pub data TileFailure : Type 0 where
  tile_not_found tile_failed : TileFailure

-- The conversion of an `int` to 32 bits without a sign.
abbrev pub uint32 : ℤ → ℕ
uint32 (pos n) = n % 2 ^ 32
uint32 (negsuc n) = 2 ^ 32 - 1 - n % 2 ^ 32

-- A tile source, and what the server reads of its `TileInfo`. A source may panic.
pub record TileSource : Type 0 where
  pub format : TileFormat
  pub min_zoom : ℤ
  pub max_zoom : ℤ
  pub cacheable : Bool
  pub tile : ℕ → ℕ → ℕ → Option (Result Text TileFailure)

pub data Response : Type 0 where
  bad_path bad_address wrong_extension : Response
  unknown_layer unknown_matrix_set : Response
  no_content not_modified generation_failed corrupt_gzip : Response
  tile_content : TileFormat → Text → Text → Bool → Response

-- What a request brings, and the clock, faults and choices of one run.
pub record Request : Type 0 where
  pub if_none_match : Text
  pub accepts_gzip : Bool
  pub reads : ReadFaults
  pub writes : WriteFaults
  pub suffix : Text
  pub now : ℕ
  pub disk_now : ℕ
  pub promote_now : ℕ
  pub stored : ℕ
  pub disk_stored : ℕ

-- The registry's `TileSource`, the tag of the bytes, and gzip.
pub record Service : Type 0 where
  pub source_of : Text → Option TileSource
  pub tag_of : Text → Text
  pub gunzip : Text → Option Text

-- A number of 32 bits in decimal: at most ten digits.
pub decimal_within : ℕ → ℕ → Text
decimal_within zero n = []
decimal_within (suc fuel) n =
    let rest = decimal_within fuel (n / 10) in
    if ltb n 10 then (n + b'0') ∷ [] else rest ++ (n % 10 + b'0') ∷ []

-- `%s/%s` of the layer and the tile.
pub cache_key : Text → Tile → Text
cache_key layer t =
    layer
    ++ b'/'
      ∷ (decimal_within 10 t.z ++ b'/' ∷ (decimal_within 10 t.x ++ b'/' ∷ decimal_within 10 t.y))

-- `isGzipped`
pub is_gzipped : Text → Bool
is_gzipped b = ltb 2 (length b) && get_or b 0 0 == 0x1f && get_or b 1 0 == 0x8b

-- The calls of the stack, which may be nil.
pub cache_get : Request → Text → Option Tiered → Option (Option Tiered × Option Text)
cache_get q key none = some (none, none)
cache_get q key (some t) =
    Tiered.get q.reads q.now q.disk_now q.promote_now key t >>= λ (r : Tiered × Option Text).
    some (some r.0, r.1)

pub cache_set : Request → Text → Text → Option Tiered → Option (Option Tiered)
cache_set q key value none = some none
cache_set q key value (some t) =
    Tiered.set q.writes q.stored q.disk_stored q.suffix key value t >>= λ (t' : Tiered).
    some (some t')

abbrev pub Answer : Type 0
Answer = Option (Option Tiered × Response)

module _ (s : Service) (q : Request) where
  -- The end of `serveTile`, with the bytes at hand.
  pub respond : TileFormat → Text → Response
  respond format bytes =
      let tag = s.tag_of bytes in
      let plain : Response = elim (s.gunzip bytes) [
        | none ↦ corrupt_gzip
        | some b ↦ tile_content format b tag false
      ] in
      if ite (text_eq q.if_none_match tag) true false
      then not_modified
      else if is_gzipped bytes
      then (if q.accepts_gzip then tile_content format bytes tag true else plain)
      else tile_content format bytes tag false

  -- `serveTile` after a miss, by what the source gives.
  pub after_miss : TileSource → Text → Option Tiered → Result Text TileFailure → Answer
  after_miss ts key c (error tile_not_found) = some (c, no_content)
  after_miss ts key c (error tile_failed) = some (c, generation_failed)
  after_miss ts key c (ok bytes) =
      if ts.cacheable
      then (cache_set q key bytes c >>= λ (c' : Option Tiered). some (c', respond ts.format bytes))
      else some (c, respond ts.format bytes)

  -- `serveTile` by the answer of the cache.
  pub after_get : TileSource → Text → Tile → Option Tiered → Option Text → Answer
  after_get ts key t c (some bytes) = some (c, respond ts.format bytes)
  after_get ts key t c none =
      ts.tile t.z t.x t.y >>= λ (r : Result Text TileFailure). after_miss ts key c r

  -- `serveTile` of a layer that is there.
  pub serve_source : TileSource → Text → Tile → Text → Option Tiered → Answer
  serve_source ts layer t ext c =
      if not (ext_matches ext ts.format)
      then some (c, wrong_extension)
      else if ltb t.z (uint32 ts.min_zoom) || ltb (uint32 ts.max_zoom) t.z
      then some (c, no_content)
      else cache_get q (cache_key layer t) c >>= λ (r : Option Tiered × Option Text).
          after_get ts (cache_key layer t) t r.0 r.1

  -- `serveTile`
  pub serve_tile : Text → Tile → Text → Option Tiered → Answer
  serve_tile layer t ext c = elim (s.source_of layer) [
    | none ↦ some (c, unknown_layer)
    | some ts ↦ serve_source ts layer t ext c
  ]

  pub serve_parsed : Text → Text → Option Tiered → Result Tile AddressError → Answer
  serve_parsed layer ext c (error e) = some (c, bad_address)
  serve_parsed layer ext c (ok t) = serve_tile layer t ext c

  -- `handleTile`
  pub handle_tile : Text → Text → Text → Text → Option Tiered → Answer
  handle_tile layer z x yext c = elim (split_ext yext) [
    | none ↦ some (c, bad_path)
    | some p ↦ serve_parsed layer p.1 c (parse_tile z x p.0)
  ]

  -- `handleStandardTile`: the row is `y` and the column is `x`.
  pub handle_standard_tile : Text → Text → Text → Text → Text → Option Tiered → Answer
  handle_standard_tile layer tms matrix row col c =
      let known : Answer = elim (s.source_of layer) [
        | none ↦ some (c, unknown_layer)
        | some ts ↦ serve_parsed layer (format_name ts.format) c (parse_tile matrix col row)
      ] in
      ite (text_eq tms (str "WebMercatorQuad")) known (some (c, unknown_matrix_set))

  -- `handleWMTSTile`: the row comes before the column, which carries the extension.
  pub handle_wmts_tile : Text → Text → Text → Text → Text → Option Tiered → Answer
  handle_wmts_tile layer tms z y xext c =
      let known : Answer = elim (split_ext xext) [
        | none ↦ some (c, bad_path)
        | some p ↦ serve_parsed layer p.1 c (parse_tile z p.0 y)
      ] in
      ite (text_eq tms (str "GoogleMapsCompatible")) known (some (c, unknown_matrix_set))
