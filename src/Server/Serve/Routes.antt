-- ===== src/Server/Serve/Routes.antt =====
-- The two routes to a tile, and that they answer.
use geoverse_map_server.Base.{
  ◌≡◌, inl, inr, ◌⊎◌, refl, not, ◌||◌, ◌∷◌, ◌++◌, Option, none, some, ltb, Bool-cases, Option-cases,
  ℕ_discrete,
}
use geoverse_map_server.Base.Results.{Result, ok, error, Result-cases}
use geoverse_map_server.Base.Text.{Text, str, text_eq}
use geoverse_map_server.Cache.Tiered.{Tiered}
use geoverse_map_server.Cache.Tiered.Laws.{MemValid, get-total, set-total}
use geoverse_map_server.Server.{Tile, split_ext, parse_tile, ext_matches, format_name}
use geoverse_map_server.Pmtiles.Archive.{TileFormat}
use geoverse_map_server.Server.Address.{split_ext-format_name}
use geoverse_map_server.Server.Serve.{
  TileFailure, tile_not_found, tile_failed, TileSource, uint32, Response, bad_path, bad_address,
  wrong_extension, unknown_layer, no_content, generation_failed, Request, Service, cache_key,
  cache_get, cache_set, Answer, respond, after_miss, after_get, serve_source, serve_tile,
  serve_parsed, handle_tile, handle_standard_tile, handle_wmts_tile,
}

handle_tile-format :
    (s : Service) (q : Request) (layer z x y : Text) (f : TileFormat) (c : Option Tiered)
    → handle_tile s q layer z x (y ++ b'.' ∷ format_name f) c
      ≡ serve_parsed s q layer (format_name f) c (parse_tile z x y)
unfolding handle_tile
handle_tile-format s q layer z x y f c = rw ((split_ext-format_name y f).0, handle_tile)

-- Of a layer that is there, the standard route and the WMTS route to a tile answer as the XYZ route
-- does for the extension of the layer's format, with the row as `y` and the column as `x`, and
-- leave the same cache.
pub handle_standard_tile-handle_tile :
    (s : Service) (q : Request) (layer matrix row col : Text) (c : Option Tiered) {ts : TileSource}
    → s.source_of layer ≡ some ts
    → (handle_standard_tile s q layer (str "WebMercatorQuad") matrix row col c
        ≡ handle_tile s q layer matrix col (row ++ b'.' ∷ format_name ts.format) c)
      × (handle_wmts_tile s q layer
            (str "GoogleMapsCompatible")
            matrix
            row
            (col ++ b'.' ∷ format_name ts.format)
            c
          ≡ handle_tile s q layer matrix col (row ++ b'.' ∷ format_name ts.format) c)
unfolding handle_standard_tile handle_wmts_tile text_eq ℕ_discrete
handle_standard_tile-handle_tile s q layer matrix row col c {ts} there =
    let xyz = handle_tile-format s q layer matrix col row ts.format c in
    let split = (split_ext-format_name col ts.format).0 in
    (rw (xyz, there, handle_standard_tile) refl, rw (xyz, split, handle_wmts_tile) refl)

-- The caches of the server are off, or their memory tier is valid.
abbrev pub StackValid : Option Tiered → Type 0
StackValid none = Unit
StackValid (some t) = MemValid t.mem

-- An answer is given, with valid caches, or the layer's source panics at the tile.
abbrev pub Given : Answer → Type 0
Given a = (c' : Option Tiered) × (r : Response) × (a ≡ some (c', r)) × StackValid c'

abbrev pub Panics : Service → Text → Tile → Type 0
Panics s layer t = (ts : TileSource) × (s.source_of layer ≡ some ts) × (ts.tile t.z t.x t.y ≡ none)

cache_get-total :
    (q : Request) (key : Text) (c : Option Tiered)
    → StackValid c
    → (c' : Option Tiered) × (a : Option Text) × (cache_get q key c ≡ some (c', a)) × StackValid c'
unfolding cache_get
cache_get-total q key none v = (none, none, refl, tt)
cache_get-total q key (some t) v =
    let (t', a, e, w, served) = get-total q.reads q.now q.disk_now q.promote_now key t v in
    (some t', a, rw e, w)

cache_set-total :
    (q : Request) (key value : Text) (c : Option Tiered)
    → StackValid c
    → (c' : Option Tiered) × (cache_set q key value c ≡ some c') × StackValid c'
unfolding cache_set
cache_set-total q key value none v = (none, refl, tt)
cache_set-total q key value (some t) v =
    let (t', e, w) = set-total q.writes q.stored q.disk_stored q.suffix key value t v in
    (some t', rw e, w)

module _ (s : Service) (q : Request) where
  after_miss-total :
      (ts : TileSource) (key : Text) (c : Option Tiered) (r : Result Text TileFailure)
      → StackValid c
      → Given (after_miss s q ts key c r)
  unfolding after_miss
  after_miss-total ts key c (error tile_not_found) v = (c, no_content, refl, v)
  after_miss-total ts key c (error tile_failed) v = (c, generation_failed, refl, v)
  after_miss-total ts key c (ok bytes) v = elim (Bool-cases ts.cacheable) [
    | inl on ↦
        let (c', e, w) = cache_set-total q key bytes c v in
        (c', respond s q ts.format bytes, rw (on, e), w)
    | inr off ↦ (c, respond s q ts.format bytes, rw off, v)
  ]

  after_get-total :
      (ts : TileSource) (key : Text) (t : Tile) (c : Option Tiered) (a : Option Text)
      → StackValid c
      → Given (after_get s q ts key t c a) ⊎ (ts.tile t.z t.x t.y ≡ none)
  unfolding after_get
  after_get-total ts key t c (some bytes) v = inl (c, respond s q ts.format bytes, refl, v)
  after_get-total ts key t c none v = elim (Option-cases (ts.tile t.z t.x t.y)) [
    | inl panic ↦ inr panic
    | inr (r, e) ↦ inl (rw e (after_miss-total ts key c r v))
  ]

  serve_source-total :
      (ts : TileSource) (layer : Text) (t : Tile) (ext : Text) (c : Option Tiered)
      → StackValid c
      → Given (serve_source s q ts layer t ext c) ⊎ (ts.tile t.z t.x t.y ≡ none)
  unfolding serve_source
  serve_source-total ts layer t ext c v = elim (Bool-cases (not (ext_matches ext ts.format))) [
    | inl wrong ↦ rw wrong (inl (c, wrong_extension, refl, v))
    | inr fits ↦ elim (Bool-cases (ltb t.z (uint32 ts.min_zoom) || ltb (uint32 ts.max_zoom) t.z)) [
      | inl beyond ↦ rw (fits, beyond) (inl (c, no_content, refl, v))
      | inr within ↦
          let (c', a, e, w) = cache_get-total q (cache_key layer t) c v in
          rw (fits, within, e) (after_get-total ts (cache_key layer t) t c' a w)
    ]
  ]

  serve_tile-total :
      (layer : Text) (t : Tile) (ext : Text) (c : Option Tiered)
      → StackValid c
      → Given (serve_tile s q layer t ext c) ⊎ Panics s layer t
  unfolding serve_tile
  serve_tile-total layer t ext c v = elim (Option-cases (s.source_of layer)) [
    | inl missing ↦ inl (rw (missing, serve_tile) (c, unknown_layer, refl, v))
    | inr (ts, there) ↦ elim (serve_source-total ts layer t ext c v) [
      | inl given ↦ inl (rw (there, serve_tile) given)
      | inr panic ↦ inr (ts, there, panic)
    ]
  ]

  -- With caches that are off or valid, a request for a tile is answered without a panic, whatever it
  -- asks for and whatever fails on the disk, and the caches stay valid, unless its address is that
  -- of a tile at which the source of its layer panics itself.
  pub handle_tile-total :
      (layer z x yext : Text) (c : Option Tiered)
      → StackValid c
      → ((c' : Option Tiered) × (r : Response) × (handle_tile s q layer z x yext c ≡ some (c', r))
          × StackValid c')
        ⊎ ((p : Text × Text) × (t : Tile) × (split_ext yext ≡ some p)
            × (parse_tile z x p.0 ≡ ok t)
            × Panics s layer t)
  unfolding handle_tile serve_parsed
  handle_tile-total layer z x yext c v = elim (Option-cases (split_ext yext)) [
    | inl plain ↦ inl (rw (plain, handle_tile) (c, bad_path, refl, v))
    | inr (p, split) ↦ elim (Result-cases (parse_tile z x p.0)) [
      | inr (e, bad) ↦ inl (rw (split, bad, handle_tile) (c, bad_address, refl, v))
      | inl (t, read) ↦ elim (serve_tile-total layer t p.1 c v) [
        | inl given ↦ inl (rw (split, read, handle_tile) given)
        | inr panic ↦ inr (p, t, split, read, panic)
      ]
    ]
  ]
