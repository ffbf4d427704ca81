-- ===== src/Server/Address.antt =====
-- What is known of a tile whose address was read.
use geoverse_map_server.Base.{
  ℕ, ◌+◌, ◌-◌, ◌*◌, ◌%◌, ◌^◌, ◌<◌, ◌≤◌, ◌≡◌, refl, true, [], ◌∷◌, ◌++◌, Option, none, some, map,
  arith, Bool-cases, inl, inr, ℕ_discrete,
}
use geoverse_map_server.Base.Results.{ok}
use geoverse_map_server.Base.Text.{Text, text_eq}
use geoverse_map_server.Pmtiles.Archive.{TileFormat, mvt, png, jpg, webp}
use geoverse_map_server.Pmtiles.Hilbert.Ids.{pow-le}
use geoverse_map_server.Server.{
  max_zoom, Tile, side, valid, flip_y, split_last, is_extension, split_ext, parse_uint,
  checked_tile, tile_of, parse_tile, ext_matches, lower, format_name,
}

side-pow : (z : ℕ) → z ≤ max_zoom → (side z ≡ 2 ^ z) × (2 ^ z ≤ 2 ^ 31)
unfolding side
side-pow z h = (omega (arith, pow-le z (omega arith)), pow-le z (omega arith))

-- A tile of a zoom that is served, inside the square of that zoom.
pub record IsTile (t : Tile) : Type 0 where
  pub zoom : t.z ≤ max_zoom
  pub column : t.x < 2 ^ t.z
  pub row : t.y < 2 ^ t.z

valid-IsTile : (t : Tile) → valid t ≡ true → IsTile t
unfolding valid
valid-IsTile t h =
    let zoom : t.z ≤ max_zoom = ground arith in
    let same = side-pow t.z zoom in
    record { zoom = zoom; column = ground (arith, same.0); row = ground (arith, same.0) }

IsTile-valid : (t : Tile) → IsTile t → valid t ≡ true
unfolding valid
IsTile-valid t h =
    let same = side-pow t.z h.zoom in rw (same.0) (ground (arith, h.zoom, h.column, h.row))

-- Of a valid tile, `FlipY` is a valid tile whose row is counted from the other side, and `FlipY` of
-- that is the tile again.
pub flip_y-flip_y :
    (t : Tile)
    → valid t ≡ true
    → (valid (flip_y t) ≡ true) × ((flip_y t).y + t.y + 1 ≡ 2 ^ t.z) × (flip_y (flip_y t) ≡ t)
unfolding flip_y
flip_y-flip_y t h =
    let tile = valid-IsTile t h in
    let (same, small) = side-pow t.z (tile.zoom) in
    let row : (side t.z + 2 * 2 ^ 32 - 1 - t.y) % 2 ^ 32 ≡ 2 ^ t.z - 1 - t.y =
      rw same (omega (arith, small, tile.row)) in
    let back : (side t.z + 2 * 2 ^ 32 - 1 - (2 ^ t.z - 1 - t.y)) % 2 ^ 32 ≡ t.y =
      rw same (omega (arith, small, tile.row)) in
    (
      rw row (
          IsTile-valid (record { z = t.z; x = t.x; y = 2 ^ t.z - 1 - t.y })
            (record { zoom = tile.zoom; column = tile.column; row = omega (arith, tile.row) })),
      rw row (omega (arith, tile.row)),
      rw (row, back),
    )

tile_of-ok :
    (a b c : Option ℕ) (t : Tile)
    → tile_of a b c ≡ ok t
    → (valid t ≡ true) × (a ≡ some t.z) × (b ≡ some t.x) × (c ≡ some t.y)
unfolding tile_of checked_tile
tile_of-ok (some z) (some x) (some y) t h =
    let read : Tile = record { z = z; x = x; y = y } in
    elim (Bool-cases (valid read)) [
      | inl inside ↦ let same : read ≡ t = ground arith in rw (← same) (inside, refl, refl, refl)
      | inr outside ↦ absurd (ground arith)
    ]
tile_of-ok none b c t h = absurd (ground arith)
tile_of-ok (some z) none c t h = absurd (ground arith)
tile_of-ok (some z) (some x) none t h = absurd (ground arith)

-- An address that is read is that of a tile of a zoom that is served, inside the square of that
-- zoom, with the numbers that the three parts spell.
pub parse_tile-IsTile :
    (zs xs ys : Text) (t : Tile)
    → parse_tile zs xs ys ≡ ok t
    → IsTile t
      × (parse_uint zs ≡ some t.z)
      × (parse_uint xs ≡ some t.x)
      × (parse_uint ys ≡ some t.y)
unfolding parse_tile
parse_tile-IsTile zs xs ys t h =
    let (inside, z, x, y) = tile_of-ok (parse_uint zs) (parse_uint xs) (parse_uint ys) t h in
    (valid-IsTile t inside, z, x, y)

split_last-append :
    (name ext : Text) → split_last ext ≡ none → split_last (name ++ b'.' ∷ ext) ≡ some (name, ext)
unfolding split_last
split_last-append [] ext h = rw (h, split_last)
split_last-append (c ∷ name) ext h = rw (split_last-append name ext h, split_last)

format_name-plain : (f : TileFormat) → split_last (format_name f) ≡ none
unfolding split_last format_name
format_name-plain mvt = refl
format_name-plain png = refl
format_name-plain jpg = refl
format_name-plain webp = refl

format_name-extension :
    (f : TileFormat)
    → (map lower (format_name f) ≡ format_name f)
      × (is_extension (format_name f) ≡ true)
      × (ext_matches (format_name f) f ≡ true)
unfolding lower format_name is_extension ext_matches text_eq ℕ_discrete
format_name-extension mvt = (refl, refl, refl)
format_name-extension png = (refl, refl, refl)
format_name-extension jpg = (refl, refl, refl)
format_name-extension webp = (refl, refl, refl)

-- A last part that ends in a dot and the name of a format splits there, whatever dots stand before,
-- and the extension fits the format.
pub split_ext-format_name :
    (name : Text) (f : TileFormat)
    → (split_ext (name ++ b'.' ∷ format_name f) ≡ some (name, format_name f))
      × (ext_matches (format_name f) f ≡ true)
unfolding split_ext
split_ext-format_name name f =
    let (low, known, fits) = format_name-extension f in
    (rw (split_last-append name (format_name f) (format_name-plain f), split_ext, low, known), fits)
