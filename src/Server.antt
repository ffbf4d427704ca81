-- ===== src/Server.antt =====
-- The requests for tiles: internal/tilemath/tilemath.go and the reading of a tile's address in
-- internal/server/tiles.go. The projections of tilemath.go are floating-point and left out; so are
-- the texts of errors.
pub mod Features
pub mod Address
pub mod Serve
pub mod Middleware
pub mod Admin
pub mod Readiness
mod Tests
use geoverse_map_server.Base.{
  ℕ, ◌+◌, ◌-◌, ◌*◌, ◌%◌, ◌^◌, Bool, true, false, ◌&&◌, ◌||◌, List, [], ◌∷◌, Option, none, some, map,
  ite, ltb, leb, ◌==◌, if◌then◌else◌,
}
use geoverse_map_server.Base.Results.{Result, ok, error}
use geoverse_map_server.Base.Text.{Text, str, text_eq}
use geoverse_map_server.Pmtiles.Archive.{TileFormat, mvt, png, jpg, webp}

abbrev pub max_zoom : ℕ
max_zoom = 24

pub record Tile : Type 0 where
  pub z : ℕ
  pub x : ℕ
  pub y : ℕ

-- `uint32(1) << z`, 0 from 32 on.
pub side : ℕ → ℕ
side z = 2 ^ z % 2 ^ 32

-- `Valid`
pub valid : Tile → Bool
valid t = if ltb max_zoom t.z then false else ltb t.x (side t.z) && ltb t.y (side t.z)

-- `FlipY`, in words of 32 bits.
pub flip_y : Tile → Tile
flip_y t = record { z = t.z; x = t.x; y = (side t.z + 2 * 2 ^ 32 - 1 - t.y) % 2 ^ 32 }

-- What stands before and after the last dot.
pub split_last : Text → Option (Text × Text)
split_last [] = none
split_last (c ∷ t) = elim (split_last t) [
  | some p ↦ some (c ∷ p.0, p.1)
  | none ↦ if c == b'.' then some ([], t) else none
]

-- `strings.ToLower` of a byte.
pub lower : ℕ → ℕ
lower c = if leb b'A' c && leb c b'Z' then c + 32 else c

pub is_extension : Text → Bool
is_extension ext = ite (text_eq ext (str "pbf")) true (
    ite (text_eq ext (str "mvt")) true (
      ite (text_eq ext (str "png")) true (
        ite (text_eq ext (str "jpg")) true
          (ite (text_eq ext (str "jpeg")) true (ite (text_eq ext (str "webp")) true false)))))

-- `splitExt`
pub split_ext : Text → Option (Text × Text)
split_ext last = elim (split_last last) [
  | none ↦ none
  | some p ↦ if is_extension (map lower p.1) then some (p.0, map lower p.1) else none
]

-- `strconv.ParseUint(s, 10, 32)`: digits, at least one, and a value of 32 bits.
pub digits_from : ℕ → Text → Option ℕ
digits_from n [] = some n
digits_from n (c ∷ s) =
    let rest = digits_from (n * 10 + (c - b'0')) s in
    if leb b'0' c && leb c b'9' then rest else none

pub in_word : Option ℕ → Option ℕ
in_word none = none
in_word (some n) = if ltb n (2 ^ 32) then some n else none

pub parse_uint : Text → Option ℕ
parse_uint [] = none
parse_uint (c ∷ s) = in_word (digits_from 0 (c ∷ s))

pub data AddressError : Type 0 where
  not_integers out_of_range : AddressError

pub checked_tile : Tile → Result Tile AddressError
checked_tile t = if valid t then ok t else error out_of_range

-- `parseTile`, by the three numbers.
pub tile_of : Option ℕ → Option ℕ → Option ℕ → Result Tile AddressError
tile_of (some z) (some x) (some y) = checked_tile (record { z = z; x = x; y = y })
tile_of a b c = error not_integers

pub parse_tile : Text → Text → Text → Result Tile AddressError
parse_tile zs xs ys = tile_of (parse_uint zs) (parse_uint xs) (parse_uint ys)

-- `extMatches`
pub ext_matches : Text → TileFormat → Bool
ext_matches ext mvt = ite (text_eq ext (str "pbf")) true (ite (text_eq ext (str "mvt")) true false)
ext_matches ext png = ite (text_eq ext (str "png")) true false
ext_matches ext jpg = ite (text_eq ext (str "jpg")) true (ite (text_eq ext (str "jpeg")) true false)
ext_matches ext webp = ite (text_eq ext (str "webp")) true false

-- The names of the formats (internal/source/source.go), which the addresses of tiles end in.
pub format_name : TileFormat → Text
format_name mvt = str "pbf"
format_name png = str "png"
format_name jpg = str "jpg"
format_name webp = str "webp"
