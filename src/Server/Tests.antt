-- ===== src/Server/Tests.antt =====
-- Runs of the reading of addresses, and its theorems at concrete inputs.
use geoverse_map_server.Base.{◌≡◌, refl, true, ℕ_discrete}
use geoverse_map_server.Base.Results.{ok, error}
use geoverse_map_server.Base.Text.{str, text_eq}
use geoverse_map_server.Server.{
  Tile, side, valid, flip_y, split_last, lower, is_extension, split_ext, digits_from, in_word,
  parse_uint, out_of_range, not_integers, checked_tile, tile_of, parse_tile, ext_matches,
  format_name,
}

program : Unit {0}
unfolding side valid flip_y split_last lower is_extension split_ext digits_from in_word parse_uint
    checked_tile tile_of parse_tile ext_matches format_name text_eq ℕ_discrete
program = tt

abbrev tile : Tile
tile = record { z = 2; x = 1; y = 3 }

inside : valid tile ≡ true
unfolding program
inside = refl

parsed : parse_tile (str "2") (str "1") (str "03") ≡ ok tile
unfolding program
parsed = refl

outside : parse_tile (str "2") (str "4") (str "0") ≡ error out_of_range
unfolding program
outside = refl

signed : parse_tile (str "2") (str "+1") (str "0") ≡ error not_integers
unfolding program
signed = refl
