-- ===== src/Engine/Tests.antt =====
-- An engine over ranges on a line.
use geoverse_map_server.Base.{
  ℕ, ◌-◌, ◌*◌, ◌/◌, ltb, ◌+◌, List, [], ◌∷◌, none, some, Option, Bool, true, ◌&&◌, leb, min, max,
}
use geoverse_map_server.Base.Ints.{pos}
use geoverse_map_server.Base.Text.{Text, str}
use geoverse_map_server.Engine.{Box, Plane, Feature, Engine, build_grid, blank_cells}

abbrev segment : ℕ → ℕ → Box ℕ
segment a b = record { min_point = (a, 0); max_point = (b, 0) }

-- Whole numbers, whose quotients are cut.
abbrev range : Plane
range = record {
  Coord = ℕ;
  nought = 0;
  dim = 64;
  lt = ltb;
  sub = λ a b. a - b;
  div = λ a b. a / b;
  mul = λ a b. a * b;
  to_int = pos;
  Shape = ℕ × ℕ;
  bound = λ s. segment s.0 s.1;
  union = λ a b. record {
    min_point = (min a.min_point.0 b.min_point.0, min a.min_point.1 b.min_point.1);
    max_point = (max a.max_point.0 b.max_point.0, max a.max_point.1 b.max_point.1);
  };
  intersects = λ a b.
      leb a.min_point.0 b.max_point.0
      && leb b.min_point.0 a.max_point.0
      && leb a.min_point.1 b.max_point.1
      && leb b.min_point.1 a.max_point.1;
}

abbrev any : ℕ → Bool
any v = true

abbrev shape : ℕ → ℕ → Option (Feature range ℕ)
shape a b = some (record { id = none; geometry = some (a, b); properties = [] })

abbrev features : List (Option (Feature range ℕ))
features = shape 0 2 ∷ none ∷ shape 5 9 ∷ []

abbrev digit : ℕ → Text
digit n = (48 + n) ∷ []

abbrev engine : Engine range ℕ
engine = record {
  name = str "parks";
  features =
      (record { id = some (digit 0); geometry = some (0, 2); properties = [] })
      ∷ (record { id = some (digit 1); geometry = some (5, 9); properties = [] })
      ∷ [];
  bounds = segment 0 2 ∷ segment 5 9 ∷ [];
  ids = digit 0 ∷ digit 1 ∷ [];
  by_id = (digit 1, 1) ∷ (digit 0, 0) ∷ [];
  extent = some (segment 0 9);
  fields = [];
  grid = build_grid range (segment 0 9) 0 (segment 0 2 ∷ segment 5 9 ∷ []) (blank_cells 4096);
}
