-- ===== src/Engine/Laws.antt =====
-- A query of an engine that `New` returns finds exactly the features whose bounds meet it.
use geoverse_map_server.Base.{ℕ, ◌≡◌, List, get_elem?, some, Bool, true}
use geoverse_map_server.Base.Lists.{Reordered}
use geoverse_map_server.Base.Text.{Text}
use geoverse_map_server.Engine.{Plane, Bound, Engine, build_grid, blank_cells}
use geoverse_map_server.Engine.Overlap.{IsPlane}
use mathlib.Core.List.{Memᴰ}
use mathlib.Core.List.Memᴰ

module _ (p : Plane) (fits : p.Coord → Bool) (plane : IsPlane p fits) where
  -- The extent meets what meets a feature.
  record IsCovered {Float : Type 0} (e : Engine p Float) : Type 0 where
    covers :
        (i : ℕ) (y b : Bound p)
        → get_elem? e.bounds i ≡ some y
        → p.intersects y b ≡ true
        → (x : Bound p) × (e.extent ≡ some x) × (p.intersects b x ≡ true)

  module _ {Float : Type 0} (sort : List ℕ → List ℕ)
      (sorts : (xs : List ℕ) → Reordered xs (sort xs)) where
    -- The engine that `New` returns.
    abbrev gridded : Engine p Float → Bound p → Engine p Float
    gridded e x = record e { grid = build_grid p x 0 e.bounds (blank_cells 4096) }
