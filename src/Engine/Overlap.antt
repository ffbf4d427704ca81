-- ===== src/Engine/Overlap.antt =====
-- Two bounds that meet share a cell of the grid.
use geoverse_map_server.Base.{
  ℕ, ◌+◌, ◌*◌, ◌≤◌, ◌≡◌, inl, inr, Bool, true, false, Bool-cases, arith, max,
}
use geoverse_map_server.Base.Ints.{ℤ, pos, negsuc, ltz}
use geoverse_map_server.Engine.{Plane, Bound, scaled, cell_on, cell_of, clampi, cells_of}
use geoverse_map_server.Engine.Grid.{left_of, right_of, bottom_of, top_of, cells_of-meets}
use mathlib.Core.List.{Memᴰ}

-- What the engine relies on: `Intersects` is symmetric and holds only of bounds neither of which ends
-- before the other starts, `Union` keeps what meets one of its parts, and the arithmetic keeps the
-- order of its first argument: that a number is not less than another, which is so too where one is no
-- number. The conversion to `int` keeps it on the numbers that fit.
pub record IsPlane (p : Plane) (fits : p.Coord → Bool) : Type 0 where
  pub flip : (a b : Bound p) → p.intersects a b ≡ true → p.intersects b a ≡ true
  pub union_left : (a b x : Bound p) → p.intersects x a ≡ true → p.intersects x (p.union a b) ≡ true
  pub union_right :
      (a b x : Bound p) → p.intersects x b ≡ true → p.intersects x (p.union a b) ≡ true
  pub apart :
      (a b : Bound p)
      → p.intersects a b ≡ true
      → (p.lt b.max_point.0 a.min_point.0 ≡ false) × (p.lt b.max_point.1 a.min_point.1 ≡ false)
  pub sub_mono : (a b c : p.Coord) → p.lt b a ≡ false → p.lt (p.sub b c) (p.sub a c) ≡ false
  pub div_mono :
      (a b c : p.Coord)
      → p.lt b a ≡ false
      → p.lt p.nought c ≡ true
      → p.lt (p.div b c) (p.div a c) ≡ false
  pub mul_mono : (a b : p.Coord) → p.lt b a ≡ false → p.lt (p.mul b p.dim) (p.mul a p.dim) ≡ false
  pub to_int_mono :
      (a b : p.Coord)
      → p.lt b a ≡ false
      → fits a ≡ true
      → fits b ≡ true
      → ltz (p.to_int b) (p.to_int a) ≡ false

-- The point's place in the cells of an extent fits, in each direction in which the extent is wide.
abbrev pub Fits : (p : Plane) → (p.Coord → Bool) → Bound p → p.Coord × p.Coord → Type 0
Fits p fits x v =
    (p.lt p.nought (p.sub x.max_point.0 x.min_point.0) ≡ true
      → fits (scaled p x.min_point.0 x.max_point.0 v.0) ≡ true)
    × (p.lt p.nought (p.sub x.max_point.1 x.min_point.1) ≡ true
        → fits (scaled p x.min_point.1 x.max_point.1 v.1) ≡ true)

-- A bound does not end before it starts, and its corners fit in the cells of the extent.
abbrev pub IsRegular : (p : Plane) → (p.Coord → Bool) → Bound p → Bound p → Type 0
IsRegular p fits x b =
    (p.lt b.max_point.0 b.min_point.0 ≡ false)
    × (p.lt b.max_point.1 b.min_point.1 ≡ false)
    × Fits p fits x b.min_point
    × Fits p fits x b.max_point

clampi_mono : (a b : ℤ) → ltz b a ≡ false → clampi a 0 63 ≤ clampi b 0 63
clampi_mono (pos a) (pos b) h = ground arith
clampi_mono (pos a) (negsuc b) h = absurd (cc h)
clampi_mono (negsuc a) b h = omega arith

-- Two ranges that overlap have a number in common.
overlap :
    (a b c d : ℕ) → a ≤ b → c ≤ d → a ≤ d → c ≤ b → (x : ℕ) × (a ≤ x) × (x ≤ b) × (c ≤ x) × (x ≤ d)
overlap a b c d h i j l = (max a c, ground arith, ground arith, ground arith, ground arith)

module _ (p : Plane) (fits : p.Coord → Bool) (plane : IsPlane p fits) where
  cell_on_mono :
      (lo hi a b : p.Coord)
      → p.lt b a ≡ false
      → (p.lt p.nought (p.sub hi lo) ≡ true → fits (scaled p lo hi a) ≡ true)
      → (p.lt p.nought (p.sub hi lo) ≡ true → fits (scaled p lo hi b) ≡ true)
      → cell_on p lo hi a ≤ cell_on p lo hi b
  unfolding cell_on
  cell_on_mono lo hi a b h fit_a fit_b = elim (Bool-cases (p.lt p.nought (p.sub hi lo))) [
    | inl wide ↦
        let order =
          plane.mul_mono _ _ (plane.div_mono _ _ (p.sub hi lo) (plane.sub_mono a b lo h) wide) in
        rw wide (
          clampi_mono (p.to_int (scaled p lo hi a)) (p.to_int (scaled p lo hi b))
            (plane.to_int_mono _ _ order (fit_a wide) (fit_b wide)))
    | inr flat ↦ rw flat (omega arith)
  ]

  -- The cells follow the order of the coordinates.
  cell_of_mono :
      (x : Bound p) (v w : p.Coord × p.Coord)
      → Fits p fits x v
      → Fits p fits x w
      → (p.lt w.0 v.0 ≡ false → (cell_of p x v).0 ≤ (cell_of p x w).0)
        × (p.lt w.1 v.1 ≡ false → (cell_of p x v).1 ≤ (cell_of p x w).1)
  unfolding cell_of
  cell_of_mono x v w fit_v fit_w = (
    λ h. cell_on_mono x.min_point.0 x.max_point.0 v.0 w.0 h fit_v.0 fit_w.0,
    λ h. cell_on_mono x.min_point.1 x.max_point.1 v.1 w.1 h fit_v.1 fit_w.1,
  )

  -- A feature that meets a bound shares a cell with it.
  pub shares :
      (x a b : Bound p)
      → IsRegular p fits x a
      → IsRegular p fits x b
      → p.intersects a b ≡ true
      → (c : ℕ) × Memᴰ c (cells_of p x a) × Memᴰ c (cells_of p x b)
  shares x a b (wide_a, tall_a, low_a, high_a) (wide_b, tall_b, low_b, high_b) meets =
      let there = plane.apart a b meets in
      let back = plane.apart b a (plane.flip a b meets) in
      let own_a = cell_of_mono x a.min_point a.max_point low_a high_a in
      let own_b = cell_of_mono x b.min_point b.max_point low_b high_b in
      let a_to_b = cell_of_mono x a.min_point b.max_point low_a high_b in
      let b_to_a = cell_of_mono x b.min_point a.max_point low_b high_a in
      let (u, u1, u2, u3, u4) =
        overlap (left_of p x a) (right_of p x a) (left_of p x b) (right_of p x b) (own_a.0 wide_a)
          (own_b.0 wide_b) (a_to_b.0 there.0) (b_to_a.0 back.0) in
      let (v, v1, v2, v3, v4) =
        overlap (bottom_of p x a) (top_of p x a) (bottom_of p x b) (top_of p x b) (own_a.1 tall_a)
          (own_b.1 tall_b) (a_to_b.1 there.1) (b_to_a.1 back.1) in
      (v * 64 + u, cells_of-meets p x a u v u1 u2 v1 v2, cells_of-meets p x b u v u3 u4 v3 v4)
