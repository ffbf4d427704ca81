-- ===== src/Engine/Grid.antt =====
-- The grid: a feature stands in the cells between the corners of its bound.
use geoverse_map_server.Base.{
  if◌then◌else◌, ℕ, zero, suc, ◌+◌, ◌-◌, ◌*◌, ◌<◌, ◌≤◌, ◌≡◌, ◌↔◌, ◌⊎◌, inl, inr, refl, sym, ◌∙◌, ap,
  List, [], ◌∷◌, ◌++◌, map, length, get_or, get_elem?, set, subst, some, arith,
}
use geoverse_map_server.Base.Ints.{ℤ, pos, negsuc}
use geoverse_map_server.Base.Lists.{length-set, put_iff}
use geoverse_map_server.Base.Tests.{ℕ-cases}
use geoverse_map_server.Engine.{
  Plane, Bound, scaled, cell_on, cell_of, grid_dim, clampi, count_up, row_cells, rows_cells,
  put_cells, cells_of, build_grid, blank_cells,
}
use mathlib.Core.List.{Memᴰ}
use mathlib.Core.List.Memᴰ

-- The numbers of a loop.
count_up_iff : (lo n i : ℕ) → Memᴰ i (count_up lo n) ↔ ((lo ≤ i) × (i < lo + n))
count_up_iff lo zero i = (λ m. absurd (Memᴰ.not-nil m), λ (a, b). absurd (omega (arith, a, b)))
count_up_iff lo (suc n) i =
    let rest = count_up_iff (suc lo) n i in
    (
      λ m. elim (Memᴰ.cases_cons m) [
        | inl e ↦ (omega (arith, e), omega (arith, e))
        | inr t ↦ let (a, b) = rest.0 t in (omega (arith, a), omega (arith, b))
      ],
      λ (a, b). elim (ℕ-cases i lo) [
        | inl e ↦ Memᴰ.head e
        | inr far ↦ Memᴰ.tail (rest.1 (ground (arith, far), omega (arith, b)))
      ],
    )

clampi-le : (v : ℤ) → clampi v 0 63 ≤ 63
clampi-le (pos v) = ground arith
clampi-le (negsuc v) = omega arith

-- A cell is a row and a column.
abbrev pub IsCell : ℕ → ℕ → List ℕ → ℕ → Type 0
IsCell x0 x1 ys c = (x : ℕ) × (y : ℕ) × (x0 ≤ x) × (x ≤ x1) × Memᴰ y ys × (c ≡ y * 64 + x)

Memᴰ-map : (f : ℕ → ℕ) (xs : List ℕ) (c : ℕ) → Memᴰ c (map f xs) ↔ ((x : ℕ) × Memᴰ x xs × (c ≡ f x))
Memᴰ-map f [] c = (λ m. absurd (Memᴰ.not-nil m), λ (x, m, e). absurd (Memᴰ.not-nil m))
Memᴰ-map f (z ∷ xs) c =
    let rest = Memᴰ-map f xs c in
    (
      λ m. elim (Memᴰ.cases_cons m) [
        | inl e ↦ (z, Memᴰ.head refl, e)
        | inr t ↦ let (x, n, e) = rest.0 t in (x, Memᴰ.tail n, e)
      ],
      λ (x, m, e). elim (Memᴰ.cases_cons m) [
        | inl same ↦ Memᴰ.head (e ∙ ap f same)
        | inr t ↦ Memᴰ.tail (rest.1 (x, t, e))
      ],
    )

row_cells_iff :
    (x0 x1 y c : ℕ)
    → Memᴰ c (row_cells x0 x1 y) ↔ ((x : ℕ) × (x0 ≤ x) × (x ≤ x1) × (c ≡ y * 64 + x))
unfolding row_cells
row_cells_iff x0 x1 y c =
    let cells = Memᴰ-map (λ x. y * grid_dim + x) (count_up x0 (suc x1 - x0)) c in
    (
      λ m.
          let (x, n, e) = cells.0 m in
          let (a, b) = (count_up_iff x0 (suc x1 - x0) x).0 n in (x, a, omega (arith, a, b), e),
      λ (x, a, b, e). cells.1 (x, (count_up_iff x0 (suc x1 - x0) x).1 (a, omega (arith, a, b)), e),
    )

rows_cells_iff :
    (x0 x1 : ℕ) (ys : List ℕ) (c : ℕ) → Memᴰ c (rows_cells x0 x1 ys) ↔ IsCell x0 x1 ys c
unfolding rows_cells
rows_cells_iff x0 x1 [] c =
    (λ m. absurd (Memᴰ.not-nil m), λ (x, y, a, b, m, e). absurd (Memᴰ.not-nil m))
rows_cells_iff x0 x1 (z ∷ ys) c =
    let rest = rows_cells_iff x0 x1 ys c in
    let row = row_cells_iff x0 x1 z c in
    (
      λ m. elim (Memᴰ.append_cases (row_cells x0 x1 z) m) [
        | inl here ↦ let (x, a, b, e) = row.0 here in (x, z, a, b, Memᴰ.head refl, e)
        | inr t ↦ let (x, y, a, b, n, e) = rest.0 t in (x, y, a, b, Memᴰ.tail n, e)
      ],
      λ (x, y, a, b, m, e). elim (Memᴰ.cases_cons m) [
        | inl same ↦ Memᴰ.append_left _ (row.1 (x, a, b, e ∙ ap (λ w. w * 64 + x) same))
        | inr t ↦ Memᴰ.append_right (row_cells x0 x1 z) (rest.1 (x, y, a, b, t, e))
      ],
    )

length-put_cells :
    (i : ℕ) (cs : List ℕ) (grid : List (List ℕ)) → length (put_cells i cs grid) ≡ length grid
unfolding put_cells
length-put_cells i [] grid = refl
length-put_cells i (c ∷ cs) grid = length-put_cells i cs _ ∙ length-set grid c _

put_cells_iff :
    (i : ℕ) (cs : List ℕ) (grid : List (List ℕ)) (c j : ℕ)
    → ((d : ℕ) → Memᴰ d cs → d < length grid)
    → Memᴰ j (get_or (put_cells i cs grid) c [])
      ↔ (Memᴰ j (get_or grid c []) ⊎ (Memᴰ c cs × (j ≡ i)))
unfolding put_cells
put_cells_iff i [] grid c j inside =
    (inl, λ h. elim h [ inl m ↦ m | inr (m, _) ↦ absurd (Memᴰ.not-nil m) ])
put_cells_iff i (d ∷ cs) grid c j inside =
    let grid' = set grid d (get_or grid d [] ++ i ∷ []) in
    let put = put_iff grid d i c j (inside d (Memᴰ.head refl)) in
    let rest = put_cells_iff i cs grid' c j (λ x m.
      omega (arith, inside x (Memᴰ.tail m), length-set grid d (get_or grid d [] ++ i ∷ []))) in
    (
      λ m. elim (rest.0 m) [
        | inr (n, e) ↦ inr (Memᴰ.tail n, e)
        | inl here ↦ elim (put.0 here) [
          | inl old ↦ inl old
          | inr (same, e) ↦ inr (Memᴰ.head (sym same), e)
        ]
      ],
      λ h. rest.1 (elim h [
        | inl old ↦ inl (put.1 (inl old))
        | inr (n, e) ↦ elim (Memᴰ.cases_cons n) [
          | inl same ↦ inl (put.1 (inr (sym same, e)))
          | inr t ↦ inr (t, e)
        ]
      ]),
    )

pub length-blank_cells : (n : ℕ) → length (blank_cells n) ≡ n
length-blank_cells zero = refl
length-blank_cells (suc n) = ap suc (length-blank_cells n)

pub get_or-blank_cells : (n c : ℕ) → get_or (blank_cells n) c [] ≡ []
get_or-blank_cells zero c = refl
get_or-blank_cells (suc n) zero = refl
get_or-blank_cells (suc n) (suc c) = get_or-blank_cells n c

module _ (p : Plane) (extent : Bound p) where
  abbrev pub left_of : Bound p → ℕ
  left_of b = (cell_of p extent b.min_point).0

  abbrev pub right_of : Bound p → ℕ
  right_of b = (cell_of p extent b.max_point).0

  abbrev pub bottom_of : Bound p → ℕ
  bottom_of b = (cell_of p extent b.min_point).1

  abbrev pub top_of : Bound p → ℕ
  top_of b = (cell_of p extent b.max_point).1

  cell_on-le : (lo hi v : p.Coord) → cell_on p lo hi v ≤ 63
  unfolding cell_on
  cell_on-le lo hi v =
      clampi-le (if p.lt p.nought (p.sub hi lo) then p.to_int (scaled p lo hi v) else pos 0)

  cell_of-le :
      (v : p.Coord × p.Coord) → ((cell_of p extent v).0 ≤ 63) × ((cell_of p extent v).1 ≤ 63)
  unfolding cell_of
  cell_of-le v = (cell_on-le _ _ v.0, cell_on-le _ _ v.1)

  -- The cells of a bound are those between its corners.
  pub cells_of_iff :
      (b : Bound p) (c : ℕ)
      → Memᴰ c (cells_of p extent b)
        ↔ IsCell (left_of b) (right_of b) (count_up (bottom_of b) (suc (top_of b) - bottom_of b)) c
  unfolding cells_of
  cells_of_iff b c = rows_cells_iff (left_of b) (right_of b) _ c

  pub cells_of-meets :
      (b : Bound p) (x y : ℕ)
      → left_of b ≤ x
      → x ≤ right_of b
      → bottom_of b ≤ y
      → y ≤ top_of b
      → Memᴰ (y * 64 + x) (cells_of p extent b)
  cells_of-meets b x y l r o t = (cells_of_iff b (y * 64 + x)).1 (
    x,
    y,
    l,
    r,
    (count_up_iff (bottom_of b) (suc (top_of b) - bottom_of b) y).1 (o, omega (arith, o, t)),
    refl,
  )

  cells_of-lt : (b : Bound p) (c : ℕ) → Memᴰ c (cells_of p extent b) → c < 4096
  cells_of-lt b c m =
      let (x, y, l, r, n, e) = (cells_of_iff b c).0 m in
      let (o, t) = (count_up_iff (bottom_of b) (suc (top_of b) - bottom_of b) y).0 n in
      omega (arith, r, (cell_of-le b.max_point).0, (cell_of-le b.max_point).1, o, t, e)

  length-build_grid :
      (i : ℕ) (bs : List (Bound p)) (grid : List (List ℕ))
      → length (build_grid p extent i bs grid) ≡ length grid
  unfolding build_grid
  length-build_grid i [] grid = refl
  length-build_grid i (b ∷ bs) grid = length-build_grid (suc i) bs _ ∙ length-put_cells i _ grid

  -- A cell holds the features whose bounds have it.
  pub build_grid_iff :
      (i : ℕ) (bs : List (Bound p)) (grid : List (List ℕ)) (c j : ℕ)
      → length grid ≡ 4096
      → Memᴰ j (get_or (build_grid p extent i bs grid) c []) ↔ (
          Memᴰ j (get_or grid c [])
          ⊎ ((n : ℕ) × (b : Bound p) × (get_elem? bs n ≡ some b)
              × Memᴰ c (cells_of p extent b)
              × (j ≡ i + n)))
  unfolding build_grid
  build_grid_iff i [] grid c j size =
      (inl, λ h. elim h [ inl m ↦ m | inr (n, b, at, _, _) ↦ absurd (cc at) ])
  build_grid_iff i (b ∷ bs) grid c j size =
      let cells = cells_of p extent b in
      let put = put_cells_iff i cells grid c j (λ d m. omega (arith, cells_of-lt b d m, size)) in
      let rest =
        build_grid_iff (suc i) bs (put_cells i cells grid) c j
          (length-put_cells i cells grid ∙ size) in
      (
        λ m. elim (rest.0 m) [
          | inr (n, d, at, w, e) ↦ inr (suc n, d, at, w, omega (arith, e))
          | inl here ↦ elim (put.0 here) [
            | inl old ↦ inl old
            | inr (w, e) ↦ inr (zero, b, refl, w, omega (arith, e))
          ]
        ],
        λ h. rest.1 (elim h [
          | inl old ↦ inl (put.1 (inl old))
          | inr (zero, d, at, w, e) ↦
              let first : b ≡ d = cc at in
              inl (
                put.1
                  (inr (subst (λ z. Memᴰ c (cells_of p extent z)) (sym first) w, omega (arith, e))))
          | inr (suc n, d, at, w, e) ↦ inr (n, d, at, w, omega (arith, e))
        ]),
      )
