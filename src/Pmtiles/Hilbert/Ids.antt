-- ===== src/Pmtiles/Hilbert/Ids.antt =====
-- The numbers of the tiles: zoom by zoom, and along the curve within a zoom.
use geoverse_map_server.Base.{
  ℕ, zero, suc, ◌+◌, ◌-◌, ◌*◌, ◌%◌, ◌^◌, ◌<◌, ◌≤◌, ◌≡◌, refl, sym, ◌∙◌, arith, false, dec_lt, ◌==◌,
}
use geoverse_map_server.Pmtiles.Hilbert.{distance, zxy_to_id}
use geoverse_map_server.Pmtiles.Hilbert.Curve.{curve, square, mul_mono, curve-lt, curve-injective}
use geoverse_map_server.Pmtiles.Hilbert.Loop.{distance-curve}

-- The tiles of a zoom, and those of all lower zooms.
abbrev pub tile_count : ℕ → ℕ
tile_count z = 2 ^ z * 2 ^ z

unfoldable pub lower_count : ℕ → ℕ
lower_count zero = 0
lower_count (suc z) = lower_count z + tile_count z

tile_count-mod : (z : ℕ) → tile_count z % 3 ≡ 1
tile_count-mod zero = refl
tile_count-mod (suc z) = omega (arith, tile_count-mod z, square z)

lower_count-thirds : (z : ℕ) → 3 * lower_count z + 1 ≡ tile_count z
unfolding lower_count
lower_count-thirds zero = refl
lower_count-thirds (suc z) = omega (arith, lower_count-thirds z, square z)

lower_count_mono : (z w : ℕ) → z < w → lower_count z + tile_count z ≤ lower_count w
unfolding lower_count
lower_count_mono z zero h = absurd (omega arith)
lower_count_mono z (suc w) h = elim (dec_lt z w) [
  | yes l ↦ omega (arith, lower_count_mono z w l)
  | no l ↦ let same : z ≡ w = omega arith in rw same (omega arith)
]

pow_mono : (z u : ℕ) → 2 ^ z ≤ 2 ^ (u + z)
pow_mono z zero = let none_more : 0 + z ≡ z = omega arith in rw none_more (omega arith)
pow_mono z (suc u) =
    let one_more : suc u + z ≡ suc (u + z) = omega arith in
    rw one_more (omega (arith, pow_mono z u))

pub pow-le : (z : ℕ) → z ≤ 31 → 2 ^ z ≤ 2 ^ 31
pow-le z h = let sum : 31 - z + z ≡ 31 = omega arith in rw sum at (pow_mono z (31 - z))

tile_count-le : (z : ℕ) → z ≤ 31 → tile_count z ≤ 2 ^ 62
tile_count-le z h = let side = pow-le z h in omega (arith, mul_mono (2 ^ z) (2 ^ 31) (2 ^ z) side)

pow_double : (z : ℕ) → 2 ^ (2 * z) ≡ tile_count z
pow_double zero = refl
pow_double (suc z) =
    let next : 2 * suc z ≡ suc (suc (2 * z)) = omega arith in
    rw next (omega (arith, pow_double z, square z))

loop-curve : (z x y : ℕ) → z ≤ 31 → x < 2 ^ z → y < 2 ^ z → distance (2 ^ z) z x y 0 ≡ curve z x y
loop-curve z x y h hx hy =
    let whole : 1 * 2 ^ z ≡ 2 ^ z = omega arith in
    let row : 0 * 2 ^ z + x ≡ x = omega arith in
    let column : 0 * 2 ^ z + y ≡ y = omega arith in
    let start : 0 + curve z x y ≡ curve z x y = omega arith in
    rw (whole, row, column, start) at
      (distance-curve z 1 0 0 x y 0 hx hy (omega arith) (omega arith) (omega (arith, pow-le z h))
        (omega (arith, tile_count-le z h)))

-- For a tile of a zoom up to 31, inside the square of that zoom, the number is the count of the tiles of lower zooms and the
-- tile's place on the curve, and less than the first number of the next zoom.
pub zxy_to_id-curve :
    (z x y : ℕ)
    → z ≤ 31
    → x < 2 ^ z
    → y < 2 ^ z
    → (zxy_to_id z x y ≡ lower_count z + curve z x y) × (zxy_to_id z x y < lower_count (suc z))
unfolding zxy_to_id lower_count
zxy_to_id-curve z x y h hx hy =
    let few = tile_count-le z h in
    let lower = lower_count-thirds z in
    let shift : 2 * z % 256 ≡ 2 * z = omega arith in
    let side : 2 ^ z % 2 ^ 32 ≡ 2 ^ z = omega (arith, pow-le z h) in
    let some_side : (2 ^ z == 0) ≡ false = ground (arith, hx) in
    rw (shift, pow_double z, side, some_side, loop-curve z x y h hx hy)
      (
        omega (arith, few, lower, curve-lt z x y hx hy),
        omega (arith, few, lower, curve-lt z x y hx hy),
      )

-- Two tiles of zooms up to 31, each inside the square of its zoom, that have one number are one
-- tile.
pub zxy_to_id-injective :
    (z x y z' x' y' : ℕ)
    → z ≤ 31
    → z' ≤ 31
    → x < 2 ^ z
    → y < 2 ^ z
    → x' < 2 ^ z'
    → y' < 2 ^ z'
    → zxy_to_id z x y ≡ zxy_to_id z' x' y'
    → (z ≡ z') × (x ≡ x') × (y ≡ y')
zxy_to_id-injective z x y z' x' y' hz hz' hx hy hx' hy' e =
    let a = zxy_to_id-curve z x y hz hx hy in
    let b = zxy_to_id-curve z' x' y' hz' hx' hy' in
    let c = curve-lt z x y hx hy in
    let c' = curve-lt z' x' y' hx' hy' in
    elim (dec_lt z z') [
      | yes l ↦ absurd (omega (arith, a.0, b.0, c, c', e, lower_count_mono z z' l))
      | no l ↦ elim (dec_lt z' z) [
        | yes l' ↦ absurd (omega (arith, a.0, b.0, c, c', e, lower_count_mono z' z l'))
        | no l' ↦
            let same : z' ≡ z = omega arith in
            let places = rw same at (sym a.0 ∙ e ∙ b.0) in
            let (u, v) =
              curve-injective z x y x' y' hx hy (rw same at hx') (rw same at hy')
                (omega (arith, places)) in
            (sym same, u, v)
      ]
    ]
