-- ===== src/Pmtiles/Hilbert/Curve.antt =====
-- The Hilbert curve in a square, quadrant by quadrant, and that no two points have one place.
use geoverse_map_server.Base.{
  ℕ, zero, suc, ◌+◌, ◌-◌, ◌*◌, ◌^◌, ◌<◌, ◌≤◌, ◌≡◌, ap, arith, dec_lt, ltb, if◌then◌else◌,
}

-- The quadrant of a point in a square of side `2 * m`, and the point of the smaller curve.
unfoldable pub quadrant : ℕ → ℕ → ℕ → ℕ × ℕ × ℕ
quadrant m x y =
    if ltb x m
    then (if ltb y m then (0, y, x) else (1, x, y - m))
    else (if ltb y m then (3, m - 1 - y, 2 * m - 1 - x) else (2, x - m, y - m))

-- The place of a point on the curve through the square of side `2 ^ k`.
unfoldable pub curve : ℕ → ℕ → ℕ → ℕ
curve zero x y = 0
curve (suc k) x y = let q = quadrant (2 ^ k) x y in q.0 * (2 ^ k * 2 ^ k) + curve k q.1 q.2

pub quadrant-lt :
    (m x y : ℕ)
    → x < 2 * m
    → y < 2 * m
    → ((quadrant m x y).0 ≤ 3) × ((quadrant m x y).1 < m) × ((quadrant m x y).2 < m)
unfolding quadrant
quadrant-lt m x y hx hy = ground arith

quadrant-injective :
    (m x y x' y' : ℕ)
    → x < 2 * m
    → y < 2 * m
    → x' < 2 * m
    → y' < 2 * m
    → (quadrant m x y).0 ≡ (quadrant m x' y').0
    → (quadrant m x y).1 ≡ (quadrant m x' y').1
    → (quadrant m x y).2 ≡ (quadrant m x' y').2
    → (x ≡ x') × (y ≡ y')
unfolding quadrant
quadrant-injective m x y x' y' hx hy hx' hy' a b c = ground arith

pub square : (k : ℕ) → 2 ^ suc k * 2 ^ suc k ≡ 4 * (2 ^ k * 2 ^ k)
square k = let twice : 2 ^ suc k ≡ 2 * 2 ^ k = omega arith in rw twice (grind arith)

-- The square of side `2 ^ k` has as many places as points.
pub curve-lt : (k x y : ℕ) → x < 2 ^ k → y < 2 ^ k → curve k x y < 2 ^ k * 2 ^ k
unfolding curve
curve-lt zero x y hx hy = omega arith
curve-lt (suc k) x y hx hy =
    let q = quadrant-lt (2 ^ k) x y (omega arith) (omega arith) in
    let ih = curve-lt k (quadrant (2 ^ k) x y).1 (quadrant (2 ^ k) x y).2 (q.1) (q.2) in
    rw (square k) (places (2 ^ k * 2 ^ k) (quadrant (2 ^ k) x y).0 _ (q.0) ih)
  where
    places : (s a b : ℕ) → a ≤ 3 → b < s → a * s + b < 4 * s
    places s a b h l = grind arith

pub mul_mono : (a b s : ℕ) → a ≤ b → a * s ≤ b * s
mul_mono a b s h = grind arith

pub row : (s a a' : ℕ) → a < a' → a * s + s ≤ a' * s
row s a a' h = grind (arith, mul_mono (a + 1) a' s (omega arith))

pub digits : (s a b a' b' : ℕ) → b < s → b' < s → a * s + b ≡ a' * s + b' → (a ≡ a') × (b ≡ b')
digits s a b a' b' h h' e = elim (dec_lt a a') [
  | yes l ↦ absurd (omega (arith, row s a a' l))
  | no l ↦ elim (dec_lt a' a) [
    | yes l' ↦ absurd (omega (arith, row s a' a l'))
    | no l' ↦ let same : a ≡ a' = omega arith in (same, omega (arith, ap (λ (c : ℕ). c * s) same))
  ]
]

pub curve-injective :
    (k x y x' y' : ℕ)
    → x < 2 ^ k
    → y < 2 ^ k
    → x' < 2 ^ k
    → y' < 2 ^ k
    → curve k x y ≡ curve k x' y'
    → (x ≡ x') × (y ≡ y')
unfolding curve
curve-injective zero x y x' y' hx hy hx' hy' e = (omega arith, omega arith)
curve-injective (suc k) x y x' y' hx hy hx' hy' e =
    let m = 2 ^ k in
    let q = quadrant m x y in
    let q' = quadrant m x' y' in
    let l = quadrant-lt m x y (omega arith) (omega arith) in
    let l' = quadrant-lt m x' y' (omega arith) (omega arith) in
    let (same, rest) =
      digits (m * m) q.0 (curve k q.1 q.2) q'.0 (curve k q'.1 q'.2) (curve-lt k q.1 q.2 (l.1) (l.2))
        (curve-lt k q'.1 q'.2 (l'.1) (l'.2)) e in
    let (u, v) = curve-injective k q.1 q.2 q'.1 q'.2 (l.1) (l.2) (l'.1) (l'.2) rest in
    quadrant-injective m x y x' y' (omega arith) (omega arith) (omega arith) (omega arith) same u v
