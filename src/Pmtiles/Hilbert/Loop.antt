-- ===== src/Pmtiles/Hilbert/Loop.antt =====
-- The loop of `zxyToID`, round by round.
use Prim.Native.Nat.{bit_xor}
use geoverse_map_server.Base.{
  ℕ, zero, suc, ◌+◌, ◌-◌, ◌*◌, ◌/◌, ◌%◌, ◌^◌, ◌<◌, ◌≤◌, ◌≡◌, ap, ap₂, ◌∙◌, arith, dec_lt,
}
use geoverse_map_server.Pmtiles.Hilbert.{bit, mirror, turn, distance}
use geoverse_map_server.Pmtiles.Hilbert.Curve.{quadrant, curve, square}

div_of_digits : (m c r : ℕ) → r < m → (c * m + r) / m ≡ c
div_of_digits m c r h = grind arith

mirror-lt : (n v : ℕ) → v < n → n ≤ 2 ^ 31 → mirror n v ≡ n - 1 - v
unfolding mirror
mirror-lt n v h l = omega arith

whole_rows : (m b c w : ℕ) → b ≡ c + 1 + w → b * m ≡ c * m + m + w * m
whole_rows m b c w h = rw h (grind arith)

-- The same row, seen from the other side.
mirror-digits :
    (m b c r : ℕ)
    → r < m
    → c < b
    → b * m ≤ 2 ^ 31
    → mirror (b * m) (c * m + r) ≡ (b - 1 - c) * m + (m - 1 - r)
mirror-digits m b c r h l s =
    let whole = whole_rows m b c (b - 1 - c) (omega arith) in
    mirror-lt (b * m) (c * m + r) (omega (arith, whole)) s ∙ omega (arith, whole)

-- One round of the loop, on the digits of the coordinates.
distance_round :
    (k b a e x y d : ℕ)
    → x < 2 ^ k
    → y < 2 ^ k
    → distance (b * 2 ^ k) (suc k) (a * 2 ^ k + x) (e * 2 ^ k + y) d
      ≡ distance
          (b * 2 ^ k)
          k
          (turn (b * 2 ^ k) (a % 2) (e % 2) (a * 2 ^ k + x) (e * 2 ^ k + y)).0
          (turn (b * 2 ^ k) (a % 2) (e % 2) (a * 2 ^ k + x) (e * 2 ^ k + y)).1
          ((d + 2 ^ k * 2 ^ k * bit_xor (3 * (a % 2)) (e % 2)) % 2 ^ 64)
unfolding distance bit
distance_round k b a e x y d hx hy = rw (div_of_digits (2 ^ k) a x hx, div_of_digits (2 ^ k) e y hy)

-- The digits of a coordinate, one more of them.
more_digits : (k a x : ℕ) → (a * 2 ^ suc k + x ≡ (2 * a) * 2 ^ k + x)
more_digits k a x = let twice : 2 ^ suc k ≡ 2 * 2 ^ k = omega arith in rw twice (grind arith)

upper_digits : (k a x : ℕ) → 2 ^ k ≤ x → (a * 2 ^ suc k + x ≡ (2 * a + 1) * 2 ^ k + (x - 2 ^ k))
upper_digits k a x h =
    let twice : 2 ^ suc k ≡ 2 * 2 ^ k = omega arith in more_digits k a x ∙ omega (arith, odd k a)
  where
    odd : (k a : ℕ) → (2 * a + 1) * 2 ^ k ≡ (2 * a) * 2 ^ k + 2 ^ k
    odd k a = grind arith

doubled : (k b : ℕ) → b * 2 ^ suc k ≡ (2 * b) * 2 ^ k
doubled k b = let twice : 2 ^ suc k ≡ 2 * 2 ^ k = omega arith in rw twice (grind arith)

-- The loop's arguments after one round, for the digits that the round reads.
turned : ℕ → ℕ → ℕ → ℕ → ℕ → ℕ → ℕ → ℕ
unfolding turn distance
turned n k rx ry x y d =
    distance n k (turn n rx ry x y).0 (turn n rx ry x y).1
      ((d + 2 ^ k * 2 ^ k * bit_xor (3 * rx) ry) % 2 ^ 64)

distance-turned :
    (k b a e x y d rx ry : ℕ)
    → x < 2 ^ k
    → y < 2 ^ k
    → a % 2 ≡ rx
    → e % 2 ≡ ry
    → distance (b * 2 ^ k) (suc k) (a * 2 ^ k + x) (e * 2 ^ k + y) d
      ≡ turned (b * 2 ^ k) k rx ry (a * 2 ^ k + x) (e * 2 ^ k + y) d
unfolding turned
distance-turned k b a e x y d rx ry hx hy ha he =
    rw (← ha, ← he) (distance_round k b a e x y d hx hy)

module _ (k x y : ℕ) where
  curve_first : x < 2 ^ k → y < 2 ^ k → curve (suc k) x y ≡ curve k y x
  unfolding curve quadrant
  curve_first hx hy = ground arith

  curve_second : x < 2 ^ k → 2 ^ k ≤ y → curve (suc k) x y ≡ 2 ^ k * 2 ^ k + curve k x (y - 2 ^ k)
  unfolding curve quadrant
  curve_second hx hy = ground arith

  curve_third :
      2 ^ k ≤ x
      → 2 ^ k ≤ y
      → curve (suc k) x y ≡ 2 * (2 ^ k * 2 ^ k) + curve k (x - 2 ^ k) (y - 2 ^ k)
  unfolding curve quadrant
  curve_third hx hy = ground arith

  curve_fourth :
      2 ^ k ≤ x
      → y < 2 ^ k
      → curve (suc k) x y ≡ 3 * (2 ^ k * 2 ^ k) + curve k (2 ^ k - 1 - y) (2 * 2 ^ k - 1 - x)
  unfolding curve quadrant
  curve_fourth hx hy = ground arith

module _ (n k x y d : ℕ) (room : d + 4 * (2 ^ k * 2 ^ k) ≤ 2 ^ 63) where
  turned_first : turned n k 0 0 x y d ≡ distance n k y x d
  unfolding turned turn
  turned_first = ap (distance n k y x) (omega arith)

  turned_second : turned n k 0 1 x y d ≡ distance n k x y (d + 2 ^ k * 2 ^ k)
  unfolding turned turn
  turned_second = ap (distance n k x y) (omega arith)

  turned_third : turned n k 1 1 x y d ≡ distance n k x y (d + 2 * (2 ^ k * 2 ^ k))
  unfolding turned turn
  turned_third = ap (distance n k x y) (omega arith)

  turned_fourth :
      turned n k 1 0 x y d ≡ distance n k (mirror n y) (mirror n x) (d + 3 * (2 ^ k * 2 ^ k))
  unfolding turned turn
  turned_fourth = ap (distance n k (mirror n y) (mirror n x)) (omega arith)

distance-zero : (n x y u v d : ℕ) → distance n 0 x y d ≡ d + curve 0 u v
unfolding distance curve
distance-zero n x y u v d = omega arith

-- Where no word overflows, the loop adds the place on the curve of the low `k` bits.
pub distance-curve :
    (k b a e x y d : ℕ)
    → x < 2 ^ k
    → y < 2 ^ k
    → a < b
    → e < b
    → b * 2 ^ k ≤ 2 ^ 31
    → d + 2 ^ k * 2 ^ k ≤ 2 ^ 63
    → distance (b * 2 ^ k) k (a * 2 ^ k + x) (e * 2 ^ k + y) d ≡ d + curve k x y
distance-curve zero b a e x y d hx hy ha he hb hd = distance-zero _ _ _ x y d
distance-curve (suc k) b a e x y d hx hy ha he hb hd =
    let room : d + 4 * (2 ^ k * 2 ^ k) ≤ 2 ^ 63 = rw (square k) at hd in
    let wide : 2 * b * 2 ^ k ≤ 2 ^ 31 = rw (doubled k b) at hb in
    let ih = distance-curve k (2 * b) in
    elim (dec_lt x (2 ^ k)) [
      | yes left ↦ elim (dec_lt y (2 ^ k)) [
        | yes top ↦
            rw (doubled k b, more_digits k a x, more_digits k e y)
              (distance-turned k (2 * b) (2 * a) (2 * e) x y d 0 0 left top (omega arith)
                  (omega arith)
                ∙ turned_first _ k _ _ d room
                ∙ ih (2 * e) (2 * a) y x d top left (omega arith) (omega arith) wide (omega arith)
                ∙ omega (arith, curve_first k x y left top))
        | no bottom ↦
            let below : 2 ^ k ≤ y = omega arith in
            rw (doubled k b, more_digits k a x, upper_digits k e y below)
              (distance-turned k (2 * b) (2 * a) (2 * e + 1) x (y - 2 ^ k) d 0 1 left (omega arith)
                  (omega arith) (omega arith)
                ∙ turned_second _ k _ _ d room
                ∙ ih (2 * a) (2 * e + 1) x (y - 2 ^ k) _ left (omega arith) (omega arith)
                    (omega arith) wide (omega arith)
                ∙ omega (arith, curve_second k x y left below))
      ]
      | no right ↦
          let far : 2 ^ k ≤ x = omega arith in
          elim (dec_lt y (2 ^ k)) [
            | yes top ↦
                let at_row = mirror-digits (2 ^ k) (2 * b) (2 * e) y top (omega arith) wide in
                let at_column =
                  mirror-digits (2 ^ k) (2 * b) (2 * a + 1) (x - 2 ^ k) (omega arith) (omega arith)
                    wide in
                let low : 2 ^ k - 1 - (x - 2 ^ k) ≡ 2 * 2 ^ k - 1 - x = omega arith in
                rw (doubled k b, upper_digits k a x far, more_digits k e y)
                  (distance-turned k (2 * b) (2 * a + 1) (2 * e) (x - 2 ^ k) y d 1 0 (omega arith)
                      top (omega arith) (omega arith)
                    ∙ turned_fourth _ k _ _ d room
                    ∙ ap₂ (λ (u v : ℕ). distance (2 * b * 2 ^ k) k u v (d + 3 * (2 ^ k * 2 ^ k)))
                        at_row (rw low at at_column)
                    ∙ ih (2 * b - 1 - 2 * e) (2 * b - 1 - (2 * a + 1)) (2 ^ k - 1 - y)
                        (2 * 2 ^ k - 1 - x) _ (omega arith) (omega arith) (omega arith)
                        (omega arith) wide (omega arith)
                    ∙ omega (arith, curve_fourth k x y far top))
            | no bottom ↦
                let below : 2 ^ k ≤ y = omega arith in
                rw (doubled k b, upper_digits k a x far, upper_digits k e y below)
                  (distance-turned k (2 * b) (2 * a + 1) (2 * e + 1) (x - 2 ^ k) (y - 2 ^ k) d 1 1
                      (omega arith) (omega arith) (omega arith) (omega arith)
                    ∙ turned_third _ k _ _ d room
                    ∙ ih (2 * a + 1) (2 * e + 1) (x - 2 ^ k) (y - 2 ^ k) _ (omega arith)
                        (omega arith) (omega arith) (omega arith) wide (omega arith)
                    ∙ omega (arith, curve_third k x y far below))
          ]
    ]
