-- ===== src/Pmtiles/Hilbert.antt =====
-- `zxyToID` of internal/source/pmtiles/pmtiles.go: a tile's number, its place on a Hilbert curve
-- after all the tiles of lower zooms. Coordinates are words of 32 bits, the number is one of 64.
use Prim.Native.Nat.{bit_xor}
use geoverse_map_server.Base.{ℕ, zero, suc, ◌+◌, ◌-◌, ◌*◌, ◌/◌, ◌%◌, ◌^◌, ◌==◌, if◌then◌else◌}
pub mod Curve
pub mod Loop
pub mod Ids

-- Whether `v & step` is not 0, as 0 or 1, for a power of two `step`.
unfoldable pub bit : ℕ → ℕ → ℕ
bit v step = (v / step) % 2

-- `n - 1 - v` in 32 bits.
unfoldable pub mirror : ℕ → ℕ → ℕ
mirror n v = (n + 2 ^ 32 - 1 - v) % 2 ^ 32

-- The turn at the end of the loop's body, by the bits of the two coordinates.
unfoldable pub turn : ℕ → ℕ → ℕ → ℕ → ℕ → ℕ × ℕ
turn n rx ry x y =
    if ry == 0 then (if rx == 1 then (mirror n y, mirror n x) else (y, x)) else (x, y)

-- The loop, for `step` from `2 ^ (k - 1)` down to 1.
unfoldable pub distance : ℕ → ℕ → ℕ → ℕ → ℕ → ℕ
distance n zero x y d = d
distance n (suc k) x y d =
    let step = 2 ^ k in
    let rx = bit x step in
    let ry = bit y step in
    let t = turn n rx ry x y in
    distance n k t.0 t.1 ((d + step * step * bit_xor (3 * rx) ry) % 2 ^ 64)

-- `zxyToID`. The shift by `2 * z`, in 8 bits, is 0 from 64 on; so is that by `z` from 32 on.
unfoldable pub zxy_to_id : ℕ → ℕ → ℕ → ℕ
zxy_to_id z x y =
    let acc = (2 ^ (2 * z % 256) % 2 ^ 64 + 2 ^ 64 - 1) % 2 ^ 64 / 3 in
    let n = 2 ^ z % 2 ^ 32 in (acc + distance n (if n == 0 then 0 else z) x y 0) % 2 ^ 64
