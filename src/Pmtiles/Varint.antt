-- ===== src/Pmtiles/Varint.antt =====
-- `binary.ReadUvarint` of Go's library, which `decodeDirectory` calls: seven bits a byte, the lowest
-- first, the last byte below 128. A number that exceeds 64 bits is an error.
use geoverse_map_server.Base.{
  ℕ, zero, suc, ◌+◌, ◌*◌, ◌/◌, ◌%◌, ◌^◌, ◌<◌, ◌≡◌, refl, ap, ◌∙◌, ◌&&◌, [], ◌∷◌, ◌++◌, Option, none,
  some, arith, Bool-cases, inl, inr, ltb, ◌==◌, if◌then◌else◌,
}
use geoverse_map_server.Base.Text.{Text}

-- The loop: `x` is the number so far, `i` counts the bytes read. The bits that `|` adds are above
-- those of `x`, so it is a sum.
unfoldable pub read_more : ℕ → ℕ → Text → Option (ℕ × Text)
read_more i x [] = none
read_more i x (b ∷ r) =
    let rest = read_more (i + 1) ((x + b % 128 * 2 ^ (7 * i)) % 2 ^ 64) r in
    if i == 10
    then none
    else if ltb b 128
    then (if i == 9 && ltb 1 b then none else some ((x + b * 2 ^ (7 * i)) % 2 ^ 64, r))
    else rest

unfoldable pub read_uvarint : Text → Option (ℕ × Text)
read_uvarint r = read_more 0 0 r

-- The encoding: a number in at most `fuel` more bytes.
unfoldable pub uvarint_of : ℕ → ℕ → Text
uvarint_of zero v = v ∷ []
uvarint_of (suc fuel) v =
    let rest = uvarint_of fuel (v / 128) in if ltb v 128 then v ∷ [] else (v % 128 + 128) ∷ rest

-- A word takes at most ten bytes.
unfoldable pub put_uvarint : ℕ → Text
put_uvarint v = uvarint_of 9 v

read_more_last :
    (x v : ℕ) (r : Text)
    → v * 2 ^ (7 * 9) + x < 2 ^ 64
    → read_more 9 x (v ∷ r) ≡ some (x + v * 2 ^ (7 * 9), r)
unfolding read_more
read_more_last x v r room = ground arith

read_more_low :
    (i x v : ℕ) (r : Text)
    → i < 9
    → v < 128
    → v * 2 ^ (7 * i) + x < 2 ^ 64
    → read_more i x (v ∷ r) ≡ some (x + v * 2 ^ (7 * i), r)
unfolding read_more
read_more_low i x v r l h room = ground arith

read_more_high :
    (i x v : ℕ) (r : Text)
    → i < 9
    → x + v % 128 * 2 ^ (7 * i) < 2 ^ 64
    → read_more i x ((v % 128 + 128) ∷ r) ≡ read_more (i + 1) (x + v % 128 * 2 ^ (7 * i)) r
unfolding read_more
read_more_high i x v r l room =
    let low : (v % 128 + 128) % 128 ≡ v % 128 = omega arith in
    let fits : (x + v % 128 * 2 ^ (7 * i)) % 2 ^ 64 ≡ x + v % 128 * 2 ^ (7 * i) = omega arith in
    rw (low, fits) (ground arith)

-- The low seven bits and the rest, at their places.
split_bits : (i v : ℕ) → v * 2 ^ (7 * i) ≡ v / 128 * 2 ^ (7 * (i + 1)) + v % 128 * 2 ^ (7 * i)
split_bits i v =
    let up : 2 ^ (7 * (i + 1)) ≡ 128 * 2 ^ (7 * i) = raised i in
    rw up (parts (2 ^ (7 * i)) v (v / 128) (v % 128) (omega arith))
  where
    parts : (p v q l : ℕ) → v ≡ 128 * q + l → v * p ≡ q * (128 * p) + l * p
    parts p v q l h = rw h (grind arith)

    raised : (i : ℕ) → 2 ^ (7 * (i + 1)) ≡ 128 * 2 ^ (7 * i)
    raised i =
        let seven : 7 * (i + 1) ≡ suc (suc (suc (suc (suc (suc (suc (7 * i))))))) = omega arith in
        rw seven (omega arith)

read_more-uvarint_of :
    (fuel i x v : ℕ) (r : Text)
    → fuel + i ≡ 9
    → v * 2 ^ (7 * i) + x < 2 ^ 64
    → read_more i x (uvarint_of fuel v ++ r) ≡ some (x + v * 2 ^ (7 * i), r)
unfolding uvarint_of
read_more-uvarint_of zero i x v r e room =
    let nine : i ≡ 9 = omega arith in rw nine (read_more_last x v r (rw nine at room))
read_more-uvarint_of (suc fuel) i x v r e room = elim (Bool-cases (ltb v 128)) [
  | inl low ↦ rw low (read_more_low i x v r (omega arith) (ground arith) room)
  | inr high ↦
      let parts = split_bits i v in
      rw high (
        read_more_high i x v (uvarint_of fuel (v / 128) ++ r) (omega arith) (omega (arith, parts))
        ∙ read_more-uvarint_of fuel (i + 1) (x + v % 128 * 2 ^ (7 * i)) (v / 128) r (omega arith)
            (omega (arith, parts))
        ∙ ap (λ (n : ℕ). some (n, r)) (omega (arith, parts)))
]

-- A word of 64 bits that was encoded is read back, with what follows it.
pub read_uvarint-put_uvarint :
    (v : ℕ) (r : Text) → v < 2 ^ 64 → read_uvarint (put_uvarint v ++ r) ≡ some (v, r)
unfolding read_uvarint put_uvarint
read_uvarint-put_uvarint v r h =
    read_more-uvarint_of 9 0 0 v r refl (omega arith) ∙ ap (λ (n : ℕ). some (n, r)) (omega arith)
