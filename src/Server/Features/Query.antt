-- ===== src/Server/Features/Query.antt =====
-- What the values of a query for items mean: the box, the limit and the offset.
use geoverse_map_server.Base.{
  ℕ, zero, suc, ◌<◌, ◌≡◌, ◌⊎◌, inl, inr, refl, sym, ◌∙◌, ap, List, [], ◌∷◌, min, Option, none, some,
  true, false, Bool-cases, Option-cases, arith,
}
use geoverse_map_server.Base.Ints.{pos, negsuc, ltz}
use geoverse_map_server.Base.Results.{Result, ok, and_then, and_then-ok}
use geoverse_map_server.Base.Strings.{is_empty, split_on, trim_space}
use geoverse_map_server.Base.Text.{Text}
use geoverse_map_server.Server.Features.{
  Sources, parse_limit, parse_bbox, parse_parts, parse_coords, check_order, parse_offset,
  default_limit, max_limit,
}

empty_text : (v : Text) → is_empty v ≡ true → v ≡ []
empty_text [] h = refl
empty_text (c ∷ v) h = absurd (cc h)

pub positive_lem : (z : ℕ) → ltz (pos (suc z)) (pos 1) ≡ false
positive_lem z = ground arith

pub not_negative : (z : ℕ) → ltz (pos z) (pos 0) ≡ false
not_negative z = ground arith

module _ (s : Sources) where
  -- No value means 100, and a number that is positive means itself, up to 10000.
  abbrev pub IsLimit : Text → ℕ → Type 0
  IsLimit v n =
      ((v ≡ []) × (n ≡ 100)) ⊎ ((m : ℕ) × (s.atoi v ≡ some (pos m)) × (0 < m) × (n ≡ min m 10000))

  -- No value means 0, and a number that is not negative means itself.
  abbrev pub IsOffset : Text → ℕ → Type 0
  IsOffset v n = ((v ≡ []) × (n ≡ 0)) ⊎ (s.atoi v ≡ some (pos n))

  -- A part of the value, without the white space around it, is a number.
  abbrev pub IsNumber : Text → s.Coord → Type 0
  IsNumber t c = s.parse_float (trim_space t) ≡ some c

  -- The four parts of a value that count: all of four, and of six all but the third and the last.
  abbrev pub HasParts : Text → Text → Text → Text → Text → Type 0
  HasParts v a b c d =
      (split_on 44 v ≡ a ∷ b ∷ c ∷ d ∷ [])
      ⊎ ((h : Text) × (k : Text) × (split_on 44 v ≡ a ∷ b ∷ h ∷ c ∷ d ∷ k ∷ []))

  -- No value means no box, and else the four parts are the smallest and the greatest coordinates.
  abbrev pub IsBox : Text → Option (List s.Coord) → Type 0
  IsBox v box =
      ((v ≡ []) × (box ≡ none))
      ⊎ ((a : Text) × (b : Text) × (c : Text) × (d : Text) × (west : s.Coord) × (south : s.Coord)
          × (east : s.Coord) × (north : s.Coord) × HasParts v a b c d
          × IsNumber a west
          × IsNumber b south
          × IsNumber c east
          × IsNumber d north
          × (s.gt west east ≡ false)
          × (s.gt south north ≡ false)
          × (box ≡ some (west ∷ south ∷ east ∷ north ∷ [])))

  pub parse_limit-IsLimit : (v : Text) (n : ℕ) → parse_limit s v ≡ ok n → IsLimit v n
  unfolding parse_limit
  parse_limit-IsLimit v n h = elim (Bool-cases (is_empty v)) [
    | inl none_given ↦
        let given : Result.ok default_limit ≡ Result.ok n = rw none_given at h in
        inl (empty_text v none_given, cc given)
    | inr some_given ↦ elim (Option-cases (s.atoi v)) [
      | inl bad ↦ absurd (cc (rw (some_given, bad, parse_limit) at h))
      | inr (negsuc z, read) ↦ absurd (cc (rw (some_given, read, parse_limit) at h))
      | inr (pos zero, read) ↦ absurd (cc (rw (some_given, read, parse_limit) at h))
      | inr (pos (suc z), read) ↦
          let given : Result.ok (min (suc z) max_limit) ≡ Result.ok n =
            rw (some_given, read, positive_lem z, parse_limit) at h in
          inr (suc z, read, omega arith, cc given)
    ]
  ]

  pub parse_offset-IsOffset : (v : Text) (n : ℕ) → parse_offset s v ≡ ok n → IsOffset v n
  unfolding parse_offset
  parse_offset-IsOffset v n h = elim (Bool-cases (is_empty v)) [
    | inl none_given ↦
        let given : Result.ok 0 ≡ Result.ok n = rw none_given at h in
        inl (empty_text v none_given, cc given)
    | inr some_given ↦ elim (Option-cases (s.atoi v)) [
      | inl bad ↦ absurd (cc (rw (some_given, bad, parse_offset) at h))
      | inr (negsuc z, read) ↦ absurd (cc (rw (some_given, read, parse_offset) at h))
      | inr (pos z, read) ↦
          let given : Result.ok z ≡ Result.ok n =
            rw (some_given, read, not_negative z, parse_offset) at h in
          let same : z ≡ n = cc given in inr (read ∙ ap (λ k. some (pos k)) same)
    ]
  ]

  parse_coords-cons :
      (t : Text) (ts : List Text) (cs : List s.Coord)
      → parse_coords s (t ∷ ts) ≡ ok cs
      → (c : s.Coord) × (ds : List s.Coord) × IsNumber t c
        × (parse_coords s ts ≡ ok ds)
        × (cs ≡ c ∷ ds)
  unfolding parse_coords
  parse_coords-cons t ts cs h = elim (Option-cases (s.parse_float (trim_space t))) [
    | inl bad ↦ absurd (cc (rw (bad, parse_coords) at h))
    | inr (c, read) ↦
        let (ds, rest, ends) = and_then-ok (parse_coords s ts) _ (rw (read, parse_coords) at h) in
        let same : c ∷ ds ≡ cs = cc ends in (c, ds, read, rest, sym same)
  ]

  check_order-ok :
      (a b c d : s.Coord) (box : Option (List s.Coord))
      → check_order s (a ∷ b ∷ c ∷ d ∷ []) ≡ ok box
      → (s.gt a c ≡ false) × (s.gt b d ≡ false) × (box ≡ some (a ∷ b ∷ c ∷ d ∷ []))
  unfolding check_order
  check_order-ok a b c d box h = elim (Bool-cases (s.gt a c)) [
    | inl far ↦ absurd (cc (rw (far, check_order) at h))
    | inr near ↦ elim (Bool-cases (s.gt b d)) [
      | inl high ↦ absurd (cc (rw (near, high, check_order) at h))
      | inr low ↦
          let given : Result.ok (some (a ∷ b ∷ c ∷ d ∷ [])) ≡ Result.ok box =
            rw (near, low, check_order) at h in
          (near, low, sym (cc given))
    ]
  ]

  four-IsBox :
      (v a b c d : Text) (box : Option (List s.Coord))
      → HasParts v a b c d
      → and_then (parse_coords s (a ∷ b ∷ c ∷ d ∷ [])) (check_order s) ≡ ok box
      → IsBox v box
  unfolding parse_coords
  four-IsBox v a b c d box parts h =
      let (cs, read, order) = and_then-ok (parse_coords s (a ∷ b ∷ c ∷ d ∷ [])) _ h in
      let (west, r1, is_west, e1, s1) = parse_coords-cons a (b ∷ c ∷ d ∷ []) cs read in
      let (south, r2, is_south, e2, s2) = parse_coords-cons b (c ∷ d ∷ []) r1 e1 in
      let (east, r3, is_east, e3, s3) = parse_coords-cons c (d ∷ []) r2 e2 in
      let (north, r4, is_north, e4, s4) = parse_coords-cons d [] r3 e3 in
      let s5 : [] ≡ r4 = cc e4 in
      let all : cs ≡ west ∷ south ∷ east ∷ north ∷ [] = cc (s1, s2, s3, s4, s5) in
      let (over, up, is_box) =
        check_order-ok west south east north box (sym (ap (check_order s) all) ∙ order) in
      inr (
        a, b, c, d, west, south, east, north, parts, is_west, is_south, is_east, is_north, over, up,
        is_box,
      )

  parts-IsBox :
      (v : Text) (ps : List Text) (box : Option (List s.Coord))
      → split_on 44 v ≡ ps
      → parse_parts s ps ≡ ok box
      → IsBox v box
  unfolding parse_parts
  parts-IsBox v [] box e h = absurd (cc h)
  parts-IsBox v (a ∷ []) box e h = absurd (cc h)
  parts-IsBox v (a ∷ b ∷ []) box e h = absurd (cc h)
  parts-IsBox v (a ∷ b ∷ c ∷ []) box e h = absurd (cc h)
  parts-IsBox v (a ∷ b ∷ c ∷ d ∷ []) box e h = four-IsBox v a b c d box (inl e) h
  parts-IsBox v (a ∷ b ∷ c ∷ d ∷ x ∷ []) box e h = absurd (cc h)
  parts-IsBox v (a ∷ b ∷ x ∷ c ∷ d ∷ y ∷ []) box e h = four-IsBox v a b c d box (inr (x, y, e)) h
  parts-IsBox v (a ∷ b ∷ c ∷ d ∷ x ∷ y ∷ z ∷ ps) box e h = absurd (cc h)

  pub parse_bbox-IsBox :
      (v : Text) (box : Option (List s.Coord)) → parse_bbox s v ≡ ok box → IsBox v box
  unfolding parse_bbox
  parse_bbox-IsBox v box h = elim (Bool-cases (is_empty v)) [
    | inl e ↦
        let given : Result.ok none ≡ Result.ok box = rw e at h in
        inl (empty_text v e, sym (cc given))
    | inr e ↦ parts-IsBox v (split_on 44 v) box refl (rw e at h)
  ]
