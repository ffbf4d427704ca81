-- ===== src/Server/Features/Follow.antt =====
-- A client that follows the links of `handleItems` from page to page.
use geoverse_map_server.Base.{
  ℕ, zero, suc, ◌+◌, ◌-◌, ◌^◌, ◌<◌, ◌≤◌, ◌≡◌, refl, sym, ◌∙◌, ap, List, [], ◌∷◌, ◌++◌, length, take,
  drop, map, min, Option, none, some, false, ltb, Bool-cases, arith, inl, inr,
}
use geoverse_map_server.Base.Ints.{pos}
use geoverse_map_server.Base.Results.{ok}
use geoverse_map_server.Base.Strings.{is_empty}
use geoverse_map_server.Base.Text.{Text}
use geoverse_map_server.Base.Lists.{length-drop, length-take, length-map, take-whole}
use geoverse_map_server.Engine.{skip_to, cap}
use geoverse_map_server.Server.Features.{
  Sources, ItemsAnswer, next_page, parse_limit, parse_bbox, parse_offset, answer_items,
  handle_items, max_limit,
}
use geoverse_map_server.Server.Features.Query.{positive_lem, not_negative}

take-drop : (n : ℕ) (xs : List ℕ) → take n xs ++ drop n xs ≡ xs
take-drop zero xs = refl
take-drop (suc n) [] = refl
take-drop (suc n) (x ∷ xs) = ap (λ l. x ∷ l) (take-drop n xs)

drop-nil : (n : ℕ) → drop {A = ℕ} n [] ≡ []
drop-nil zero = refl
drop-nil (suc n) = refl

drop-drop : (n k m : ℕ) (xs : List ℕ) → m ≡ n + k → drop k (drop n xs) ≡ drop m xs
drop-drop zero k m xs h = let same : k ≡ m = omega (arith, h) in ap (λ j. drop j xs) same
drop-drop (suc n) k m [] h = drop-nil k ∙ sym (drop-nil m)
drop-drop (suc n) k zero (x ∷ xs) h = absurd (omega (arith, h))
drop-drop (suc n) k (suc m) (x ∷ xs) h = drop-drop n k m xs (omega (arith, h))

drop-all : (n : ℕ) (xs : List ℕ) → length xs ≤ n → drop n xs ≡ []
drop-all n [] h = drop-nil n
drop-all zero (x ∷ xs) h = absurd (omega (arith, h))
drop-all (suc n) (x ∷ xs) h = drop-all n xs (omega (arith, h))

skip_to-drop : (n : ℕ) (idx : List ℕ) → skip_to (pos n) idx ≡ drop n idx
unfolding skip_to
skip_to-drop zero idx = refl
skip_to-drop (suc n) idx = ground (arith, drop-all (suc n) idx)

cap-take : (n : ℕ) (idx : List ℕ) → 0 < n → cap (pos n) idx ≡ take n idx
unfolding cap
cap-take zero idx h = absurd (omega arith)
cap-take (suc n) idx h = ground (arith, take-whole idx (suc n))

map-append : {A : Type 0} (f : ℕ → A) (xs ys : List ℕ) → map f (xs ++ ys) ≡ map f xs ++ map f ys
map-append f [] ys = refl
map-append f (x ∷ xs) ys = ap (λ l. f x ∷ l) (map-append f xs ys)

-- The page of an answer and its link.
abbrev page_of : {F : Type 0} → ItemsAnswer F → Option (List F × Option (ℕ × ℕ))
page_of ItemsAnswer.unknown_collection = none
page_of (ItemsAnswer.bad_request e) = none
page_of ItemsAnswer.query_failed = none
page_of (ItemsAnswer.items page matched next) = some (page, next)

module _ (s : Sources) (itoa : ℕ → Text) (id bbox : Text) where
  -- All features, page by page from a limit and an offset on: `none` if an answer has no page, or if
  -- so many requests are not enough.
  unfoldable pub follow : ℕ → ℕ → ℕ → Option (List s.Feature)
  follow zero limit offset = none
  follow (suc n) limit offset = elim (page_of (handle_items s id bbox (itoa limit) (itoa offset))) [
    | none ↦ none
    | some (page, none) ↦ some page
    | some (page, some (later, size)) ↦ elim (follow n size later) [
      | none ↦ none
      | some rest ↦ some (page ++ rest)
    ]
  ]

  module _ (prints : (n : ℕ) → n < 2 ^ 63 → s.atoi (itoa n) ≡ some (pos n))
      (shows : (n : ℕ) → is_empty (itoa n) ≡ false) (fs : s.Source) (box : Option (List s.Coord))
      (found : List ℕ) (feature_at : ℕ → s.Feature) (known : s.feature_source id ≡ some fs)
      (asked : parse_bbox s bbox ≡ ok box)
      (pages : (limit offset : ℕ)
        → s.features fs box limit offset
          ≡ some (map feature_at (cap (pos limit) (skip_to (pos offset) found)), length found))
      (small : length found < 2 ^ 63) where
    parse_limit-itoa : (n : ℕ) → 0 < n → n ≤ max_limit → parse_limit s (itoa n) ≡ ok n
    unfolding parse_limit
    parse_limit-itoa zero low high = absurd (omega arith)
    parse_limit-itoa (suc n) low high =
        let cut : min (suc n) max_limit ≡ suc n = omega (arith, high) in
        rw (shows (suc n), prints (suc n) (omega (arith, high)), positive_lem n, parse_limit)
          (ap ok cut)

    parse_offset-itoa : (n : ℕ) → n < 2 ^ 63 → parse_offset s (itoa n) ≡ ok n
    unfolding parse_offset
    parse_offset-itoa n h = rw (shows n, prints n h, not_negative n, parse_offset) refl

    -- The answer to a request with printed numbers.
    handle_items-itoa :
        (limit offset : ℕ)
        → 0 < limit
        → limit ≤ max_limit
        → offset ≤ length found
        → handle_items s id bbox (itoa limit) (itoa offset) ≡ (
            let page = take limit (drop offset found) in
            ItemsAnswer.items
              (map feature_at page)
              (length found)
              (next_page offset limit (length page) (length found)))
    unfolding handle_items answer_items
    handle_items-itoa limit offset low high inside =
        let page : cap (pos limit) (skip_to (pos offset) found) ≡ take limit (drop offset found) =
          ap (λ l. cap (pos limit) l) (skip_to-drop offset found)
          ∙ cap-take limit (drop offset found) low in
        rw
          (
            known,
            asked,
            parse_limit-itoa limit low high,
            parse_offset-itoa offset (omega (arith, inside, small)),
            pages limit offset,
            page,
            length-map feature_at (take limit (drop offset found)),
            handle_items,
            answer_items,
          )
          refl

    -- From an offset on the pages are the rest of the features.
    follow-drop :
        (n limit offset : ℕ)
        → 0 < limit
        → limit ≤ max_limit
        → offset ≤ length found
        → length found < offset + n
        → follow n limit offset ≡ some (map feature_at (drop offset found))
    unfolding follow next_page
    follow-drop zero limit offset low high inside fuel = absurd (omega (arith, inside, fuel))
    follow-drop (suc n) limit offset low high inside fuel =
        let rest = drop offset found in
        let page = take limit rest in
        let size : length rest ≡ length found - offset = length-drop offset found in
        let taken : length page ≡ min limit (length rest) = length-take limit rest in
        let answer = handle_items-itoa limit offset low high inside in
        elim (Bool-cases (ltb (offset + length page) (length found))) [
          | inl more ↦
              let full : offset + length page ≡ offset + limit = ground (arith, size, taken) in
              let ih =
                follow-drop n limit (offset + length page) low high (ground (arith, more))
                  (ground (arith, size, taken)) in
              let joined : page ++ drop (offset + length page) found ≡ rest =
                ap (λ l. page ++ l) (sym (drop-drop offset limit (offset + length page) found full))
                ∙ take-drop limit rest in
              rw (answer, more, ih, follow)
                (ap some (
                  sym (map-append feature_at page (drop (offset + length page) found))
                  ∙ ap (map feature_at) joined))
          | inr last ↦
              rw (answer, last, follow)
                (ap (λ l. some (map feature_at l))
                  (take-whole rest limit (ground (arith, size, taken))))
        ]

    -- A client that asks `handleItems` for page after page by the links it answers, from offset 0 and
    -- a limit from 1 to 10000, ends within one request more than there are features, and gets each of
    -- the features that match once and in order: over a source that cuts what it found as the engine
    -- does, fewer than 2^63, and decimal numbers that are read as they are printed.
    pub follow-whole :
        (limit : ℕ)
        → 0 < limit
        → limit ≤ max_limit
        → follow (suc (length found)) limit 0 ≡ some (map feature_at found)
    follow-whole limit low high =
        follow-drop (suc (length found)) limit 0 low high (omega arith) (omega arith)
