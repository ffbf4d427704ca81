-- ===== src/Server/Features/Laws.antt =====
-- A page of items that is answered, and its link.
use geoverse_map_server.Base.{
  ℕ, ◌+◌, ◌<◌, ◌≤◌, ◌≡◌, sym, List, length, Option, none, some, ltb, Bool-cases, Option-cases,
  arith, inl, inr, ◌⊎◌,
}
use geoverse_map_server.Base.Results.{Result-cases}
use geoverse_map_server.Base.Text.{Text}
use geoverse_map_server.Server.Features.{
  Sources, ItemsAnswer, next_page, parse_limit, parse_bbox, parse_offset, answer_items,
  handle_items,
}
use geoverse_map_server.Server.Features.Query.{
  IsBox, IsLimit, IsOffset, parse_bbox-IsBox, parse_limit-IsLimit, parse_offset-IsOffset,
}

linked :
    (from n count matched : ℕ) (next : Option (ℕ × ℕ))
    → next_page from n count matched ≡ next
    → (next ≡ some (from + count, n)) × (from + count < matched)
      ⊎ (next ≡ none) × (matched ≤ from + count)
unfolding next_page
linked from n count matched next h = elim (Bool-cases (ltb (from + count) matched)) [
  | inl more ↦ inl (sym (rw more at h), ground arith)
  | inr last ↦ inr (sym (rw last at h), ground arith)
]

module _ (s : Sources) where
  answered :
      (fs : s.Source) (box : Option (List s.Coord)) (n from : ℕ) (page : List s.Feature)
      (matched : ℕ) (next : Option (ℕ × ℕ))
      → answer_items s fs box n from ≡ ItemsAnswer.items page matched next
      → (s.features fs box n from ≡ some (page, matched))
        × ((next ≡ some (from + length page, n)) × (from + length page < matched)
            ⊎ (next ≡ none) × (matched ≤ from + length page))
  unfolding answer_items next_page
  answered fs box n from page matched next h = elim (Option-cases (s.features fs box n from)) [
    | inl failed ↦ absurd (cc (rw (failed, answer_items) at h))
    | inr ((page', matched'), given) ↦
        let shown : ItemsAnswer.items page' matched' (next_page from n (length page') matched')
            ≡ ItemsAnswer.items page matched next =
          rw (given, answer_items) at h in
        let same_page : page' ≡ page = cc shown in
        let same_count : matched' ≡ matched = cc shown in
        let same_next : next_page from n (length page') matched' ≡ next = cc shown in
        (
          rw (same_page, same_count) at given,
          linked from n (length page) matched next (rw (same_page, same_count) at same_next),
        )
  ]

  -- A page of items that is answered is the one that the collection's source gave for the request's
  -- box, limit and offset: an empty limit is 100 and another a positive number, cut to 10000, an empty
  -- offset is 0 and another a number from 0 on, and the box is none or the four numbers of the value
  -- that give its horizontal corners, in order. Its link leads on, by what was given, exactly when
  -- more features match than were given so far.
  pub handle_items-page :
      (id bbox limit offset : Text) (page : List s.Feature) (matched : ℕ) (next : Option (ℕ × ℕ))
      → handle_items s id bbox limit offset ≡ ItemsAnswer.items page matched next
      → (fs : s.Source) × (box : Option (List s.Coord)) × (n : ℕ) × (from : ℕ) × (s.feature_source
            id
          ≡ some fs)
        × IsBox s bbox box
        × IsLimit s limit n
        × IsOffset s offset from
        × (s.features fs box n from ≡ some (page, matched))
        × ((next ≡ some (from + length page, n)) × (from + length page < matched)
            ⊎ (next ≡ none) × (matched ≤ from + length page))
  unfolding handle_items answer_items next_page
  handle_items-page id bbox limit offset page matched next h =
      elim (Option-cases (s.feature_source id)) [
        | inl unknown ↦ absurd (cc (rw (unknown, handle_items) at h))
        | inr (fs, known) ↦ elim (Result-cases (parse_bbox s bbox)) [
          | inr (e, bad) ↦ absurd (cc (rw (known, bad, handle_items) at h))
          | inl (box, b) ↦ elim (Result-cases (parse_limit s limit)) [
            | inr (e, bad) ↦ absurd (cc (rw (known, b, bad, handle_items) at h))
            | inl (n, l) ↦ elim (Result-cases (parse_offset s offset)) [
              | inr (e, bad) ↦ absurd (cc (rw (known, b, l, bad, handle_items) at h))
              | inl (from, o) ↦
                  let (given, more) =
                    answered fs box n from page matched next
                      (rw (known, b, l, o, handle_items) at h) in
                  (
                    fs,
                    box,
                    n,
                    from,
                    known,
                    parse_bbox-IsBox s bbox box b,
                    parse_limit-IsLimit s limit n l,
                    parse_offset-IsOffset s offset from o,
                    given,
                    more,
                  )
            ]
          ]
        ]
      ]
