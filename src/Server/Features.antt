-- ===== src/Server/Features.antt =====
-- internal/server/features.go: the pages of a collection's features and a single feature. The sources
-- and the numbers of a query's text are arguments; the documents and the links' texts are left out.
pub mod Query
pub mod Laws
pub mod Follow
mod Tests
use geoverse_map_server.Base.{
  ℕ, zero, suc, ◌+◌, Bool, true, false, ◌||◌, List, [], ◌∷◌, length, Option, none, some,
  if◌then◌else◌, ltb, min, ◌==◌,
}
use geoverse_map_server.Base.Ints.{ℤ, pos, negsuc, ltz, to_ℕ}
use geoverse_map_server.Base.Results.{Result, ok, error, and_then}
use geoverse_map_server.Base.Strings.{is_empty, split_on, trim_space}
use geoverse_map_server.Base.Text.{Text}

abbrev pub default_limit : ℕ
default_limit = 100

abbrev pub max_limit : ℕ
max_limit = 10000

-- Why a request is bad.
pub data BadRequest : Type 0 where
  bbox_count : BadRequest
  bbox_number : Text → BadRequest
  bbox_order : BadRequest
  limit_not_positive : BadRequest
  offset_negative : BadRequest

-- The registry's feature sources, their answers, and the parsers of numbers. An error of `feature`
-- is true if it is `ErrFeatureNotFound`.
pub record Sources : Type 1 where
  pub Source : Type 0
  pub Feature : Type 0
  pub Coord : Type 0
  pub gt : Coord → Coord → Bool
  pub parse_float : Text → Option Coord
  pub atoi : Text → Option ℤ
  pub feature_source : Text → Option Source
  pub features : Source → Option (List Coord) → ℕ → ℕ → Option (List Feature × ℕ)
  pub feature : Source → Text → Result Feature Bool

-- The answer to a request for items: the page, the number that match, and the offset and the limit
-- of the link to the next page.
pub data ItemsAnswer (Feature : Type 0) : Type 0 where
  unknown_collection : ItemsAnswer Feature
  bad_request : BadRequest → ItemsAnswer Feature
  query_failed : ItemsAnswer Feature
  items : List Feature → ℕ → Option (ℕ × ℕ) → ItemsAnswer Feature

pub data ItemAnswer (Feature : Type 0) : Type 0 where
  unknown_collection : ItemAnswer Feature
  not_found : ItemAnswer Feature
  lookup_failed : ItemAnswer Feature
  item : Feature → ItemAnswer Feature

-- The link to the next page.
unfoldable pub next_page : ℕ → ℕ → ℕ → ℕ → Option (ℕ × ℕ)
next_page offset limit returned matched =
    if ltb (offset + returned) matched then some (offset + returned, limit) else none

module _ (s : Sources) where
  open s use {Feature, Coord, gt, parse_float, atoi, feature_source, features, feature}

  -- The loop over the numbers of a box.
  unfoldable pub parse_coords : List Text → Result (List Coord) BadRequest
  parse_coords [] = ok []
  parse_coords (t ∷ ts) = elim (parse_float (trim_space t)) [
    | none ↦ error (BadRequest.bbox_number t)
    | some c ↦ and_then (parse_coords ts) (λ cs. ok (c ∷ cs))
  ]

  -- The last test of `parseBBox`.
  unfoldable pub check_order : List Coord → Result (Option (List Coord)) BadRequest
  check_order (a ∷ b ∷ c ∷ d ∷ []) =
      if gt a c || gt b d then error BadRequest.bbox_order else ok (some (a ∷ b ∷ c ∷ d ∷ []))
  check_order cs = error BadRequest.bbox_count

  -- `parseBBox`. Of six numbers the third and the sixth are the heights.
  unfoldable pub parse_parts : List Text → Result (Option (List Coord)) BadRequest
  parse_parts (a ∷ b ∷ c ∷ d ∷ []) = and_then (parse_coords (a ∷ b ∷ c ∷ d ∷ [])) check_order
  parse_parts (a ∷ b ∷ _ ∷ c ∷ d ∷ _ ∷ []) =
      and_then (parse_coords (a ∷ b ∷ c ∷ d ∷ [])) check_order
  parse_parts parts = error BadRequest.bbox_count

  unfoldable pub parse_bbox : Text → Result (Option (List Coord)) BadRequest
  parse_bbox v = if is_empty v then ok none else parse_parts (split_on 44 v)

  -- The limit and the offset of the query.
  unfoldable pub parse_limit : Text → Result ℕ BadRequest
  parse_limit v = if is_empty v then ok default_limit else elim (atoi v) [
    | none ↦ error BadRequest.limit_not_positive
    | some n ↦
        if ltz n (pos 1) then error BadRequest.limit_not_positive else ok (min (to_ℕ n) max_limit)
  ]

  unfoldable pub parse_offset : Text → Result ℕ BadRequest
  parse_offset v = if is_empty v then ok 0 else elim (atoi v) [
    | none ↦ error BadRequest.offset_negative
    | some n ↦ if ltz n (pos 0) then error BadRequest.offset_negative else ok (to_ℕ n)
  ]

  -- The end of `handleItems`.
  unfoldable pub answer_items : s.Source → Option (List Coord) → ℕ → ℕ → ItemsAnswer Feature
  answer_items fs bbox limit offset = elim (features fs bbox limit offset) [
    | none ↦ ItemsAnswer.query_failed
    | some (page, matched) ↦
        ItemsAnswer.items page matched (next_page offset limit (length page) matched)
  ]

  -- `handleItems`, of the values `bbox`, `limit` and `offset` of the query.
  unfoldable pub handle_items : Text → Text → Text → Text → ItemsAnswer Feature
  handle_items id bbox limit offset = elim (feature_source id) [
    | none ↦ ItemsAnswer.unknown_collection
    | some fs ↦ elim (parse_bbox bbox) [
      | error e ↦ ItemsAnswer.bad_request e
      | ok box ↦ elim (parse_limit limit) [
        | error e ↦ ItemsAnswer.bad_request e
        | ok n ↦ elim (parse_offset offset) [
          | error e ↦ ItemsAnswer.bad_request e
          | ok from ↦ answer_items fs box n from
        ]
      ]
    ]
  ]

  -- `handleItem`
  unfoldable pub handle_item : Text → Text → ItemAnswer Feature
  handle_item id fid = elim (feature_source id) [
    | none ↦ ItemAnswer.unknown_collection
    | some fs ↦ elim (feature fs fid) [
      | error missing ↦ if missing then ItemAnswer.not_found else ItemAnswer.lookup_failed
      | ok f ↦ ItemAnswer.item f
    ]
  ]
