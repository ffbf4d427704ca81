-- ===== src/Server/Features/Tests.antt =====
-- A collection of three features, over pages of two.
use geoverse_map_server.Base.{
  ℕ, ap, map, ◌*◌, ◌+◌, ◌-◌, ◌<◌, ◌≤◌, ◌≡◌, ◌⊎◌, refl, List, [], ◌∷◌, none, some, Option, true, ltb,
  if◌then◌else◌, arith,
}
use geoverse_map_server.Base.Ints.{ℤ, pos}
use geoverse_map_server.Base.Results.{ok, error}
use geoverse_map_server.Base.Strings.{same}
use geoverse_map_server.Base.Text.{Text, str, text_eq}
use geoverse_map_server.Engine.{skip_to, cap}
use geoverse_map_server.Server.Features.{
  Sources, ItemsAnswer, BadRequest, handle_items, parse_bbox, parse_limit, parse_offset,
  answer_items, next_page,
}
use geoverse_map_server.Server.Features.Follow.{follow, follow-whole}
use geoverse_map_server.Server.Features.Laws.{handle_items-page}
use geoverse_map_server.Server.Features.Query.{IsBox, IsLimit, IsOffset}

abbrev digit : Text → Option ℤ
digit [] = none
digit (c ∷ []) = some (pos (c - 48))
digit (c ∷ d ∷ t) = none

abbrev found : List ℕ
found = 1 ∷ 2 ∷ 3 ∷ []

abbrev parks : Sources
parks = record {
  Source = Unit;
  Feature = ℕ;
  Coord = ℕ;
  gt = λ a b. ltb b a;
  parse_float = λ t. none;
  atoi = digit;
  feature_source = λ t. if same t (str "parks") then some tt else none;
  features = λ _ box limit offset.
      some (map (λ n. 10 * n) (cap (pos limit) (skip_to (pos offset) found)), 3);
  feature = λ _ id. error true;
}

parks-known : parks.feature_source (str "parks") ≡ some tt
unfolding same text_eq
parks-known = refl

parks-box : parse_bbox parks [] ≡ ok none
unfolding parse_bbox
parks-box = refl

second :
    handle_items parks (str "parks") [] (str "2") (str "1")
    ≡ ItemsAnswer.items (20 ∷ 30 ∷ []) 3 none
unfolding handle_items parse_bbox parse_limit parse_offset answer_items next_page skip_to cap same
    text_eq
second = refl

refused :
    (handle_items parks (str "parks") [] (str "0") []
      ≡ ItemsAnswer.bad_request BadRequest.limit_not_positive)
    × (handle_items parks (str "lakes") [] [] [] ≡ ItemsAnswer.unknown_collection)
unfolding handle_items parse_bbox parse_limit parse_offset same text_eq
refused = (refl, refl)

abbrev printed : ℕ → Text
printed n = (n + 48) ∷ []

digit-printed : (n : ℕ) → digit (printed n) ≡ some (pos n)
digit-printed n = let same : n + 48 - 48 ≡ n = omega arith in ap (λ m. some (pos m)) same

follow-whole_example : follow parks printed (str "parks") [] 4 2 0 ≡ some (map (λ n. 10 * n) found)
follow-whole_example =
    follow-whole parks printed (str "parks") [] (λ n _. digit-printed n) (λ n. refl) tt none found
      (λ n. 10 * n) parks-known parks-box (λ limit offset. refl) (omega arith) 2 (omega arith)
      (omega arith)

handle_items-page_example :
    (fs : Unit) × (box : Option (List ℕ)) × (n : ℕ) × (from : ℕ) × (parks.feature_source
        (str "parks")
      ≡ some fs)
    × IsBox parks [] box
    × IsLimit parks (str "2") n
    × IsOffset parks (str "1") from
    × (parks.features fs box n from ≡ some (20 ∷ 30 ∷ [], 3))
    × ((◌≡◌ {A = Option (ℕ × ℕ)} none (some (from + 2, n))) × (from + 2 < 3)
        ⊎ (◌≡◌ {A = Option (ℕ × ℕ)} none none) × (3 ≤ from + 2))
handle_items-page_example =
    handle_items-page parks (str "parks") [] (str "2") (str "1") (20 ∷ 30 ∷ []) 3 none second
