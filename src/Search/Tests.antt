-- ===== src/Search/Tests.antt =====
-- Costs and a queue for the searches, and runs of them.
use geoverse_map_server.Base.{
  ℕ, ◌+◌, ◌%◌, ◌≡◌, ◌⊎◌, inl, inr, refl, sym, subst, List, [], ◌∷◌, some, none, Option, Bool, true,
  false, ltb, ◌<◌, length, arith, if◌then◌else◌, Bool-cases, Option-cases, reverse,
}
use geoverse_map_server.Base.Ints.{pos, negsuc}
use geoverse_map_server.Base.Lists.{Reordered, Reordered-refl, Reordered-Memᴰ}
use geoverse_map_server.Costs.{Costs, Le}
use geoverse_map_server.Graph.{Edge}
use geoverse_map_server.Graph.Tests.{network, network-IsGraph}
use geoverse_map_server.Search.{
  Seed, Item, Heap, Search, Request, Outcome, at, new_search, plant, relax, scan, visit, turn, loop,
  dijkstra_seeded, cancel_check_interval, dijkstra, trace, path_to,
}
use geoverse_map_server.Search.Astar.{astar, settle, move, visit_node}
use geoverse_map_server.Search.Astar.Laws.{astar-returns, astar-dijkstra}
use geoverse_map_server.Search.Walks.{Walk}
use geoverse_map_server.Search.Laws.{dijkstra_seeded-total, dijkstra_seeded-least, path_to-Walk}
use mathlib.Core.List.{Memᴰ}
use mathlib.Core.Logic.{⊎_elim}
use mathlib.Core.List.Memᴰ

-- Whole numbers and an infinite cost.
abbrev plus : Option ℕ → Option ℕ → Option ℕ
plus (some a) (some b) = some (a + b)
plus (some a) none = none
plus none b = none

abbrev less : Option ℕ → Option ℕ → Bool
less (some a) (some b) = ltb a b
less (some a) none = true
less none b = false

whole_asym : (a b : Option ℕ) → less a b ≡ true → less b a ≡ false
whole_asym (some a) (some b) h = ground arith
whole_asym (some a) none h = refl
whole_asym none b h = absurd (cc h)

whole_trans : (a b c : Option ℕ) → less b a ≡ false → less c b ≡ false → less c a ≡ false
whole_trans (some a) (some b) (some c) h h' = ground arith
whole_trans (some a) (some b) none h h' = refl
whole_trans (some a) none none h h' = refl
whole_trans (some a) none (some c) h h' = absurd (cc h')
whole_trans none (some b) c h h' = absurd (cc h)
whole_trans none none c h h' = h'

whole_grows : (a w : Option ℕ) → less (plus a w) a ≡ false
whole_grows (some a) (some w) = ground arith
whole_grows (some a) none = refl
whole_grows none w = refl

whole_mono : (a b w : Option ℕ) → less b a ≡ false → less (plus b w) (plus a w) ≡ false
whole_mono (some a) (some b) (some w) h = ground arith
whole_mono (some a) (some b) none h = refl
whole_mono (some a) none w h = refl
whole_mono none (some b) w h = absurd (cc h)
whole_mono none none w h = refl

whole_origin : (a : Option ℕ) → less a (some 0) ≡ false
whole_origin (some a) = ground arith
whole_origin none = refl

abbrev whole : Costs
whole = record {
  Cost = Option ℕ;
  origin = some 0;
  infinite = none;
  add = plus;
  lt = less;
  asym = whole_asym;
  le_trans = whole_trans;
  le_origin = whole_origin;
  le_infinite = λ a. refl;
  le_add = whole_grows;
  add_le = whole_mono;
}

-- A queue without an order, from which the least item is selected.
module _ (k : Costs) where
  unfoldable select : List (Item k) → Option (Item k × List (Item k))
  select [] = none
  select (x ∷ q) = elim (select q) [
    | none ↦ some (x, [])
    | some (y, rest) ↦ if k.lt y.prio x.prio then some (y, x ∷ rest) else some (x, q)
  ]

  select-none : (q : List (Item k)) → select q ≡ none → q ≡ []
  unfolding select
  select-none [] h = refl
  select-none (x ∷ q) h = elim (Option-cases (select q)) [
    | inl end ↦ absurd (cc (rw (end, select) at h))
    | inr ((y, rest), e) ↦ elim (Bool-cases (k.lt y.prio x.prio)) [
      | inl low ↦ absurd (cc (rw (e, low, select) at h))
      | inr high ↦ absurd (cc (rw (e, high, select) at h))
    ]
  ]

  -- The item and the rest are the queue, and the item is a least one.
  abbrev IsTaken : List (Item k) → Item k × List (Item k) → Type 0
  IsTaken q w = Reordered q (w.0 ∷ w.1) × ((y : Item k) → Memᴰ y w.1 → Le k (w.0).prio y.prio)

  select-IsTaken :
      (q : List (Item k)) (w : Item k × List (Item k)) → select q ≡ some w → IsTaken q w
  unfolding select
  select-IsTaken [] w h = absurd (cc h)
  select-IsTaken (z ∷ q) w h = elim (Option-cases (select q)) [
    | inl end ↦
        let alone : some (z, []) ≡ some w = rw (end, select) at h in
        let same : (z, []) ≡ w = cc alone in
        subst (IsTaken (z ∷ q)) same (
          subst (λ r. Reordered (z ∷ r) (z ∷ [])) (sym (select-none q end))
              (Reordered-refl (z ∷ [])),
          λ y m. absurd (Memᴰ.not-nil m),
        )
    | inr ((y, others), e) ↦
        let (order, least) = select-IsTaken q (y, others) e in
        elim (Bool-cases (k.lt y.prio z.prio)) [
          | inl low ↦
              let taken : some (y, z ∷ others) ≡ some w = rw (e, low, select) at h in
              let same : (y, z ∷ others) ≡ w = cc taken in
              subst (IsTaken (z ∷ q)) same (
                Reordered.trans (Reordered.cons z order) (Reordered.swap z y others),
                λ x m.
                    ⊎_elim
                      (λ at. subst (λ v. Le k y.prio v.prio) (sym at) (k.asym y.prio z.prio low))
                      (least x) (Memᴰ.cases_cons m),
              )
          | inr high ↦
              let taken : some (z, q) ≡ some w = rw (e, high, select) at h in
              let same : (z, q) ≡ w = cc taken in
              subst (IsTaken (z ∷ q)) same (
                Reordered-refl (z ∷ q),
                λ x m.
                    ⊎_elim (λ at. subst (λ v. Le k z.prio v.prio) (sym at) high)
                      (λ n. k.le_trans _ _ _ high (least x n))
                      (Memᴰ.cases_cons (Reordered-Memᴰ order m)),
              )
        ]
  ]

  abbrev selection : Heap k
  selection = record {
    push = λ x q. x ∷ q;
    pop = select;
    IsHeap = λ q. Unit;
    nil-IsHeap = tt;
    push-IsHeap = λ x q h. tt;
    push-Reordered = λ x q. Reordered-refl (x ∷ q);
    pop-none = select-none;
    pop-IsHeap = λ x q rest h e. tt;
    pop-Reordered = λ x q rest e. (select-IsTaken q (x, rest) e).0;
    pop-least = λ x y q rest h e m. (select-IsTaken q (x, rest) e).1 y m;
  }

abbrev meters : Edge ℕ → Option ℕ
meters e = some e.length_m

abbrev start : List (Seed whole)
start = (record { node = 0; cost = some 1 }) ∷ []

abbrev to_lift : Request whole
to_lift = record { cutoff = some 0; target = pos 3; done = λ n. false }

abbrev result : Search whole
result = record {
  cost = some 1 ∷ some 5 ∷ some 10 ∷ some 10 ∷ [];
  prev_edge = none ∷ some 0 ∷ some 4 ∷ some 6 ∷ [];
  queue = [];
}

ran : dijkstra_seeded whole (selection whole) network meters start to_lift ≡ Outcome.found result
unfolding dijkstra_seeded plant new_search loop turn visit scan relax select
ran = refl

path-result : path_to whole network.edges result 3 3 ≡ some (4 ∷ 6 ∷ [])
unfolding path_to trace
path-result = refl

start-inside : (x : Seed whole) → Memᴰ x start → x.node < length network.nodes
start-inside x m =
    subst (λ y. y.node < length network.nodes) (sym (Memᴰ.eq_of_singleton m)) (omega arith)

around : Walk whole network meters start 2 (some 10) (2 ∷ 0 ∷ [])
around =
    Walk.along {u = 1}
      {e = record { from = 1; to = 2; length_m = 5; speed_ms = 1; duration_s = 0; feature_idx = 0 }}
      (Walk.along {u = 0}
        {e = record {
          from = 0;
          to = 1;
          length_m = 4;
          speed_ms = 1;
          duration_s = 0;
          feature_idx = 0;
        }}
        (Walk.sow (record { node = 0; cost = some 1 }) (Memᴰ.head refl)) (Memᴰ.head refl, refl))
      (Memᴰ.tail (Memᴰ.head refl), refl)

abbrev anywhere : Request whole
anywhere = record to_lift { target = negsuc 0 }

spread :
    dijkstra_seeded whole (selection whole) network meters start anywhere ≡ Outcome.found result
unfolding dijkstra_seeded plant new_search loop turn visit scan relax select
spread = refl

dijkstra_seeded-total_example :
    ((t : Search whole) × (dijkstra_seeded whole (selection whole) network meters start to_lift
        ≡ Outcome.found t))
    ⊎ ((dijkstra_seeded whole (selection whole) network meters start to_lift ≡ Outcome.cancelled)
        × ((n : ℕ) × (n % cancel_check_interval ≡ 0) × (to_lift.done n ≡ true)))
dijkstra_seeded-total_example =
    dijkstra_seeded-total whole (selection whole) network network-IsGraph meters start to_lift
      start-inside

dijkstra_seeded-least_example : Le whole (at whole result 2) (some 10)
dijkstra_seeded-least_example =
    dijkstra_seeded-least whole (selection whole) network network-IsGraph meters start anywhere
      result start-inside spread 2 (some 10) (2 ∷ 0 ∷ []) around refl (inr (λ w. refl))

path_to-Walk_example :
    (n : ℕ) × (p : List ℕ) × (path_to whole network.edges result n 3 ≡ some (reverse p))
    × Walk whole network meters start 3 (at whole result 3) p
path_to-Walk_example =
    path_to-Walk whole (selection whole) network network-IsGraph meters start to_lift result
      start-inside ran 3 refl

-- No heuristic.
abbrev level : ℕ → Option ℕ
level n = some 0

abbrev from_start : Search whole
from_start = record {
  cost = some 0 ∷ some 4 ∷ some 9 ∷ some 9 ∷ [];
  prev_edge = none ∷ some 0 ∷ some 4 ∷ some 6 ∷ [];
  queue = [];
}

astar-ran :
    astar whole (selection whole) network meters level 3 (λ n. false) 0 ≡ Outcome.found from_start
unfolding astar new_search settle move visit_node scan relax select
astar-ran = refl

dijkstra-ran : dijkstra whole (selection whole) network meters 0 to_lift ≡ Outcome.found from_start
unfolding dijkstra dijkstra_seeded plant new_search loop turn visit scan relax select
dijkstra-ran = refl

astar-returns_example :
    ((t : Search whole) × (astar whole (selection whole) network meters level 3 (λ n. false) 0
        ≡ Outcome.found t)
      × ((v : ℕ)
          → (at whole t v ≡ whole.infinite)
            ⊎ ((p : List ℕ) × Walk whole network meters
                  ((record { node = 0; cost = some 0 }) ∷ [])
                  v
                  (at whole t v)
                  p)))
    ⊎ ((astar whole (selection whole) network meters level 3 (λ n. false) 0 ≡ Outcome.cancelled)
        × ((n : ℕ) × (n % cancel_check_interval ≡ 0) × (false ≡ true)))
astar-returns_example =
    astar-returns whole (selection whole) network network-IsGraph meters level 3 (λ n. false) 0
      (omega arith) (omega arith)

astar-dijkstra_example : Le whole (at whole from_start 3) (at whole from_start 3)
astar-dijkstra_example =
    astar-dijkstra whole (selection whole) network network-IsGraph meters level 3 (λ n. false)
      to_lift 0 from_start from_start (omega arith) refl astar-ran dijkstra-ran refl
