-- ===== src/Search/Plant.antt =====
-- The seeds of a search: the state that the loop over them leaves.
use geoverse_map_server.Base.{
  ℕ, ◌+◌, ◌<◌, ◌≤◌, ◌≡◌, ◌⊎◌, inl, inr, refl, sym, ◌∙◌, true, List, [], ◌∷◌, map, length, subst,
  none, some, Bool-cases, arith,
}
use geoverse_map_server.Base.Lists.{length-set, get_or-map, length-map, Reordered-length}
use geoverse_map_server.Base.Tests.{ℕ-cases, lt→ltb}
use geoverse_map_server.Costs.{Costs, Le, le_refl}
use geoverse_map_server.Search.{Seed, Item, Heap, Search, at, new_search, plant}
use geoverse_map_server.Search.Lower.{
  entry, lower, at-same, at-other, at-le, kept, entry-kept, above_lower, inside_lower,
}
use mathlib.Core.List.{Memᴰ}
use mathlib.Core.Logic.{⊎_elim}
use mathlib.Core.List.Memᴰ

module _ (k : Costs) (heap : Heap k) {Node : Type 0} (nodes : List Node)
    (seeds : List (Seed k)) where
  -- Between two seeds: those in `rest` wait.
  pub record Planted (rest : List (Seed k)) (s : Search k) : Type 0 where
    pub costs : length s.cost ≡ length nodes
    pub prevs : s.prev_edge ≡ map (λ _. none) nodes
    pub heaped : heap.IsHeap s.queue
    pub short : length s.queue + length rest ≤ length seeds
    pub inside : (x : Item k) → Memᴰ x s.queue → x.node < length nodes
    pub above : (x : Item k) → Memᴰ x s.queue → Le k (at k s x.node) x.prio
    pub sown : (x : Seed k) → Memᴰ x seeds → Memᴰ x rest ⊎ Le k (at k s x.node) x.cost
    pub waiting :
        (v : ℕ)
        → (at k s v ≡ k.infinite)
          ⊎ (Memᴰ (entry k s v) s.queue × Memᴰ (record { node = v; cost = at k s v }) seeds)

  -- A seed that costs no less than its node does is skipped.
  passed :
      (x : Seed k) (rest : List (Seed k)) (s : Search k)
      → Planted (x ∷ rest) s
      → Le k (at k s x.node) x.cost
      → Planted rest s
  passed x rest s p low = record {
    costs = p.costs;
    prevs = p.prevs;
    heaped = p.heaped;
    inside = p.inside;
    above = p.above;
    waiting = p.waiting;
    short = omega (arith, p.short);
    sown = λ y m. elim (p.sown y m) [
      | inr done ↦ inr done
      | inl w ↦
          ⊎_elim (λ same. inr (subst (λ z. Le k (at k s z.node) z.cost) (sym same) low)) inl
            (Memᴰ.cases_cons w)
    ];
  }

  module _ (x : Seed k) (rest : List (Seed k)) (s : Search k) (p : Planted (x ∷ rest) s)
      (mem : Memᴰ x seeds) (fits : x.node < length s.cost)
      (less : k.lt x.cost (at k s x.node) ≡ true) where
    abbrev t : Search k
    t = lower k heap s s.prev_edge x.node x.cost

    waiting_after :
        (v : ℕ)
        → (at k t v ≡ k.infinite)
          ⊎ (Memᴰ (entry k t v) t.queue × Memᴰ (record { node = v; cost = at k t v }) seeds)
    waiting_after v = elim (ℕ-cases v x.node) [
      | inl same ↦
          subst
            (λ w.
              (at k t w ≡ k.infinite)
              ⊎ (Memᴰ (entry k t w) t.queue × Memᴰ (record { node = w; cost = at k t w }) seeds))
            (sym same)
            (inr (
              kept k heap s s.prev_edge x.node x.cost fits less (entry k t x.node) (inl refl),
              subst (λ c. Memᴰ (record { node = x.node; cost = c }) seeds)
                  (sym (at-same k heap s s.prev_edge x.node x.cost fits less)) mem,
            ))
      | inr other ↦
          let far = at-other k heap s s.prev_edge x.node x.cost fits less v other in
          elim (p.waiting v) [
            | inl end ↦ inl (far ∙ end)
            | inr (q, m) ↦ inr (
              entry-kept k heap s s.prev_edge x.node x.cost fits less v other q,
              subst (λ c. Memᴰ (record { node = v; cost = c }) seeds) (sym far) m,
            )
          ]
    ]

    planted : Planted rest t
    planted = record {
      costs = length-set s.cost x.node x.cost ∙ p.costs;
      prevs = p.prevs;
      heaped = heap.push-IsHeap _ s.queue p.heaped;
      short = omega (
        arith,
        p.short,
        Reordered-length (heap.push-Reordered (record { node = x.node; prio = x.cost }) s.queue),
      );
      inside =
          inside_lower k heap s s.prev_edge x.node x.cost fits less
            (subst (λ n. x.node < n) p.costs fits) p.inside;
      above = above_lower k heap s s.prev_edge x.node x.cost fits less p.above;
      waiting = waiting_after;
      sown = λ y m. elim (p.sown y m) [
        | inr done ↦
            inr (k.le_trans _ _ _ (at-le k heap s s.prev_edge x.node x.cost fits less y.node) done)
        | inl w ↦
            ⊎_elim
              (λ same. inr (
                subst (λ z. Le k (at k t z.node) z.cost) (sym same)
                  (subst (λ c. Le k c x.cost)
                    (sym (at-same k heap s s.prev_edge x.node x.cost fits less))
                    (le_refl k x.cost))))
              inl (Memᴰ.cases_cons w)
      ];
    }

  plant-Planted :
      (rest : List (Seed k)) (s : Search k)
      → ((x : Seed k) → Memᴰ x rest → Memᴰ x seeds × (x.node < length nodes))
      → Planted rest s
      → (t : Search k) × (plant k heap rest s ≡ some t) × Planted [] t
  unfolding plant
  plant-Planted [] s part p = (s, refl, p)
  plant-Planted (x ∷ rest) s part p =
      let (mem, room) = part x (Memᴰ.head refl) in
      let fits : x.node < length s.cost = subst (λ n. x.node < n) (sym p.costs) room in
      let tail = λ (y : Seed k) (m : Memᴰ y rest). part y (Memᴰ.tail m) in
      elim (Bool-cases (k.lt x.cost (at k s x.node))) [
        | inl less ↦
            rw (lt→ltb x.node (length s.cost) fits, less)
              (plant-Planted rest (lower k heap s s.prev_edge x.node x.cost) tail
                (planted x rest s p mem fits less))
        | inr more ↦
            rw (lt→ltb x.node (length s.cost) fits, more)
              (plant-Planted rest s tail (passed x rest s p more))
      ]

  pub plant_all :
      ((x : Seed k) → Memᴰ x seeds → x.node < length nodes)
      → (t : Search k) × (plant k heap seeds (new_search k nodes) ≡ some t) × Planted [] t
  unfolding new_search
  plant_all inside =
      plant-Planted seeds (new_search k nodes) (λ x m. (m, inside x m))
        (record {
          costs = length-map (λ _. k.infinite) nodes;
          prevs = refl;
          heaped = heap.nil-IsHeap;
          short = omega arith;
          inside = λ x m. absurd (Memᴰ.not-nil m);
          above = λ x m. absurd (Memᴰ.not-nil m);
          sown = λ x m. inl m;
          waiting = λ v. inl (get_or-map nodes k.infinite v);
        })
