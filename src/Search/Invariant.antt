-- ===== src/Search/Invariant.antt =====
-- What holds between two steps of Dijkstra's search, and that the loop over the edges of a node
-- keeps it.
use geoverse_map_server.Base.{
  ℕ, ◌<◌, ◌≡◌, ◌≢◌, ◌⊎◌, inl, inr, sym, ◌∙◌, ap, true, false, List, ◌∷◌, length, get_or, subst, set,
  none, some, Bool, Bool-cases,
}
use geoverse_map_server.Base.Lists.{length-set, get_or-set_same}
use geoverse_map_server.Base.Tests.{ℕ-cases}
use geoverse_map_server.Costs.{Costs, Le, le_refl}
use geoverse_map_server.Graph.{Edge, Graph}
use geoverse_map_server.Search.{Seed, Item, Heap, Search, at}
use geoverse_map_server.Search.Lower.{
  entry, lower, at-same, at-other, at-le, queued, kept, entry-kept, above_lower, inside_lower,
}
use geoverse_map_server.Search.Walks.{Leaves, Chain, Chain-set}
use mathlib.Core.List.{Memᴰ}
use mathlib.Core.Logic.{⊎_elim}
use mathlib.Core.List.Memᴰ

module _ (k : Costs) (heap : Heap k) {Point Float : Type 0} (g : Graph Point Float)
    (price : Edge Float → k.Cost) (skip : k.Cost → Bool) (seeds : List (Seed k)) where
  -- The edge of `v` improves nothing.
  abbrev pub IsRelaxed : Search k → ℕ → Edge Float → Type 0
  IsRelaxed s v e =
      (skip (k.add (at k s v) (price e)) ≡ true) ⊎ Le k (at k s e.to) (k.add (at k s v) (price e))

  -- The nodes of `seen` are settled, the costs up to `front` are final, and of the edges of the
  -- settled nodes only those of `u` in `rest` wait.
  pub record Inv (seen : List Bool) (front : k.Cost) (u : ℕ) (rest : List ℕ) (s : Search k)
      : Type 0 where
    pub costs : length s.cost ≡ length g.nodes
    pub prevs : length s.prev_edge ≡ length g.nodes
    pub heaped : heap.IsHeap s.queue
    pub inside : (x : Item k) → Memᴰ x s.queue → x.node < length g.nodes
    pub above : (x : Item k) → Memᴰ x s.queue → Le k (at k s x.node) x.prio
    pub ahead : (x : Item k) → Memᴰ x s.queue → Le k front x.prio
    pub sown : (x : Seed k) → Memᴰ x seeds → Le k (at k s x.node) x.cost
    pub settled : (v : ℕ) → get_or seen v false ≡ true → Le k (at k s v) front
    pub closed :
        (v i : ℕ) (e : Edge Float)
        → get_or seen v false ≡ true
        → Leaves k g price v i e
        → IsRelaxed s v e ⊎ ((v ≡ u) × Memᴰ i rest)
    pub owed :
        (v i : ℕ) (e : Edge Float)
        → Leaves k g price v i e
        → IsRelaxed s v e ⊎ (Memᴰ (entry k s v) s.queue ⊎ ((v ≡ u) × Memᴰ i rest))
    pub traced :
        (v : ℕ)
        → (at k s v ≡ k.infinite)
          ⊎ ((p : List ℕ) × Chain k g price seeds s.prev_edge seen v (at k s v) p)

  -- `u` is settled and its cost is the front.
  pub record IsOpen (seen : List Bool) (front : k.Cost) (u : ℕ) (s : Search k) : Type 0 where
    pub marked : get_or seen u false ≡ true
    pub level : Le k front (at k s u)

  module _ {seen : List Bool} {front : k.Cost} {u : ℕ} (i : ℕ) (rest : List ℕ) (e : Edge Float)
      (s : Search k) (inv : Inv seen front u (i ∷ rest) s) (open_at : IsOpen seen front u s)
      (leaves : Leaves k g price u i e) (room : e.to < length g.nodes) where
    -- The edge that has been looked at waits no more.
    due :
        (t : Search k) (v j : ℕ) (d : Edge Float)
        → IsRelaxed t u e
        → Leaves k g price v j d
        → v ≡ u
        → Memᴰ j (i ∷ rest)
        → IsRelaxed t v d ⊎ ((v ≡ u) × Memᴰ j rest)
    due t v j d done l same w = elim (Memᴰ.cases_cons w) [
      | inl number ↦
          let edge : e ≡ d = cc (leaves.1, l.1, number) in
          inl (subst (λ x. IsRelaxed t v x) edge (subst (λ x. IsRelaxed t x e) (sym same) done))
      | inr m ↦ inr (same, m)
    ]

    -- An edge that improves nothing is done with.
    pub idle : IsRelaxed s u e → Inv seen front u rest s
    idle done = record {
      costs = inv.costs;
      prevs = inv.prevs;
      heaped = inv.heaped;
      inside = inv.inside;
      above = inv.above;
      sown = inv.sown;
      ahead = inv.ahead;
      settled = inv.settled;
      traced = inv.traced;
      closed = λ v j d m l. elim (inv.closed v j d m l) [
        | inl r ↦ inl r
        | inr (same, w) ↦ due s v j d done l same w
      ];
      owed = λ v j d l. elim (inv.owed v j d l) [
        | inl r ↦ inl r
        | inr (inl q) ↦ inr (inl q)
        | inr (inr (same, w)) ↦ ⊎_elim inl (λ x. inr (inr x)) (due s v j d done l same w)
      ];
    }

    -- A lower cost of a node that is not settled.
    module _ (c : k.Cost) (sum : c ≡ k.add (at k s u) (price e))
        (less : k.lt c (at k s e.to) ≡ true) where
      fits : e.to < length s.cost
      fits = subst (λ n. e.to < n) (sym inv.costs) room

      abbrev after : Search k
      after = lower k heap s (set s.prev_edge e.to (some i)) e.to c

      far : Le k front c
      far =
          k.le_trans front (at k s u) c open_at.level
            (subst (λ x. Le k (at k s u) x) (sym sum) (k.le_add (at k s u) (price e)))

      fresh : get_or seen e.to false ≡ false
      fresh = elim (Bool-cases (get_or seen e.to false)) [
        | inl m ↦ absurd (cc (less, k.le_trans (at k s e.to) front c (inv.settled e.to m) far))
        | inr f ↦ f
      ]

      apart : u ≢ e.to
      apart same = cc (ap (λ w. get_or seen w false) same, open_at.marked, fresh)

      same_cost : at k after e.to ≡ c
      same_cost = at-same k heap s (set s.prev_edge e.to (some i)) e.to c fits less

      other_cost : (v : ℕ) → v ≢ e.to → at k after v ≡ at k s v
      other_cost = at-other k heap s (set s.prev_edge e.to (some i)) e.to c fits less

      lower_cost : (v : ℕ) → Le k (at k after v) (at k s v)
      lower_cost = at-le k heap s (set s.prev_edge e.to (some i)) e.to c fits less

      relaxed : (v : ℕ) (d : Edge Float) → v ≢ e.to → IsRelaxed s v d → IsRelaxed after v d
      relaxed v d other r =
          subst
            (λ x. (skip (k.add x (price d)) ≡ true) ⊎ Le k (at k after d.to) (k.add x (price d)))
            (sym (other_cost v other))
            (⊎_elim inl (λ h. inr (k.le_trans _ _ _ (lower_cost d.to) h)) r)

      done : IsRelaxed after u e
      done = inr (
          subst (λ x. Le k (at k after e.to) (k.add x (price e))) (sym (other_cost u apart))
            (subst (λ x. Le k (at k after e.to) x) sum
              (subst (λ x. Le k x c) (sym same_cost) (le_refl k c))))

      traced_after :
          (v : ℕ)
          → (at k after v ≡ k.infinite)
            ⊎ ((p : List ℕ) × Chain k g price seeds after.prev_edge seen v (at k after v) p)
      traced_after v = elim (ℕ-cases v e.to) [
        | inl same ↦ inr (elim (inv.traced u) [
          | inl end ↦ absurd (
              cc (
                less,
                k.le_trans (at k s e.to) k.infinite c (k.le_infinite (at k s e.to)) (
                    subst (λ x. Le k k.infinite x) (sym sum)
                      (subst (λ y. Le k y (k.add (at k s u) (price e))) end (k.le_add _ _))),
              ))
          | inr (p, chain) ↦ (
            i ∷ p,
            subst (λ w. Chain k g price seeds after.prev_edge seen w (at k after w) (i ∷ p))
                (sym same)
                (subst (λ x. Chain k g price seeds after.prev_edge seen e.to x (i ∷ p))
                  (sym (same_cost ∙ sum))
                  (Chain.link (Chain-set k g price e.to i fresh apart chain) open_at.marked leaves (
                    get_or-set_same s.prev_edge e.to (some i) none
                      (subst (λ n. e.to < n) (sym inv.prevs) room)))),
          )
        ])
        | inr other ↦
            subst
              (λ x.
                (x ≡ k.infinite)
                ⊎ ((p : List ℕ) × Chain k g price seeds after.prev_edge seen v x p))
              (sym (other_cost v other))
              (⊎_elim inl (λ (p, chain). inr (p, Chain-set k g price e.to i fresh other chain))
                (inv.traced v))
      ]

      pub improved : Inv seen front u rest after
      improved = record {
        costs = length-set s.cost e.to c ∙ inv.costs;
        prevs = length-set s.prev_edge e.to (some i) ∙ inv.prevs;
        heaped = heap.push-IsHeap _ s.queue inv.heaped;
        inside =
            inside_lower k heap s (set s.prev_edge e.to (some i)) e.to c fits less room inv.inside;
        above = above_lower k heap s (set s.prev_edge e.to (some i)) e.to c fits less inv.above;
        ahead = λ x m.
            ⊎_elim
              (λ h.
                subst (λ y. Le k front y.prio) (sym h)
                  (subst (λ y. Le k front y) (sym same_cost) far))
              (inv.ahead x) (queued k heap s (set s.prev_edge e.to (some i)) e.to c fits less x m);
        sown = λ x m. k.le_trans _ _ _ (lower_cost x.node) (inv.sown x m);
        settled = λ v m. k.le_trans _ _ _ (lower_cost v) (inv.settled v m);
        closed = λ v j d m l.
            let other : v ≢ e.to = λ same. cc (ap (λ w. get_or seen w false) same, m, fresh) in
            elim (inv.closed v j d m l) [
              | inl r ↦ inl (relaxed v d other r)
              | inr (same, w) ↦ due after v j d done l same w
            ];
        owed = λ v j d l. elim (ℕ-cases v e.to) [
          | inl same ↦ inr (
              inl (
                kept k heap s (set s.prev_edge e.to (some i)) e.to c fits less (entry k after v)
                  (inl (ap (entry k after) same))))
          | inr other ↦ elim (inv.owed v j d l) [
            | inl r ↦ inl (relaxed v d other r)
            | inr (inl q) ↦ inr (
                inl
                  (entry-kept k heap s (set s.prev_edge e.to (some i)) e.to c fits less v other q))
            | inr (inr (same, w)) ↦ ⊎_elim inl (λ x. inr (inr x)) (due after v j d done l same w)
          ]
        ];
        traced = traced_after;
      }

      pub still_open : IsOpen seen front u after
      still_open = record {
        marked = open_at.marked;
        level = subst (λ x. Le k front x) (sym (other_cost u apart)) open_at.level;
      }
