-- ===== src/Search/Pop.antt =====
-- What a pop of the queue does to the invariant of Dijkstra's search.
use geoverse_map_server.Base.{
  ℕ, ◌<◌, ◌≡◌, ◌⊎◌, inl, inr, refl, sym, ◌∙◌, ap, true, false, List, [], ◌∷◌, length, get_or, set,
  subst, some, Bool, Bool-cases,
}
use geoverse_map_server.Base.Lists.{
  get_or-set_other, get_or-set_same, Reordered-Memᴰ, Reordered-sym,
}
use geoverse_map_server.Base.Tests.{ℕ-cases, lt→ltb}
use geoverse_map_server.Costs.{Costs, Le, le_refl}
use geoverse_map_server.Graph.{Edge, Graph, IsGraph}
use geoverse_map_server.Search.{Seed, Item, Heap, Search, at, relax, scan}
use geoverse_map_server.Search.Lower.{entry}
use geoverse_map_server.Search.Walks.{Leaves, Chain-seen}
use geoverse_map_server.Search.Invariant.{Inv, IsOpen, IsRelaxed}
use mathlib.Core.List.{Memᴰ}
use mathlib.Core.Logic.{⊎_elim}
use mathlib.Core.List.Memᴰ

module _ (k : Costs) (heap : Heap k) {Point Float : Type 0} (g : Graph Point Float) (wf : IsGraph g)
    (price : Edge Float → k.Cost) (skip : k.Cost → Bool) (seeds : List (Seed k)) where
  -- An edge that improves nothing leaves the state as it is.
  relax-idle :
      (u i : ℕ) (e : Edge Float) (s : Search k)
      → IsRelaxed k heap g price skip seeds s u e
      → relax k heap price skip (λ v c. c) u i e s ≡ s
  unfolding relax
  relax-idle u i e s (inl skipped) = rw skipped refl
  relax-idle u i e s (inr more) = elim (Bool-cases (skip (k.add (at k s u) (price e)))) [
    | inl skipped ↦ rw skipped refl
    | inr on ↦ rw (on, more) refl
  ]

  pub scan-idle :
      (u : ℕ) (rest : List ℕ) (s : Search k)
      → length s.cost ≡ length g.nodes
      → ((i : ℕ) → Memᴰ i rest → Memᴰ i (get_or g.adj u []))
      → ((i : ℕ) (e : Edge Float)
          → Leaves k g price u i e
          → IsRelaxed k heap g price skip seeds s u e)
      → scan k heap price skip (λ v c. c) g.edges u rest s ≡ some s
  unfolding scan
  scan-idle u [] s size part idle = refl
  scan-idle u (i ∷ rest) s size part idle =
      let (e, at_i, leaves, room) = wf.leads u i (part i (Memᴰ.head refl)) in
      let same = relax-idle u i e s (idle i e (part i (Memᴰ.head refl), at_i)) in
      rw (at_i, lt→ltb e.to (length s.cost) (subst (λ n. e.to < n) (sym size) room), same, scan)
        (scan-idle u rest s size (λ j m. part j (Memᴰ.tail m)) idle)

  module _ {seen : List Bool} {front : k.Cost} {u : ℕ} (s : Search k)
      (inv : Inv k heap g price skip seeds seen front u [] s) (it : Item k) (rest : List (Item k))
      (popped : heap.pop s.queue ≡ some (it, rest)) where
    pub taken : (x : Item k) → Memᴰ x s.queue → (x ≡ it) ⊎ Memᴰ x rest
    taken x m = Memᴰ.cases_cons (Reordered-Memᴰ (heap.pop-Reordered it s.queue rest popped) m)

    left : (x : Item k) → Memᴰ x rest → Memᴰ x s.queue
    left x m =
        Reordered-Memᴰ (Reordered-sym (heap.pop-Reordered it s.queue rest popped)) (Memᴰ.tail m)

    pub present : Memᴰ it s.queue
    present =
        Reordered-Memᴰ (Reordered-sym (heap.pop-Reordered it s.queue rest popped)) (Memᴰ.head refl)

    -- The item is a least one.
    pub least : (x : Item k) → Memᴰ x s.queue → Le k it.prio x.prio
    least x m =
        ⊎_elim (λ e. subst (λ y. Le k it.prio y.prio) (sym e) (le_refl k it.prio))
          (heap.pop-least it x s.queue rest inv.heaped popped) (taken x m)

    -- An item that is out of date, or of a node that is settled, is dropped.
    pub dropped :
        ((v i : ℕ) (e : Edge Float)
          → entry k s v ≡ it
          → Leaves k g price v i e
          → IsRelaxed k heap g price skip seeds s v e)
        → Inv k heap g price skip seeds seen front u [] (record s { queue = rest })
    dropped idle = record {
      costs = inv.costs;
      prevs = inv.prevs;
      settled = inv.settled;
      closed = inv.closed;
      traced = inv.traced;
      sown = inv.sown;
      heaped = heap.pop-IsHeap it s.queue rest inv.heaped popped;
      inside = λ x m. inv.inside x (left x m);
      above = λ x m. inv.above x (left x m);
      ahead = λ x m. inv.ahead x (left x m);
      owed = λ v i e l. elim (inv.owed v i e l) [
        | inl r ↦ inl r
        | inr (inl q) ↦ ⊎_elim (λ h. inl (idle v i e h l)) (λ m. inr (inl m)) (taken _ q)
        | inr (inr w) ↦ inr (inr w)
      ];
    }

    -- An item that is up to date settles its node.
    module _ (fresh : k.lt (at k s it.node) it.prio ≡ false)
        (size : length seen ≡ length g.nodes) where
      abbrev pub marked : List Bool
      marked = set seen it.node true

      marked-same : get_or marked it.node false ≡ true
      marked-same =
          get_or-set_same seen it.node true false
            (subst (λ n. it.node < n) (sym size) (inv.inside it present))

      grows : (v : ℕ) → get_or seen v false ≡ true → get_or marked v false ≡ true
      grows v m = elim (ℕ-cases v it.node) [
        | inl same ↦ ap (λ w. get_or marked w false) same ∙ marked-same
        | inr other ↦ get_or-set_other seen it.node v true false other ∙ m
      ]

      pub settles :
          Inv k heap g price skip seeds marked it.prio it.node
            (get_or g.adj it.node [])
            (record s { queue = rest })
      settles = record {
        costs = inv.costs;
        prevs = inv.prevs;
        sown = inv.sown;
        heaped = heap.pop-IsHeap it s.queue rest inv.heaped popped;
        inside = λ x m. inv.inside x (left x m);
        above = λ x m. inv.above x (left x m);
        ahead = λ x m. heap.pop-least it x s.queue rest inv.heaped popped m;
        settled = λ v m. elim (ℕ-cases v it.node) [
          | inl same ↦ subst (λ w. Le k (at k s w) it.prio) (sym same) (inv.above it present)
          | inr other ↦
              k.le_trans _ _ _
                (inv.settled v (sym (get_or-set_other seen it.node v true false other) ∙ m))
                (inv.ahead it present)
        ];
        closed = λ v i e m l. elim (ℕ-cases v it.node) [
          | inl same ↦ inr (same, subst (λ w. Memᴰ i (get_or g.adj w [])) same l.0)
          | inr other ↦
              elim (inv.closed v i e (sym (get_or-set_other seen it.node v true false other) ∙ m)
                l) [ inl r ↦ inl r | inr (_, w) ↦ absurd (Memᴰ.not-nil w) ]
        ];
        owed = λ v i e l. elim (inv.owed v i e l) [
          | inl r ↦ inl r
          | inr (inl q) ↦
              ⊎_elim
                (λ h.
                  let same : v ≡ it.node = ap (λ x. x.node) h in
                  inr (inr (same, subst (λ w. Memᴰ i (get_or g.adj w [])) same l.0)))
                (λ m. inr (inl m)) (taken _ q)
          | inr (inr (_, w)) ↦ absurd (Memᴰ.not-nil w)
        ];
        traced = λ v.
            ⊎_elim inl (λ (p, chain). inr (p, Chain-seen k g price marked grows chain))
              (inv.traced v);
      }

      pub opens :
          IsOpen k heap g price skip seeds marked it.prio it.node (record s { queue = rest })
      opens = record { marked = marked-same; level = fresh }
