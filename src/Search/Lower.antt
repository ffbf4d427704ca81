-- ===== src/Search/Lower.antt =====
-- A lower cost of a node, with its item in the queue.
use geoverse_map_server.Base.{
  ℕ, ◌<◌, ◌≡◌, ◌≢◌, ◌⊎◌, inl, inr, sym, ◌∙◌, ap, true, List, length, set, Option, subst,
}
use geoverse_map_server.Base.Lists.{
  get_or-set_other, get_or-set_same, Reordered-Memᴰ, Reordered-sym,
}
use geoverse_map_server.Base.Tests.{ℕ-cases}
use geoverse_map_server.Costs.{Costs, Le, le_refl}
use geoverse_map_server.Search.{Item, Heap, Search, at}
use mathlib.Core.List.{Memᴰ}
use mathlib.Core.List.Memᴰ
use mathlib.Core.Logic.{⊎_elim}

-- The item of a node at its cost.
abbrev pub entry : (k : Costs) → Search k → ℕ → Item k
entry k s v = record { node = v; prio = at k s v }

abbrev pub lower : (k : Costs) → Heap k → Search k → List (Option ℕ) → ℕ → k.Cost → Search k
lower k heap s prev v c = record {
  cost = set s.cost v c;
  prev_edge = prev;
  queue = heap.push (record { node = v; prio = c }) s.queue;
}

module _ (k : Costs) (heap : Heap k) (s : Search k) (prev : List (Option ℕ)) (v : ℕ) (c : k.Cost)
    (room : v < length s.cost) (less : k.lt c (at k s v) ≡ true) where
  abbrev t : Search k
  t = lower k heap s prev v c

  pub at-same : at k t v ≡ c
  at-same = get_or-set_same s.cost v c k.infinite room

  pub at-other : (w : ℕ) → w ≢ v → at k t w ≡ at k s w
  at-other w other = get_or-set_other s.cost v w c k.infinite other

  pub at-le : (w : ℕ) → Le k (at k t w) (at k s w)
  at-le w = elim (ℕ-cases w v) [
    | inl same ↦
        subst (λ x. Le k (at k t x) (at k s x)) (sym same)
          (subst (λ x. Le k x (at k s v)) (sym at-same) (k.asym c (at k s v) less))
    | inr other ↦ subst (λ x. Le k x (at k s w)) (sym (at-other w other)) (le_refl k (at k s w))
  ]

  entry-same : record { node = v; prio = c } ≡ entry k t v
  entry-same = ap (λ y. record { node = v; prio = y }) (sym at-same)

  -- The queue is the old one and the new item.
  pub queued : (x : Item k) → Memᴰ x t.queue → (x ≡ entry k t v) ⊎ Memᴰ x s.queue
  queued x m =
      ⊎_elim (λ h. inl (h ∙ entry-same)) inr
        (Memᴰ.cases_cons (Reordered-Memᴰ (heap.push-Reordered _ s.queue) m))

  pub kept : (x : Item k) → (x ≡ entry k t v) ⊎ Memᴰ x s.queue → Memᴰ x t.queue
  kept x m =
      Reordered-Memᴰ (Reordered-sym (heap.push-Reordered _ s.queue))
        (⊎_elim (λ h. Memᴰ.head (h ∙ sym entry-same)) (λ h. Memᴰ.tail h) m)

  -- An item that waits at its node's cost still does.
  pub entry-kept : (w : ℕ) → w ≢ v → Memᴰ (entry k s w) s.queue → Memᴰ (entry k t w) t.queue
  entry-kept w other q =
      kept (entry k t w)
        (inr (subst (λ y. Memᴰ (record { node = w; prio = y }) s.queue) (sym (at-other w other)) q))

  pub above_lower :
      ((x : Item k) → Memᴰ x s.queue → Le k (at k s x.node) x.prio)
      → (x : Item k) → Memᴰ x t.queue
      → Le k (at k t x.node) x.prio
  above_lower above x m =
      ⊎_elim (λ h. subst (λ y. Le k (at k t y.node) y.prio) (sym h) (le_refl k (at k t v)))
        (λ h. k.le_trans _ _ _ (at-le x.node) (above x h)) (queued x m)

  pub inside_lower :
      {n : ℕ}
      → v < n
      → ((x : Item k) → Memᴰ x s.queue → x.node < n)
      → (x : Item k) → Memᴰ x t.queue
      → x.node < n
  inside_lower {n} fits inside x m =
      ⊎_elim (λ h. subst (λ y. y.node < n) (sym h) fits) (inside x) (queued x m)
