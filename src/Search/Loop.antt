-- ===== src/Search/Loop.antt =====
-- The loop of Dijkstra's search ends, and what holds where it returns.
use geoverse_map_server.Base.{
  ℕ, zero, suc, ◌+◌, ◌%◌, ◌<◌, ◌≡◌, ◌⊎◌, inl, inr, refl, sym, ◌∙◌, true, false, ◌&&◌, List, [],
  length, get_or, set, subst, some, Bool, Bool-cases, Option-cases, arith, ◌==◌,
}
use geoverse_map_server.Base.Lists.{length-set, Reordered-length}
use geoverse_map_server.Base.Ints.{ℤ}
use geoverse_map_server.Costs.{Costs, Le, le_refl}
use geoverse_map_server.Graph.{Edge, Graph, IsGraph}
use geoverse_map_server.Search.{
  Seed, Item, Heap, Search, Request, Outcome, Turn, at, beyond, is_target, visit, turn, loop,
  cancel_check_interval,
}
use geoverse_map_server.Search.Work.{remaining, remaining-set}
use geoverse_map_server.Search.Lower.{entry}
use geoverse_map_server.Search.Walks.{Leaves, Walk}
use geoverse_map_server.Search.Invariant.{Inv, IsRelaxed}
use geoverse_map_server.Search.Scan.{scan-Reached}
use geoverse_map_server.Search.Pop.{scan-idle, dropped, present, least, settles, opens}
use mathlib.Core.List.{Memᴰ}
use mathlib.Core.Logic.{⊎_elim}
use mathlib.Core.List.Memᴰ

not-waiting : {A : Type 0} {x : A} {q : List A} → q ≡ [] → Memᴰ x q → ⊥
not-waiting {x} empty m = Memᴰ.not-nil (subst (λ l. Memᴰ x l) empty m)

Turn-cases :
    {k : Costs} (t : Turn k)
    → ((s : Search k) × (t ≡ Turn.go s)) ⊎ ((o : Outcome k) × (t ≡ Turn.stop o))
Turn-cases (Turn.go s) = inl (s, refl)
Turn-cases (Turn.stop o) = inr (o, refl)

module _ (k : Costs) (heap : Heap k) {Point Float : Type 0} (g : Graph Point Float) (wf : IsGraph g)
    (price : Edge Float → k.Cost) (r : Request k) (seeds : List (Seed k)) where
  abbrev pub State : List Bool → k.Cost → ℕ → Search k → Type 0
  State seen front u s =
      Inv k heap g price (beyond k r.cutoff) seeds seen front u [] s
      × (length seen ≡ length g.nodes)

  -- What holds of the state in which the loop returns: no walk within the cutoff to the target, or
  -- without a target to any node, costs less than the result says.
  abbrev pub IsLeast : Search k → Type 0
  IsLeast s =
      (v : ℕ) (d : k.Cost) (p : List ℕ)
      → Walk k g price seeds v d p
      → beyond k r.cutoff d ≡ false
      → (is_target r.target v ≡ true) ⊎ ((w : ℕ) → is_target r.target w ≡ false)
      → Le k (at k s v) d

  -- The item of the target has left the queue of the result.
  abbrev pub Post : Search k → Type 0
  Post s =
      IsLeast s
      × ((q : List (Item k)) × (seen : List Bool) × (front : k.Cost) × (u : ℕ) × State seen front u
            (record s { queue = q }))

  abbrev pub Good : Outcome k → Type 0
  Good (Outcome.found s) = Post s
  Good Outcome.cancelled = (n : ℕ) × (n % cancel_check_interval ≡ 0) × (r.done n ≡ true)
  Good Outcome.panicked = ⊥
  Good Outcome.out_of_fuel = ⊥

  beyond-le : (a b : k.Cost) → Le k a b → beyond k r.cutoff b ≡ false → beyond k r.cutoff a ≡ false
  beyond-le a b h near = elim (Bool-cases (k.lt k.origin r.cutoff)) [
    | inr off ↦ rw off refl
    | inl on ↦
        let inside : k.lt r.cutoff b ≡ false = rw on at near in
        rw on (k.le_trans a b r.cutoff h inside)
  ]

  -- Along a walk the costs are below it, as long as no item that bounds it from below waits.
  walk-bound :
      {seen : List Bool} {front : k.Cost} {u : ℕ} {s : Search k} (B : k.Cost → Type 0)
      → State seen front u s
      → ((v : ℕ) (d : k.Cost) → Memᴰ (entry k s v) s.queue → Le k (at k s v) d → B d)
      → ((d w : k.Cost) → B d → B (k.add d w))
      → {v : ℕ} {d : k.Cost} {p : List ℕ} → Walk k g price seeds v d p
      → beyond k r.cutoff d ≡ false
      → Le k (at k s v) d ⊎ B d
  walk-bound B (inv, size) waits up (Walk.sow x m) near = inl (inv.sown x m)
  walk-bound {s} B (inv, size) waits up (Walk.along {u} {i} {e} {d} w l) near =
      elim (walk-bound B (inv, size) waits up w (beyond-le d _ (k.le_add d (price e)) near)) [
        | inr b ↦ inr (up d (price e) b)
        | inl low ↦
            let step = k.add_le (at k s u) d (price e) low in
            elim (inv.owed u i e l) [
              | inl (inl far) ↦ absurd (cc (far, beyond-le _ _ step near))
              | inl (inr done) ↦ inl (k.le_trans _ _ _ done step)
              | inr (inl q) ↦ inr (up d (price e) (waits u d q low))
              | inr (inr (_, none_left)) ↦ absurd (Memᴰ.not-nil none_left)
            ]
      ]

  -- With an empty queue every cost is least.
  drained :
      {seen : List Bool} {front : k.Cost} {u : ℕ} (s : Search k)
      → State seen front u s
      → s.queue ≡ []
      → IsLeast s
  drained s state empty v d p w near which =
      elim (walk-bound (λ _. ⊥) state (λ _ _ q _. not-waiting empty q) (λ _ _ b. b) w near) [
        | inl low ↦ low
        | inr b ↦ absurd b
      ]

  is_target_unique : (t : ℤ) (u v : ℕ) → is_target t u ≡ true → is_target t v ≡ true → v ≡ u
  is_target_unique (ℤ.pos t) u v h h' = ground arith
  is_target_unique (ℤ.negsuc t) u v h h' = absurd (cc)

  -- Where the target is popped its cost is least.
  arrived :
      {seen : List Bool} {front : k.Cost} {u : ℕ} (s : Search k) (it : Item k)
      (rest : List (Item k))
      → State seen front u s
      → heap.pop s.queue ≡ some (it, rest)
      → is_target r.target it.node ≡ true
      → IsLeast s
  arrived s it rest (inv, size) popped here v d p w near which =
      elim (walk-bound (λ x. Le k it.prio x) (inv, size)
        (λ x c q low.
          k.le_trans _ _ _
            (least k heap g wf price (beyond k r.cutoff) seeds s inv it rest popped _ q) low)
        (λ c y h. k.le_trans _ _ _ h (k.le_add c y)) w near) [
          | inl low ↦ low
          | inr h ↦
              let same : v ≡ it.node =
                ⊎_elim (is_target_unique r.target it.node v here)
                  (λ never. absurd (cc (never it.node, here))) which in
              subst (λ x. Le k (at k s x) d) (sym same)
                (k.le_trans _ _ _
                  (inv.above it
                    (present k heap g wf price (beyond k r.cutoff) seeds s inv it rest popped))
                  h)
        ]

  -- The pops that are left, at most: an item for each edge of a node that is not settled, and those
  -- of the queue.
  abbrev pub work : List Bool → Search k → ℕ
  work seen s = length s.queue + remaining g.adj seen

  abbrev Next : ℕ → Turn k → Type 0
  Next n (Turn.stop o) = Good o
  Next n (Turn.go t) =
      (seen : List Bool) × (front : k.Cost) × (u : ℕ) × State seen front u t × (work seen t < n)

  module _ {seen : List Bool} {front : k.Cost} {u : ℕ} (s : Search k) (state : State seen front u s)
      (it : Item k) (rest : List (Item k)) (popped : heap.pop s.queue ≡ some (it, rest)) where
    abbrev popped_off : Search k
    popped_off = record s { queue = rest }

    shorter : suc (length rest) ≡ length s.queue
    shorter = sym (Reordered-length (heap.pop-Reordered it s.queue rest popped))

    drop-Next :
        ((v i : ℕ) (e : Edge Float)
          → entry k s v ≡ it
          → Leaves k g price v i e
          → IsRelaxed k heap g price (beyond k r.cutoff) seeds s v e)
        → Next (work seen s) (Turn.go popped_off)
    drop-Next idle = (
      seen,
      front,
      u,
      (dropped k heap g wf price (beyond k r.cutoff) seeds s state.0 it rest popped idle, state.1),
      omega (arith, shorter),
    )

    settled-IsRelaxed :
        (v i : ℕ) (e : Edge Float)
        → get_or seen v false ≡ true
        → Leaves k g price v i e
        → IsRelaxed k heap g price (beyond k r.cutoff) seeds s v e
    settled-IsRelaxed v i e m l = elim (state.0.closed v i e m l) [
      | inl done ↦ done
      | inr (_, w) ↦ absurd (Memᴰ.not-nil w)
    ]

    settle-Next :
        k.lt (at k s it.node) it.prio ≡ false
        → is_target r.target it.node ≡ false
        → get_or seen it.node false ≡ false
        → Next (work seen s) (visit k heap g price r it popped_off)
    unfolding visit
    settle-Next fresh on new =
        let inv = state.0 in
        let size = state.1 in
        let skip = beyond k r.cutoff in
        let node_inside =
          inv.inside it (present k heap g wf price skip seeds s inv it rest popped) in
        let (t, ends, (inv', here, grown)) =
          scan-Reached k heap g wf price skip seeds (get_or g.adj it.node []) popped_off (λ i m. m)
            (settles k heap g wf price skip seeds s inv it rest popped fresh size)
            (opens k heap g wf price skip seeds s inv it rest popped fresh size) in
        let freed =
          remaining-set g.adj seen it.node (subst (λ n. it.node < n) (sym size) node_inside) new in
        rw (fresh, on, ends)
          (
            set seen it.node true,
            it.prio,
            it.node,
            (inv', length-set seen it.node true ∙ size),
            omega (arith, grown, freed, shorter),
          )

    again-Next :
        k.lt (at k s it.node) it.prio ≡ false
        → is_target r.target it.node ≡ false
        → get_or seen it.node false ≡ true
        → Next (work seen s) (visit k heap g price r it popped_off)
    unfolding visit
    again-Next fresh on again =
        let same =
          scan-idle k heap g wf price (beyond k r.cutoff) seeds it.node (get_or g.adj it.node [])
            popped_off state.0.costs (λ i m. m) (λ i e l. settled-IsRelaxed it.node i e again l) in
        rw (fresh, on, same)
          (drop-Next (λ v i e h l.
            settled-IsRelaxed v i e (subst (λ y. get_or seen y.node false ≡ true) (sym h) again) l))

    visit-Next : Next (work seen s) (visit k heap g price r it popped_off)
    unfolding visit
    visit-Next = elim (Bool-cases (k.lt (at k s it.node) it.prio)) [
      | inl stale ↦ rw stale (
          drop-Next (λ v i e h l. absurd (
            cc (
              subst (λ y. k.lt (at k s y.node) y.prio ≡ true) (sym h) stale,
              le_refl k (at k s v),
            ))))
      | inr fresh ↦ elim (Bool-cases (is_target r.target it.node)) [
        | inl here ↦
            rw (fresh, here) (arrived s it rest state popped here, (s.queue, seen, front, u, state))
        | inr on ↦ elim (Bool-cases (get_or seen it.node false)) [
          | inl again ↦ again-Next fresh on again
          | inr new ↦ settle-Next fresh on new
        ]
      ]
    ]

  turn-Next :
      {seen : List Bool} {front : k.Cost} {u : ℕ} (pops : ℕ) (s : Search k)
      → State seen front u s
      → Next (work seen s) (turn k heap g price r pops s)
  unfolding turn
  turn-Next {seen} {front} {u} pops s state = elim (Option-cases (heap.pop s.queue)) [
    | inl end ↦
        rw (end, Next, turn)
          (drained s state (heap.pop-none s.queue end), (s.queue, seen, front, u, state))
    | inr ((it, rest), popped) ↦
        elim (Bool-cases (pops % cancel_check_interval == 0 && r.done pops)) [
          | inl off ↦ rw (popped, off, Next, turn) (pops, ground arith, ground arith)
          | inr on ↦ rw (popped, on, Next, turn) (visit-Next s state it rest popped)
        ]
  ]

  -- With a turn more than the pops that are left the loop returns a result or the context is done.
  pub loop-Good :
      (fuel pops : ℕ) {seen : List Bool} {front : k.Cost} {u : ℕ} (s : Search k)
      → State seen front u s
      → work seen s < fuel
      → Good (loop k heap g price r fuel pops s)
  unfolding loop
  loop-Good zero pops s state room = absurd (omega arith)
  loop-Good (suc fuel) pops {seen} s state room =
      let next = turn-Next pops s state in
      elim (Turn-cases (turn k heap g price r pops s)) [
        | inl (t, e) ↦
            let (seen', front', u', state', less) = subst (Next (work seen s)) e next in
            rw (e, loop) (loop-Good fuel (suc pops) t state' (omega (arith, less)))
        | inr (o, e) ↦ rw (e, loop) (subst (Next (work seen s)) e next)
      ]
