-- ===== src/Search/Walks.antt =====
-- Walks from the seeds of a search, and the walks that the incoming edges of its result trace.
use geoverse_map_server.Base.{
  ℕ, ◌≡◌, ◌≢◌, ◌∙◌, ap, true, false, List, [], ◌∷◌, get_or, get_elem?, set, Option, none, some,
  Bool,
}
use geoverse_map_server.Base.Lists.{get_or-set_other}
use geoverse_map_server.Costs.{Costs}
use geoverse_map_server.Graph.{Edge, Graph}
use geoverse_map_server.Search.{Seed}
use mathlib.Core.List.{Memᴰ}

module _ (k : Costs) {Point Float : Type 0} (g : Graph Point Float)
    (price : Edge Float → k.Cost) where
  -- The edge numbered `i` is in the list of the node `u`.
  abbrev pub Leaves : ℕ → ℕ → Edge Float → Type 0
  Leaves u i e = Memᴰ i (get_or g.adj u []) × (get_elem? g.edges i ≡ some e)

  -- A walk from a seed to a node, its cost, summed from the seed on, and its edges, the last first.
  pub data Walk (seeds : List (Seed k)) : ℕ → k.Cost → List ℕ → Type 0 where
    sow : (x : Seed k) → Memᴰ x seeds → Walk seeds x.node x.cost []
    along :
        {u i : ℕ} {e : Edge Float} {d : k.Cost} {p : List ℕ}
        → Walk seeds u d p
        → Leaves u i e
        → Walk seeds e.to (k.add d (price e)) (i ∷ p)

  -- A walk through marked nodes whose edges are those that `prev` keeps for the nodes they lead to.
  pub data Chain (seeds : List (Seed k)) (prev : List (Option ℕ)) (seen : List Bool)
      : ℕ → k.Cost → List ℕ → Type 0 where
    root :
        (x : Seed k)
        → Memᴰ x seeds
        → get_or prev x.node none ≡ none
        → Chain seeds prev seen x.node x.cost []
    link :
        {u i : ℕ} {e : Edge Float} {d : k.Cost} {p : List ℕ}
        → Chain seeds prev seen u d p
        → get_or seen u false ≡ true
        → Leaves u i e
        → get_or prev e.to none ≡ some i
        → Chain seeds prev seen e.to (k.add d (price e)) (i ∷ p)

  module _ {seeds : List (Seed k)} {prev : List (Option ℕ)} {seen : List Bool} where
    pub Chain-Walk :
        {v : ℕ} {d : k.Cost} {p : List ℕ} → Chain seeds prev seen v d p → Walk seeds v d p
    Chain-Walk (Chain.root x m e) = Walk.sow x m
    Chain-Walk (Chain.link c marked leaves e) = Walk.along (Chain-Walk c) leaves

    -- A new incoming edge of an unmarked node changes no walk to the others.
    pub Chain-set :
        {v : ℕ} {d : k.Cost} {p : List ℕ} (x i : ℕ)
        → get_or seen x false ≡ false
        → v ≢ x
        → Chain seeds prev seen v d p
        → Chain seeds (set prev x (some i)) seen v d p
    Chain-set x i fresh far (Chain.root y m e) =
        Chain.root y m (get_or-set_other prev x y.node (some i) none far ∙ e)
    Chain-set x i fresh far (Chain.link {u} {i = j} {e} c marked leaves kept) =
        Chain.link
          (Chain-set x i fresh (λ same. cc (ap (λ w. get_or seen w false) same, marked, fresh)) c)
          marked leaves (get_or-set_other prev x e.to (some i) none far ∙ kept)

    pub Chain-seen :
        {v : ℕ} {d : k.Cost} {p : List ℕ} (later : List Bool)
        → ((u : ℕ) → get_or seen u false ≡ true → get_or later u false ≡ true)
        → Chain seeds prev seen v d p
        → Chain seeds prev later v d p
    Chain-seen later grows (Chain.root y m e) = Chain.root y m e
    Chain-seen later grows (Chain.link {u} c marked leaves kept) =
        Chain.link (Chain-seen later grows c) (grows u marked) leaves kept
