-- ===== src/Graph/Nodes.antt =====
-- The nodes of the builder: each stands for a rounded point on a level.
use geoverse_map_server.Base.{
  ℕ, zero, suc, ◌<◌, ◌≤◌, ◌≡◌, ◌≢◌, ◌↔◌, ◌⊎◌, inl, inr, refl, sym, ◌∙◌, ap, List, [], ◌∷◌, ◌++◌,
  length, get_elem?, none, some, true, Bool-cases, Option-cases, arith,
}
use geoverse_map_server.Base.Ints.{ℤ, pos, negsuc}
use geoverse_map_server.Base.Lists.{length-append}
use geoverse_map_server.Base.Tests.{==_iff}
use geoverse_map_server.Base.Text.{Text}
use geoverse_map_server.Graph.{Edge, Node, NodeKey, Geometry, Value, same_int, same_key, find_key}
use geoverse_map_server.Graph.Build.{Builder, node_key, node}
use mathlib.Core.Logic.{⊎_elim}

module _ {A : Type 0} where
  pub get_elem?-snoc :
      (xs : List A) (x y : A) (i : ℕ)
      → get_elem? (xs ++ x ∷ []) i ≡ some y
      → (get_elem? xs i ≡ some y) ⊎ (x ≡ y)
  get_elem?-snoc [] x y zero h = inr (cc h)
  get_elem?-snoc [] x y (suc i) h = absurd (cc h)
  get_elem?-snoc (z ∷ xs) x y zero h = inl h
  get_elem?-snoc (z ∷ xs) x y (suc i) h = get_elem?-snoc xs x y i h

  -- An entry of a list with one more entry is an old one, or the new one at the end.
  get_elem?-last :
      (xs : List A) (x y : A) (i : ℕ)
      → get_elem? (xs ++ x ∷ []) i ≡ some y
      → (get_elem? xs i ≡ some y) ⊎ ((x ≡ y) × (i ≡ length xs))
  get_elem?-last [] x y zero h = inr (cc h, refl)
  get_elem?-last [] x y (suc i) h = absurd (cc h)
  get_elem?-last (z ∷ xs) x y zero h = inl h
  get_elem?-last (z ∷ xs) x y (suc i) h = elim (get_elem?-last xs x y i h) [
    | inl old ↦ inl old
    | inr (same, at) ↦ inr (same, ap suc at)
  ]

same_int_iff : (a b : ℤ) → (same_int a b ≡ true) ↔ (a ≡ b)
same_int_iff (pos a) (pos b) = (λ h. ap pos ((==_iff a b).0 h), λ h. (==_iff a b).1 (cc h))
same_int_iff (negsuc a) (negsuc b) = (λ h. ap negsuc ((==_iff a b).0 h), λ h. (==_iff a b).1 (cc h))
same_int_iff (pos a) (negsuc b) = (λ h. absurd (cc h), λ h. absurd (cc h))
same_int_iff (negsuc a) (pos b) = (λ h. absurd (cc h), λ h. absurd (cc h))

pub same_key_iff : (j k : NodeKey) → (same_key j k ≡ true) ↔ (j ≡ k)
same_key_iff j k =
    ground (arith, same_int_iff j.x k.x, same_int_iff j.y k.y, same_int_iff j.level k.level)

module _ (m : Geometry) (sprint : Value m.Float → Text) where
  -- Between two steps of `Build`.
  pub record IsBuilder (b : Builder m sprint) : Type 0 where
    pub ends :
        (i : ℕ) (e : Edge m.Float)
        → get_elem? b.g.edges i ≡ some e
        → (e.from < length b.g.nodes) × (e.to < length b.g.nodes) × (e.from ≢ e.to)
    pub known : (k : NodeKey) (i : ℕ) → find_key k b.index ≡ some i → i < length b.g.nodes
    pub keyed :
        (j k : NodeKey) (i : ℕ) → find_key j b.index ≡ some i → find_key k b.index ≡ some i → j ≡ k
    pub indexed :
        (i : ℕ) (a : Node m.Point)
        → get_elem? b.g.nodes i ≡ some a
        → find_key (node_key m sprint a.pt a.level) b.index ≡ some i

  find_key-cons :
      (j k : NodeKey) (i : ℕ) (index : List (NodeKey × ℕ)) (n : ℕ)
      → find_key k ((j, i) ∷ index) ≡ some n
      → ((j ≡ k) × (n ≡ i)) ⊎ (find_key k index ≡ some n)
  find_key-cons j k i index n h = elim (Bool-cases (same_key j k)) [
    | inl e ↦ let at_head : some i ≡ some n = rw e at h in inl ((same_key_iff j k).0 e, cc at_head)
    | inr e ↦ inr (rw e at h)
  ]

  -- A new entry hides no other.
  find_key-kept :
      (j : NodeKey) (n : ℕ) (index : List (NodeKey × ℕ))
      → find_key j index ≡ none
      → (k : NodeKey) (i : ℕ) → find_key k index ≡ some i
      → find_key k ((j, n) ∷ index) ≡ some i
  find_key-kept j n index new k i f = elim (Bool-cases (same_key j k)) [
    | inl e ↦ absurd (cc (ap (λ x. find_key x index) ((same_key_iff j k).0 e), new, f))
    | inr e ↦ rw e f
  ]

  -- `node` keeps the builder well formed and returns a node that it has.
  pub record IsAdded (b : Builder m sprint) (key : NodeKey) (r : ℕ × Builder m sprint)
      : Type 0 where
    pub inside : r.0 < length r.1.g.nodes
    pub grown : length b.g.nodes ≤ length r.1.g.nodes
    pub found : find_key key r.1.index ≡ some r.0
    pub kept : (k : NodeKey) (i : ℕ) → find_key k b.index ≡ some i → find_key k r.1.index ≡ some i
    pub whole : IsBuilder r.1

  pub node-IsAdded :
      (p : m.Point) (level : ℤ) (b : Builder m sprint)
      → IsBuilder b
      → IsAdded b (node_key m sprint p level) (node m sprint p level b)
  unfolding node
  node-IsAdded p level b h = elim (Option-cases (find_key (node_key m sprint p level) b.index)) [
    | inr (id, e) ↦
        rw (e, node)
          (record {
            inside = h.known _ id e;
            grown = omega arith;
            found = e;
            kept = λ k i f. f;
            whole = h;
          })
    | inl new ↦
        let key = node_key m sprint p level in
        let n = length b.g.nodes in
        let more : length (b.g.nodes ++ (record { pt = p; level = level }) ∷ []) ≡ suc n =
          omega (arith, length-append b.g.nodes ((record { pt = p; level = level }) ∷ [])) in
        let itself : same_key key key ≡ true = (same_key_iff key key).1 refl in
        rw (new, node)
          (record {
            inside = omega (arith, more);
            grown = omega (arith, more);
            found = rw itself refl;
            kept = find_key-kept key n b.index new;
            whole = record {
              ends = λ i e f.
                  let (x, y, z) = h.ends i e f in
                  (omega (arith, x, more), omega (arith, y, more), z);
              known = λ k i f.
                  ⊎_elim (λ (_, same). omega (arith, same, more))
                    (λ f'. omega (arith, h.known k i f', more)) (find_key-cons key k n b.index i f);
              keyed = λ j k i f f'. elim (find_key-cons key j n b.index i f) [
                | inl (to_j, at) ↦ elim (find_key-cons key k n b.index i f') [
                  | inl (to_k, _) ↦ sym to_j ∙ to_k
                  | inr g ↦ absurd (omega (arith, h.known k i g, at))
                ]
                | inr g ↦ elim (find_key-cons key k n b.index i f') [
                  | inl (_, at) ↦ absurd (omega (arith, h.known j i g, at))
                  | inr g' ↦ h.keyed j k i g g'
                ]
              ];
              indexed = λ i a at.
                  elim (get_elem?-last b.g.nodes (record { pt = p; level = level }) a i at) [
                    | inl old ↦ find_key-kept key n b.index new _ i (h.indexed i a old)
                    | inr (same, last) ↦
                        let its_key : node_key m sprint a.pt a.level ≡ key =
                          sym (ap (λ v. node_key m sprint v.pt v.level) same) in
                        let here : find_key key ((key, n) ∷ b.index) ≡ some n = rw itself refl in
                        ap (λ k. find_key k ((key, n) ∷ b.index)) its_key
                        ∙ here
                        ∙ ap some (sym last)
                  ];
            };
          })
  ]
