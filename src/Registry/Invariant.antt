-- ===== src/Registry/Invariant.antt =====
-- The names in order and the map of sources agree, through every operation of the registry.
use geoverse_map_server.Base.{
  ◌≡◌, inl, inr, refl, Bool, true, false, List, [], ◌∷◌, ◌++◌, Option, none, some, ite, if_pos,
  if_neg, arith, Option-cases, if◌then◌else◌,
}
use geoverse_map_server.Base.Dict.{
  lookup, insert, delete, lookup-insert, lookup-delete, UniqueKeys, delete-UniqueKeys,
  insert-UniqueKeys,
}
unfoldable pub use geoverse_map_server.Base.Strings.{listed}
use geoverse_map_server.Base.Text.{Text, text_eq}
use geoverse_map_server.Registry.{Registry, replace, drop_first, remove, get, names}

-- No name stands twice.
abbrev pub DistinctNames : List Text → Type 0
DistinctNames [] = Unit
DistinctNames (n ∷ ns) = (listed n ns ≡ false) × DistinctNames ns

abbrev pub is_some : {A : Type 0} → Option A → Bool
is_some none = false
is_some (some a) = true

-- No name and no key twice, and a name stands in the order exactly if it has a source.
pub record IsValid {S : Type 0} (r : Registry S) : Type 0 where
  pub unique : UniqueKeys r.sources
  pub distinct : DistinctNames r.order
  pub agree : (n : Text) → listed n r.order ≡ is_some (lookup text_eq n r.sources)

listed-append :
    (n m : Text) (ns : List Text) → listed n (ns ++ m ∷ []) ≡ ite (text_eq m n) true (listed n ns)
unfolding listed
listed-append n m [] = refl
listed-append n m (x ∷ ns) = ground (arith, listed-append n m ns)

DistinctNames-append :
    (m : Text) (ns : List Text)
    → DistinctNames ns
    → listed m ns ≡ false
    → DistinctNames (ns ++ m ∷ [])
unfolding listed
DistinctNames-append m [] d h = (refl, tt)
DistinctNames-append m (x ∷ ns) d h =
    (ground (arith, listed-append x m ns, d.0), DistinctNames-append m ns d.1 (ground arith))

listed-drop_first :
    (n m : Text) (ns : List Text)
    → DistinctNames ns
    → listed n (drop_first m ns) ≡ ite (text_eq m n) false (listed n ns)
unfolding listed drop_first
listed-drop_first n m [] d = ground arith
listed-drop_first n m (x ∷ ns) d = ground (arith, d.0, listed-drop_first n m ns d.1)

DistinctNames-drop_first :
    (m : Text) (ns : List Text) → DistinctNames ns → DistinctNames (drop_first m ns)
unfolding drop_first
DistinctNames-drop_first m [] d = tt
DistinctNames-drop_first m (x ∷ ns) d = elim (text_eq x m) [
  | yes e ↦ rw (if_pos _ e) (d.1)
  | no n ↦
      rw (if_neg _ n)
        (ground (arith, d.0, listed-drop_first x m ns d.1), DistinctNames-drop_first m ns d.1)
]

module _ {S : Type 0} (r : Registry S) (v : IsValid r) where
  -- A new source under a name that is not there.
  pub added-IsValid :
      (name : Text) (s : S)
      → lookup text_eq name r.sources ≡ none
      → IsValid
          (record r { sources = insert text_eq name s r.sources; order = r.order ++ name ∷ [] })
  added-IsValid name s h = record {
    unique = insert-UniqueKeys text_eq name s r.sources v.unique;
    distinct = DistinctNames-append name r.order v.distinct (ground (arith, v.agree name));
    agree = λ n.
        ground (
          arith,
          v.agree n,
          listed-append n name r.order,
          lookup-insert text_eq name n s r.sources,
        );
  }

  pub replace_new :
      (name : Text) (s : S)
      → lookup text_eq name r.sources ≡ none
      → replace name s r
        ≡ record r { sources = insert text_eq name s r.sources; order = r.order ++ name ∷ [] }
  unfolding replace
  replace_new name s h = rw (h, replace)

  pub replace_old :
      (name : Text) (s : S) {old : S}
      → lookup text_eq name r.sources ≡ some old
      → replace name s r
        ≡ record r { sources = insert text_eq name s r.sources; retired = r.retired ++ old ∷ [] }
  unfolding replace
  replace_old name s h = rw (h, replace)

  pub remove_old :
      (name : Text) {old : S}
      → lookup text_eq name r.sources ≡ some old
      → remove name r ≡ (
        record {
          sources = delete text_eq name r.sources;
          order = drop_first name r.order;
          retired = r.retired ++ old ∷ [];
        },
        true,
      )
  unfolding remove
  remove_old name h = rw (h, remove)

  pub remove_new : (name : Text) → lookup text_eq name r.sources ≡ none → remove name r ≡ (r, false)
  unfolding remove
  remove_new name h = rw (h, remove)

  -- `Replace` keeps a registry valid. Under a name that is there it puts the new source in place of
  -- the old and keeps the order; under a new name it appends the name. Every other name keeps its
  -- source.
  pub replace-IsValid :
      (name : Text) (s : S)
      → IsValid (replace name s r)
        × ((n : Text) → get n (replace name s r) ≡ ite (text_eq name n) (some s) (get n r))
        × (names (replace name s r)
            ≡ (if is_some (get name r) then names r else names r ++ name ∷ []))
  unfolding get names
  replace-IsValid name s = elim (Option-cases (lookup text_eq name r.sources)) [
    | inl new ↦
        rw (replace_new name s new)
          (added-IsValid name s new, λ n. lookup-insert text_eq name n s r.sources, rw new)
    | inr (old, there) ↦ rw (replace_old name s there) (
      record {
        unique = insert-UniqueKeys text_eq name s r.sources v.unique;
        distinct = v.distinct;
        agree = λ n. ground (arith, v.agree n, there, lookup-insert text_eq name n s r.sources);
      },
      λ n. lookup-insert text_eq name n s r.sources,
      rw there,
    )
  ]

  -- `Remove` keeps a registry valid and tells whether the name was there; the name is gone and every
  -- other name keeps its source.
  pub remove-IsValid :
      (name : Text)
      → IsValid (remove name r).0
        × ((n : Text) → get n (remove name r).0 ≡ ite (text_eq name n) none (get n r))
        × ((remove name r).1 ≡ is_some (get name r))
  unfolding get
  remove-IsValid name = elim (Option-cases (lookup text_eq name r.sources)) [
    | inl new ↦ rw (remove_new name new) (v, λ n. ground arith, rw new)
    | inr (old, there) ↦ rw (remove_old name there) (
      record {
        unique = delete-UniqueKeys text_eq name r.sources v.unique;
        distinct = DistinctNames-drop_first name r.order v.distinct;
        agree = λ n. ground (
          arith,
          v.agree n,
          lookup-delete text_eq name n r.sources,
          listed-drop_first n name r.order v.distinct,
        );
      },
      λ n. lookup-delete text_eq name n r.sources,
      rw there,
    )
  ]
