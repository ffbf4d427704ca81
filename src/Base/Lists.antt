-- ===== src/Base/Lists.antt =====
-- Lists measured and indexed by native numbers, under the library's names.
use Prim.Native.Nat.{ℕ, zero, suc, ◌+◌, ◌-◌, ◌≤◌, ◌<◌, min}
use mathlib.Core.Path.{◌≡◌, refl, ap, sym, subst, ◌∙◌}
use mathlib.Core.Logic.{◌≢◌, ◌↔◌, ◌⊎◌, inl, inr}
use mathlib.Core.List.Memᴰ
use mathlib.Core.List.{List, [], ◌∷◌, ◌++◌, map, Memᴰ}
use mathlib.Core.Option.{Option, none, some}
use native.Mathlib.Omega.{arith}
use geoverse_map_server.Base.Tests.{ℕ-cases}

module _ {ℓ} {A : Type ℓ} where
  abbrev pub length : List A → ℕ
  length [] = 0
  length (x ∷ xs) = suc (length xs)

  abbrev pub get_elem? : List A → ℕ → Option A
  get_elem? [] i = none
  get_elem? (x ∷ xs) zero = some x
  get_elem? (x ∷ xs) (suc i) = get_elem? xs i

  abbrev pub get_or : List A → ℕ → A → A
  get_or [] i d = d
  get_or (x ∷ xs) zero d = x
  get_or (x ∷ xs) (suc i) d = get_or xs i d

  -- A write out of bounds changes nothing.
  abbrev pub set : List A → ℕ → A → List A
  set [] i v = []
  set (x ∷ xs) zero v = v ∷ xs
  set (x ∷ xs) (suc i) v = x ∷ set xs i v

  abbrev pub take : ℕ → List A → List A
  take zero xs = []
  take (suc n) [] = []
  take (suc n) (x ∷ xs) = x ∷ take n xs

  abbrev pub drop : ℕ → List A → List A
  drop zero xs = xs
  drop (suc n) [] = []
  drop (suc n) (x ∷ xs) = drop n xs

  -- A predicate of every element.
  abbrev pub All {κ} : (A → Type κ) → List A → Type κ
  All P [] = Unit
  All P (x ∷ xs) = P x × All P xs

  -- The list without its last element, and that element.
  abbrev pub unsnoc : List A → Option (List A × A)
  unsnoc [] = none
  unsnoc (x ∷ xs) = elim (unsnoc xs) [ none ↦ some ([], x) | some (ys, y) ↦ some (x ∷ ys, y) ]

module _ {ℓ} {A : Type ℓ} where
  pub length-append : (xs ys : List A) → length (xs ++ ys) ≡ length xs + length ys
  length-append [] ys = omega arith
  length-append (x ∷ xs) ys = omega (arith, length-append xs ys)

  pub length-take : (n : ℕ) (xs : List A) → length (take n xs) ≡ min n (length xs)
  length-take zero xs = omega arith
  length-take (suc n) [] = omega arith
  length-take (suc n) (x ∷ xs) = omega (arith, length-take n xs)

  pub length-drop : (n : ℕ) (xs : List A) → length (drop n xs) ≡ length xs - n
  length-drop zero xs = omega arith
  length-drop (suc n) [] = omega arith
  length-drop (suc n) (x ∷ xs) = omega (arith, length-drop n xs)

  -- A prefix that is long enough is the list.
  pub take-whole : (xs : List A) (n : ℕ) → length xs ≤ n → take n xs ≡ xs
  take-whole [] zero room = refl
  take-whole [] (suc n) room = refl
  take-whole (y ∷ ys) zero room = absurd (ground arith)
  take-whole (y ∷ ys) (suc n) room = ground (arith, take-whole ys n)

-- The same elements in another order, as a derivation that can be matched.
pub data Reordered {ℓ} {A : Type ℓ} : List A → List A → Type ℓ where
  nil : Reordered [] []
  cons : (x : A) {xs ys : List A} → Reordered xs ys → Reordered (x ∷ xs) (x ∷ ys)
  swap : (x y : A) (xs : List A) → Reordered (x ∷ y ∷ xs) (y ∷ x ∷ xs)
  trans : {xs ys zs : List A} → Reordered xs ys → Reordered ys zs → Reordered xs zs

pub Reordered-refl {ℓ} : {A : Type ℓ} (xs : List A) → Reordered xs xs
Reordered-refl [] = Reordered.nil
Reordered-refl (x ∷ xs) = Reordered.cons x (Reordered-refl xs)

module _ {ℓ} {A : Type ℓ} where
  pub Reordered-sym : {xs ys : List A} → Reordered xs ys → Reordered ys xs
  Reordered-sym Reordered.nil = Reordered.nil
  Reordered-sym (Reordered.cons x p) = Reordered.cons x (Reordered-sym p)
  Reordered-sym (Reordered.swap x y xs) = Reordered.swap y x xs
  Reordered-sym (Reordered.trans p q) = Reordered.trans (Reordered-sym q) (Reordered-sym p)

  pub Reordered-append :
      {xs ys : List A} (zs : List A) → Reordered xs ys → Reordered (xs ++ zs) (ys ++ zs)
  Reordered-append zs Reordered.nil = Reordered-refl zs
  Reordered-append zs (Reordered.cons x p) = Reordered.cons x (Reordered-append zs p)
  Reordered-append zs (Reordered.swap x y xs) = Reordered.swap x y (xs ++ zs)
  Reordered-append zs (Reordered.trans p q) =
      Reordered.trans (Reordered-append zs p) (Reordered-append zs q)

  -- An element in the middle may stand in front.
  pub Reordered-middle : (x : A) (xs ys : List A) → Reordered (xs ++ x ∷ ys) (x ∷ xs ++ ys)
  Reordered-middle x [] ys = Reordered-refl (x ∷ ys)
  Reordered-middle x (y ∷ xs) ys =
      Reordered.trans (Reordered.cons y (Reordered-middle x xs ys)) (Reordered.swap y x (xs ++ ys))

-- What a write leaves to be read.
module _ {ℓ} {A : Type ℓ} where
  pub length-set : (xs : List A) (i : ℕ) (v : A) → length (set xs i v) ≡ length xs
  length-set [] i v = refl
  length-set (x ∷ xs) zero v = refl
  length-set (x ∷ xs) (suc i) v = ap suc (length-set xs i v)

  pub get_or-set_same :
      (xs : List A) (i : ℕ) (v d : A) → i < length xs → get_or (set xs i v) i d ≡ v
  get_or-set_same [] i v d h = absurd (omega arith)
  get_or-set_same (x ∷ xs) zero v d h = refl
  get_or-set_same (x ∷ xs) (suc i) v d h = get_or-set_same xs i v d (omega arith)

  pub get_or-set_other :
      (xs : List A) (i j : ℕ) (v d : A) → j ≢ i → get_or (set xs i v) j d ≡ get_or xs j d
  get_or-set_other [] i j v d h = refl
  get_or-set_other (x ∷ xs) zero zero v d h = absurd (h refl)
  get_or-set_other (x ∷ xs) zero (suc j) v d h = refl
  get_or-set_other (x ∷ xs) (suc i) zero v d h = refl
  get_or-set_other (x ∷ xs) (suc i) (suc j) v d h = get_or-set_other xs i j v d (λ e. h (ap suc e))

  pub get_or-map : {B : Type ℓ} (xs : List B) (d : A) (i : ℕ) → get_or (map (λ _. d) xs) i d ≡ d
  get_or-map [] d i = refl
  get_or-map (x ∷ xs) d zero = refl
  get_or-map (x ∷ xs) d (suc i) = get_or-map xs d i

  pub length-map : {B : Type ℓ} (f : B → A) (xs : List B) → length (map f xs) ≡ length xs
  length-map f [] = refl
  length-map f (x ∷ xs) = ap suc (length-map f xs)

  pub Reordered-length : {xs ys : List A} → Reordered xs ys → length xs ≡ length ys
  Reordered-length Reordered.nil = refl
  Reordered-length (Reordered.cons x p) = ap suc (Reordered-length p)
  Reordered-length (Reordered.swap x y xs) = refl
  Reordered-length (Reordered.trans p q) = Reordered-length p ∙ Reordered-length q

  pub Reordered-Memᴰ : {a : A} {xs ys : List A} → Reordered xs ys → Memᴰ a xs → Memᴰ a ys
  Reordered-Memᴰ Reordered.nil m = m
  Reordered-Memᴰ (Reordered.cons x p) (Memᴰ.head e) = Memᴰ.head e
  Reordered-Memᴰ (Reordered.cons x p) (Memᴰ.tail m) = Memᴰ.tail (Reordered-Memᴰ p m)
  Reordered-Memᴰ (Reordered.swap x y xs) (Memᴰ.head e) = Memᴰ.tail (Memᴰ.head e)
  Reordered-Memᴰ (Reordered.swap x y xs) (Memᴰ.tail (Memᴰ.head e)) = Memᴰ.head e
  Reordered-Memᴰ (Reordered.swap x y xs) (Memᴰ.tail (Memᴰ.tail m)) = Memᴰ.tail (Memᴰ.tail m)
  Reordered-Memᴰ (Reordered.trans p q) m = Reordered-Memᴰ q (Reordered-Memᴰ p m)

-- A number that is appended to one of several lists.
pub put_iff :
    (adj : List (List ℕ)) (v i u j : ℕ)
    → v < length adj
    → Memᴰ j (get_or (set adj v (get_or adj v [] ++ i ∷ [])) u [])
      ↔ (Memᴰ j (get_or adj u []) ⊎ ((v ≡ u) × (j ≡ i)))
put_iff adj v i u j room = elim (ℕ-cases u v) [
  | inr other ↦
      let e = get_or-set_other adj v u (get_or adj v [] ++ i ∷ []) [] other in
      (
        λ m. inl (subst (Memᴰ j) e m),
        λ h. elim h [
          | inl m ↦ subst (Memᴰ j) (sym e) m
          | inr (same, _) ↦ absurd (other (sym same))
        ],
      )
  | inl same ↦
      let e : get_or (set adj v (get_or adj v [] ++ i ∷ [])) u [] ≡ get_or adj u [] ++ i ∷ [] =
        ap (λ w. get_or (set adj v (get_or adj v [] ++ i ∷ [])) w []) same
        ∙ (get_or-set_same adj v (get_or adj v [] ++ i ∷ []) [] room
            ∙ ap (λ w. get_or adj w [] ++ i ∷ []) (sym same)) in
      (
        λ m. elim (Memᴰ.append_cases (get_or adj u []) (subst (Memᴰ j) e m)) [
          | inl old ↦ inl old
          | inr new ↦ inr (sym same, Memᴰ.eq_of_singleton new)
        ],
        λ h. subst (Memᴰ j) (sym e) (elim h [
          | inl m ↦ Memᴰ.append_left (i ∷ []) m
          | inr (_, number) ↦ Memᴰ.append_right (get_or adj u []) (Memᴰ.head number)
        ]),
      )
]
