-- ===== src/Cache/Memory/Agree.antt =====
-- The list of elements under a removal, and the invariant that ties the map to it.
use mathlib.Core.Option
use geoverse_map_server.Base.{
  ℕ, zero, suc, ◌+◌, ◌%◌, ◌≤◌, ◌<◌, ◌≡◌, ◌≢◌, refl, sym, List, [], ◌∷◌, Option, none, some, ite,
  if_pos, if_neg, ℕ_discrete, length, take, All, unsnoc, arith, map,
}
use geoverse_map_server.Base.Dict.{Dict, lookup, insert, delete, lookup-insert, lookup-delete}
use geoverse_map_server.Base.Text.{Text, text_eq}
use geoverse_map_server.Cache.Memory.{Element, Entry, Cache, word, deref, remove}
use geoverse_map_server.Cache.Memory.Lru.{find, drop_key}

-- The first element with the key.
unfoldable pub find_element : Text → List Element → Option Element
find_element key [] = none
find_element key (el ∷ l) = ite (text_eq el.key key) (some el) (find_element key l)

-- The bytes that the entries hold.
unfoldable pub size : List Element → ℕ
size [] = 0
size (el ∷ l) = length el.value + size l

abbrev pub Distinct : {B : Type 0} → (Element → B) → List Element → Type 0
Distinct f [] = Unit
Distinct f (el ∷ l) = All (λ x. f x ≢ f el) l × Distinct f l

abbrev pub entries : List Element → List Entry
entries = map (λ el. el.entry)

-- The map leads from each key to the pointer of the element that holds it.
abbrev pub Agree : Dict Text ℕ → List Element → Type 0
Agree items l = (k : Text) → lookup text_eq k items ≡ Option.map (λ el. el.id) (find_element k l)

-- The list and the map agree, no key and no pointer occurs twice, no pointer is one that will
-- still be allocated, and the byte counter is the sum of the sizes.
pub record IsLinked (ll : List Element) (items : Dict Text ℕ) (fresh bytes : ℕ) : Type 0 where
  pub agree : Agree items ll
  pub keys : Distinct (λ el. el.key) ll
  pub ids : Distinct (λ el. el.id) ll
  pub allocated : All (λ el. el.id < fresh) ll
  pub counted : bytes ≡ size ll % word

abbrev pub Linked : Cache → Type 0
Linked c = IsLinked c.ll c.items c.fresh c.bytes

-- The invariant between two calls.
pub record IsValid (c : Cache) : Type 0 where
  pub linked : Linked c
  pub open linked use *
  pub bounded : length c.ll ≤ c.max_entries

-- No call changes the bound or the time to live.
abbrev pub Keeps : Cache → Cache → Type 0
Keeps c c' = (c'.max_entries ≡ c.max_entries) × (c'.ttl ≡ c.ttl)

-- The second list is the first with the element put in somewhere.
pub data Adds (el : Element) : List Element → List Element → Type 0 where
  here : (l : List Element) → Adds el l (el ∷ l)
  there : (x : Element) {l' l : List Element} → Adds el l' l → Adds el (x ∷ l') (x ∷ l)

pub All-Adds :
    (P : Element → Type 0) {el : Element} {l' l : List Element}
    → Adds el l' l
    → All P l
    → P el × All P l'
All-Adds P (here l) h = h
All-Adds P (there x a) h = let r = All-Adds P a h.1 in (r.0, (h.0, r.1))

pub Distinct-Adds :
    {B : Type 0} (f : Element → B) {el : Element} {l' l : List Element}
    → Adds el l' l
    → Distinct f l
    → All (λ x. f x ≢ f el) l' × Distinct f l'
Distinct-Adds f (here l) d = d
Distinct-Adds f {el} (there x a) d =
    let r = Distinct-Adds f a d.1 in
    let s = All-Adds (λ y. f y ≢ f x) a d.0 in ((λ e. s.0 (sym e), r.0), (s.1, r.1))

pub size-Adds :
    {el : Element} {l' l : List Element} → Adds el l' l → size l ≡ length el.value + size l'
unfolding size
size-Adds (here l) = refl
size-Adds (there x a) = omega (arith, size-Adds a)

pub length-Adds : {el : Element} {l' l : List Element} → Adds el l' l → length l ≡ suc (length l')
length-Adds (here l) = refl
length-Adds (there x a) = omega (arith, length-Adds a)

pub find-absent : (k : Text) (l : List Element) → All (λ x. x.key ≢ k) l → find_element k l ≡ none
unfolding find_element
find-absent k [] h = refl
find-absent k (x ∷ l) h = rw (if_neg _ h.0) (find-absent k l h.1)

pub find-Adds :
    {el : Element} {l' l : List Element} (j : Text)
    → Adds el l' l
    → Distinct (λ x. x.key) l
    → find_element j l' ≡ ite (text_eq el.key j) none (find_element j l)
unfolding find_element
find-Adds {el} j (here l) d = elim (text_eq el.key j) [
  | yes e ↦ rw (if_pos _ e) (find-absent j l (rw e at (d.0)))
  | no n ↦ ground arith
]
find-Adds {el} j (there x a) d =
    let s = All-Adds (λ y. y.key ≢ x.key) a d.0 in ground (arith, find-Adds j a d.1, s.0)

pub find_key :
    (k : Text) (l : List Element) (el : Element) → find_element k l ≡ some el → el.key ≡ k
unfolding find_element
find_key k [] el h = absurd (cc)
find_key k (x ∷ l) el h = ground (arith, find_key k l el)

pub All-find :
    (P : Element → Type 0) (k : Text) (l : List Element) {el : Element}
    → All P l
    → find_element k l ≡ some el
    → P el
unfolding find_element
All-find P k [] h e = absurd (cc)
All-find P k (x ∷ l) {el} h e = elim (text_eq x.key k) [
  | yes q ↦ let same : x ≡ el = ground arith in rw (← same) h.0
  | no q ↦ All-find P k l h.1 (ground arith)
]

-- The pointer of an element of the list leads to it.
pub deref-find :
    (k : Text) (l : List Element) {el : Element}
    → Distinct (λ x. x.id) l
    → find_element k l ≡ some el
    → deref el.id l ≡ some el
unfolding find_element deref
deref-find k [] d e = absurd (cc)
deref-find k (x ∷ l) {el} d e = elim (text_eq x.key k) [
  | yes q ↦ let same : x ≡ el = ground arith in rw (← same) (ground arith)
  | no q ↦
      let rest : find_element k l ≡ some el = ground arith in
      ground (arith, All-find (λ y. y.id ≢ x.id) k l d.0 rest, deref-find k l d.1 rest)
]

-- Removal by pointer takes out the element and nothing else.
pub remove-Adds :
    (p : ℕ) (l : List Element) {el : Element} → deref p l ≡ some el → Adds el (remove p l) l
unfolding deref remove
remove-Adds p [] e = absurd (cc)
remove-Adds p (x ∷ l) {el} e = elim (ℕ_discrete x.id p) [
  | yes q ↦
      let same : x ≡ el = ground arith in
      let cut : remove p (x ∷ l) ≡ l = ground arith in rw (cut, same) (here l)
  | no q ↦
      let cut : remove p (x ∷ l) ≡ x ∷ remove p l = ground arith in
      rw cut (there x (remove-Adds p l (ground arith)))
]

-- Of a list that is one too long, `Back` is the last element.
pub unsnoc-Adds :
    (n : ℕ) (l : List Element)
    → length l ≡ suc n
    → (el : Element) × (unsnoc l ≡ some (take n l, el)) × Adds el (take n l) l
unsnoc-Adds zero (x ∷ []) h = (x, refl, here [])
unsnoc-Adds (suc n) (x ∷ y ∷ l) h =
    let (el, e, a) = unsnoc-Adds n (y ∷ l) (omega arith) in (el, rw e, there x a)
unsnoc-Adds n l h = absurd (omega arith)

pub absent-find : (k : Text) (l : List Element) → find_element k l ≡ none → All (λ x. x.key ≢ k) l
unfolding find_element
absent-find k [] e = tt
absent-find k (x ∷ l) e = elim (text_eq x.key k) [
  | yes q ↦ absurd (ground arith)
  | no q ↦ (q, absent-find k l (ground arith))
]

pub Agree-delete :
    (items : Dict Text ℕ) {el : Element} {l' l : List Element}
    → Agree items l
    → Adds el l' l
    → Distinct (λ x. x.key) l
    → Agree (delete text_eq el.key items) l'
Agree-delete items {el} a p d j =
    rw (lookup-delete text_eq el.key j items, a j, find-Adds j p d) (ground arith)

-- An element that keeps its key and pointer may move to the front with another value.
pub Agree-front :
    (items : Dict Text ℕ) {el : Element} {l' l : List Element} (renewed : Element)
    → Agree items l
    → Adds el l' l
    → Distinct (λ x. x.key) l
    → find_element el.key l ≡ some el
    → renewed.key ≡ el.key
    → renewed.id ≡ el.id
    → Agree items (renewed ∷ l')
unfolding find_element
Agree-front items {el} {l'} {l} renewed a p d f k i j =
    ground (arith, a j, a el.key, find-Adds j p d)

pub Agree-push :
    (items : Dict Text ℕ) (l : List Element) (el : Element)
    → Agree items l
    → Agree (insert text_eq el.key el.id items) (el ∷ l)
unfolding find_element
Agree-push items l el a j = rw (lookup-insert text_eq el.key j el.id items, a j) (ground arith)

-- On entries: a removal is the removal of the key.
pub drop_key-absent :
    (k : Text) (l : List Element) → All (λ x. x.key ≢ k) l → drop_key k (entries l) ≡ entries l
unfolding drop_key
drop_key-absent k [] h = refl
drop_key-absent k (x ∷ l) h = ground (arith, h.0, drop_key-absent k l h.1)

pub drop_key-Adds :
    {el : Element} {l' l : List Element}
    → Adds el l' l
    → Distinct (λ x. x.key) l
    → drop_key el.key (entries l) ≡ entries l'
unfolding drop_key
drop_key-Adds {el} (here l) d = ground (arith, drop_key-absent el.key l d.0)
drop_key-Adds {el} (there x a) d =
    let s = All-Adds (λ y. y.key ≢ x.key) a d.0 in ground (arith, s.0, drop_key-Adds a d.1)

pub find-entries :
    (k : Text) (l : List Element)
    → find k (entries l) ≡ Option.map (λ el. el.entry) (find_element k l)
unfolding find find_element
find-entries k [] = refl
find-entries k (x ∷ l) = ground (arith, find-entries k l)
