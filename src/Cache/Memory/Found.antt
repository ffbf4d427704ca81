-- ===== src/Cache/Memory/Found.antt =====
-- An element that a lookup of the memory tier finds: where its pointer leads, and the list
-- without it or with it in front.
use geoverse_map_server.Base.{
  ℕ, ◌+◌, ◌%◌, ◌<◌, ◌≡◌, inl, inr, List, [], ◌∷◌, none, some, All, arith, Option-cases,
}
use geoverse_map_server.Base.Dict.{lookup, delete}
use geoverse_map_server.Base.Text.{Text, text_eq}
use geoverse_map_server.Cache.Memory.{Element, Cache, word, sub64, deref, remove}
use geoverse_map_server.Cache.Memory.Lru.{find, drop_key}
use geoverse_map_server.Cache.Memory.Agree.{
  find_element, Distinct, entries, Agree, Linked, Adds, All-Adds, Distinct-Adds, find_key,
  deref-find, remove-Adds, Agree-delete, Agree-front, drop_key-Adds, find-entries,
}

-- The byte counter after the removal of an element.
pub sub64-size : (b l s : ℕ) → b ≡ (l + s) % word → sub64 b l ≡ s % word
sub64-size b l s h = omega arith

module _ (c : Cache) (v : Linked c) (key : Text) {el : Element}
    (found : find_element key c.ll ≡ some el) where
  pub found_pointer : deref el.id c.ll ≡ some el
  found_pointer = deref-find key c.ll v.ids found

  pub found_Adds : Adds el (remove el.id c.ll) c.ll
  found_Adds = remove-Adds el.id c.ll found_pointer

  pub found_key : el.key ≡ key
  found_key = find_key key c.ll el found

  -- An element that moves to the front with a new value and expiry.
  module _ (renewed : Element) (same_key : renewed.key ≡ el.key)
      (same_id : renewed.id ≡ el.id) where
    pub front_keys : Distinct (λ x. x.key) (renewed ∷ remove el.id c.ll)
    front_keys = rw same_key (Distinct-Adds (λ x. x.key) found_Adds v.keys)

    pub front_ids : Distinct (λ x. x.id) (renewed ∷ remove el.id c.ll)
    front_ids = rw same_id (Distinct-Adds (λ x. x.id) found_Adds v.ids)

    pub front_allocated : All (λ x. x.id < c.fresh) (renewed ∷ remove el.id c.ll)
    front_allocated = rw same_id (All-Adds (λ x. x.id < c.fresh) found_Adds v.allocated)

    pub front-Agree : Agree c.items (renewed ∷ remove el.id c.ll)
    front-Agree =
        Agree-front c.items renewed v.agree found_Adds v.keys (simp found_key found) same_key
          same_id

  pub found_misses : find key (entries c.ll) ≡ some el.entry
  found_misses = rw (find-entries key c.ll, found)

  pub found_dropped : drop_key key (entries c.ll) ≡ entries (remove el.id c.ll)
  found_dropped = rw found_key at (drop_key-Adds found_Adds v.keys)

  pub removed-Agree : Agree (delete text_eq key c.items) (remove el.id c.ll)
  removed-Agree = rw found_key at (Agree-delete c.items v.agree found_Adds v.keys)

pub lookup-found :
    (c : Cache) (v : Linked c) (key : Text) (p : ℕ)
    → lookup text_eq key c.items ≡ some p
    → (el : Element) × (find_element key c.ll ≡ some el) × (deref p c.ll ≡ some el)
lookup-found c v key p h = elim (Option-cases (find_element key c.ll)) [
  | inl miss ↦ absurd (ground (arith, v.agree key))
  | inr (el, hit) ↦
      let same : el.id ≡ p = ground (arith, v.agree key) in
      (el, hit, simp (← same) (deref-find key c.ll v.ids hit))
]

pub lookup-missed :
    (c : Cache) (v : Linked c) (key : Text)
    → lookup text_eq key c.items ≡ none
    → find_element key c.ll ≡ none
lookup-missed c v key h = elim (Option-cases (find_element key c.ll)) [
  | inl miss ↦ miss
  | inr (el, hit) ↦ absurd (ground (arith, v.agree key))
]

pub All-mono :
    {P Q : Element → Type 0} (l : List Element) → ((x : Element) → P x → Q x) → All P l → All Q l
All-mono [] f h = tt
All-mono {P} {Q} (x ∷ l) f h = (f x h.0, All-mono {P = P} {Q = Q} l f h.1)
