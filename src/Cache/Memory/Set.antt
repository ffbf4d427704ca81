-- ===== src/Cache/Memory/Set.antt =====
-- A write of the memory tier implements a write of the abstract cache, and does not panic.
use geoverse_map_server.Base.{
  ℕ, zero, suc, ◌+◌, ◌≤◌, ◌<◌, ◌≡◌, ◌≢◌, inl, inr, refl, sym, ap, ◌∙◌, List, [], ◌∷◌, none, some,
  length, length-take, take, ℕ_discrete, take-whole, unsnoc, arith, Bool-cases, Option-cases, ◌==◌,
  ltb, true,
}
use native.Mathlib.Numerals.{add-one}
use geoverse_map_server.Base.Dict.{lookup}
use geoverse_map_server.Base.Text.{Text, text_eq}
use geoverse_map_server.Cache.Memory.{
  Element, Entry, Cache, remove, discard, evict, overwrite, push, set,
}
use geoverse_map_server.Cache.Memory.Lru.{drop_key, write}
use geoverse_map_server.Cache.Memory.Agree.{
  find_element, size, entries, Linked, IsValid, Keeps, Adds, All-Adds, Distinct-Adds, size-Adds,
  length-Adds, unsnoc-Adds, absent-find, Agree-delete, Agree-push, drop_key-absent,
}
use geoverse_map_server.Cache.Memory.Found.{
  found_Adds, found_key, front_keys, front_ids, front_allocated, front-Agree, found_dropped,
  sub64-size, lookup-found, lookup-missed, All-mono,
}

-- What a call of `set` leaves.
abbrev pub Writes : ℕ → Text → Text → Cache → Cache → Type 0
Writes now key value c c' =
    (entries c'.ll ≡ write c.max_entries c.ttl now key value (entries c.ll))
    × IsValid c'
    × Keeps c c'

pub length-entries : (l : List Element) → length (entries l) ≡ length l
length-entries [] = refl
length-entries (x ∷ l) = ap suc (length-entries l)

take-entries : (n : ℕ) (l : List Element) → take n (entries l) ≡ entries (take n l)
take-entries zero l = refl
take-entries (suc n) [] = refl
take-entries (suc n) (x ∷ l) = ap (◌∷◌ x.entry) (take-entries n l)

-- What an abstract write keeps where the entries without the key are `l'` and fit.
write_fits :
    (max_entries ttl now : ℕ) (key value : Text) (l l' : List Entry)
    → drop_key key l ≡ l'
    → length l' < max_entries
    → write max_entries ttl now key value l
      ≡ record { key = key; value = value; expires = now + ttl } ∷ l'
unfolding write
write_fits max_entries ttl now key value l l' e h = rw e (take-whole _ max_entries (omega arith))

overwrite-Writes :
    (now : ℕ) (key value : Text) (c : Cache) (el : Element)
    → IsValid c
    → find_element key c.ll ≡ some el
    → Writes now key value c (overwrite now value c el)
unfolding overwrite size
overwrite-Writes now key value c el v found =
    let a = found_Adds c v.linked key found in
    let renewed : Element = record {
      id = el.id;
      entry = record { key = el.key; value = value; expires = now + c.ttl };
    } in
    let fits : length (entries (remove el.id c.ll)) < c.max_entries =
      rw (length-entries (remove el.id c.ll)) (omega (arith, length-Adds a, v.bounded)) in
    (
      rw (
        write_fits c.max_entries c.ttl now key value _ _ (found_dropped c v.linked key found) fits,
        found_key c v.linked key found,
      ),
      record {
        linked = record {
          agree = front-Agree c v.linked key found renewed refl refl;
          keys = front_keys c v.linked key found renewed refl refl;
          ids = front_ids c v.linked key found renewed refl refl;
          allocated = front_allocated c v.linked key found renewed refl refl;
          counted = omega (arith, v.counted, size-Adds a);
        };
        bounded = omega (arith, length-Adds a);
      },
      (refl, refl),
    )

-- A key that is new, pushed in front.
push-Linked :
    (now : ℕ) (key value : Text) (c : Cache)
    → Linked c
    → find_element key c.ll ≡ none
    → Linked (push now key value c)
unfolding push size
push-Linked now key value c v absent =
    let el : Element = record {
      id = c.fresh;
      entry = record { key = key; value = value; expires = now + c.ttl };
    } in
    record {
      agree = Agree-push c.items c.ll el v.agree;
      keys = (absent-find key c.ll absent, v.keys);
      ids = (
        All-mono {P = λ x. x.id < c.fresh} {Q = λ x. x.id ≢ c.fresh} c.ll (λ x h. omega arith)
            v.allocated,
        v.ids,
      );
      allocated = (
        omega arith,
        All-mono {P = λ x. x.id < c.fresh} {Q = λ x. x.id < c.fresh + 1} c.ll (λ x h. omega arith)
            v.allocated,
      );
      counted = omega (arith, v.counted);
    }

evict_idle : (fuel : ℕ) (c : Cache) → length c.ll ≤ c.max_entries → evict fuel c ≡ some c
unfolding evict
evict_idle zero c h = ground arith
evict_idle (suc fuel) c h = ground arith

discard-Linked :
    (c : Cache) (others : List Element) (last : Element)
    → Linked c
    → Adds last others c.ll
    → Linked (discard c others last)
unfolding discard
discard-Linked c others last v a = record {
  agree = Agree-delete c.items v.agree a v.keys;
  keys = (Distinct-Adds (λ x. x.key) a v.keys).1;
  ids = (Distinct-Adds (λ x. x.id) a v.ids).1;
  allocated = (All-Adds (λ x. x.id < c.fresh) a v.allocated).1;
  counted = sub64-size c.bytes (length last.value) _ (rw (← size-Adds a) v.counted);
}

-- What the evicting loop leaves of a list that is one too long at most.
Evicts : Cache → Cache → Type 0
Evicts c c' = (entries c'.ll ≡ take c.max_entries (entries c.ll)) × IsValid c' × Keeps c c'

evict_round :
    (fuel : ℕ) (c : Cache) (last : Element)
    → length c.ll ≡ suc c.max_entries
    → unsnoc c.ll ≡ some (take c.max_entries c.ll, last)
    → evict (suc fuel) c ≡ some (discard c (take c.max_entries c.ll) last)
unfolding evict discard
evict_round fuel c last h e =
    let over : ltb c.max_entries (length c.ll) ≡ true = ground arith in
    rw (over, e)
      (evict_idle fuel (discard c (take c.max_entries c.ll) last)
        (omega (arith, length-take c.max_entries c.ll)))

evict-Evicts :
    (fuel : ℕ) (c : Cache)
    → Linked c
    → length c.ll ≤ suc c.max_entries
    → (c' : Cache) × (evict (suc fuel) c ≡ some c') × Evicts c c'
unfolding Evicts discard
evict-Evicts fuel c v h = elim (ℕ_discrete (length c.ll) (suc c.max_entries)) [
  | yes full ↦
      let (last, e, a) = unsnoc-Adds c.max_entries c.ll full in
      (
        discard c (take c.max_entries c.ll) last,
        evict_round fuel c last full e,
        (
          sym (take-entries c.max_entries c.ll),
          record { linked = discard-Linked c _ last v a; bounded = omega (arith, length-Adds a) },
          (refl, refl),
        ),
      )
  | no room ↦
      let fits : length c.ll ≤ c.max_entries = omega arith in
      (
        c,
        evict_idle (suc fuel) c fits,
        (
          sym (take-whole (entries c.ll) c.max_entries (rw (length-entries c.ll) fits)),
          record { linked = v; bounded = fits },
          (refl, refl),
        ),
      )
]

-- A cache that is off holds nothing.
off-empty : (c : Cache) → IsValid c → c.max_entries ≡ 0 → entries c.ll ≡ []
off-empty c v h =
    elim c.ll as (λ l. length l ≤ c.max_entries → entries l ≡ []) [
      | [] ↦ λ b. refl
      | x ∷ l ↦ λ b. absurd (omega arith)
    ]
      v.bounded

write_off :
    (max_entries ttl now : ℕ) (key value : Text) (l : List Entry)
    → max_entries ≡ 0
    → write max_entries ttl now key value l ≡ []
unfolding write
write_off max_entries ttl now key value l h = rw h

push-Writes :
    (now : ℕ) (key value : Text) (c : Cache)
    → IsValid c
    → find_element key c.ll ≡ none
    → (c' : Cache) × (evict (length c.ll + 1) (push now key value c) ≡ some c')
      × Writes now key value c c'
unfolding push write Evicts
push-Writes now key value c v absent =
    let linked = push-Linked now key value c v.linked absent in
    let (c', e, r) =
      evict-Evicts (length c.ll) (push now key value c) linked (omega (arith, v.bounded)) in
    (c', rw add-one e, (rw (drop_key-absent key c.ll (absent-find key c.ll absent)) r.0, r.1, r.2))

-- A write to a valid cache does not panic. The entries after it are those of the abstract cache,
-- the cache stays valid, and its bound and time to live are unchanged.
pub set-Writes :
    (now : ℕ) (key value : Text) (c : Cache)
    → IsValid c
    → (c' : Cache) × (set now key value c ≡ some c') × Writes now key value c c'
unfolding set
set-Writes now key value c v = elim (Bool-cases (c.max_entries == 0)) [
  | inl off ↦
      let zero_entries : c.max_entries ≡ 0 = ground arith in
      (
        c,
        rw off,
        (
          off-empty c v zero_entries
              ∙ sym (write_off c.max_entries c.ttl now key value _ zero_entries),
          v,
          (refl, refl),
        ),
      )
  | inr on ↦ elim (Option-cases (lookup text_eq key c.items)) [
    | inl miss ↦
        let (c', e, r) = push-Writes now key value c v (lookup-missed c v.linked key miss) in
        (c', rw (on, miss, set) e, r)
    | inr (p, hit) ↦
        let (el, found, pointed) = lookup-found c v.linked key p hit in
        (
          overwrite now value c el,
          rw (on, hit, set, pointed),
          overwrite-Writes now key value c el v found,
        )
  ]
]
