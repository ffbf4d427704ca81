-- ===== src/Cache/Memory/Get.antt =====
-- A read of the memory tier implements a read of the abstract cache, and does not panic.
use geoverse_map_server.Base.{
  ℕ, ◌≤◌, ◌<◌, ◌≡◌, inl, inr, refl, sym, ap, List, [], ◌∷◌, Option, none, some, length, arith,
  Bool-cases, Option-cases, ◌==◌, if◌then◌else◌,
}
use geoverse_map_server.Base.Dict.{lookup}
use geoverse_map_server.Base.Text.{Text, text_eq}
use geoverse_map_server.Cache.Memory.{
  Element, Entry, Cache, add64, is_expired, expire, refresh, get_element, get,
}
use geoverse_map_server.Cache.Memory.Lru.{find, drop_key, read}
use geoverse_map_server.Cache.Memory.Agree.{
  find_element, size, entries, IsValid, Keeps, All-Adds, Distinct-Adds, size-Adds, length-Adds,
  find-entries,
}
use geoverse_map_server.Cache.Memory.Found.{
  found_Adds, front_keys, front_ids, front_allocated, front-Agree, found_misses, found_dropped,
  removed-Agree, sub64-size, lookup-found, lookup-missed,
}

-- What a call of `get` leaves.
abbrev pub Reads : ℕ → Text → Cache → Cache × Option Text → Type 0
Reads now key c r =
    (entries (r.0).ll ≡ (read c.ttl now key (entries c.ll)).0)
    × (r.1 ≡ (read c.ttl now key (entries c.ll)).1)
    × IsValid r.0
    × Keeps c r.0

expire-IsValid :
    (key : Text) (c : Cache) (el : Element)
    → IsValid c
    → find_element key c.ll ≡ some el
    → IsValid (expire key c el)
unfolding expire
expire-IsValid key c el v found =
    let a = found_Adds c v.linked key found in
    record {
      linked = record {
        agree = removed-Agree c v.linked key found;
        keys = (Distinct-Adds (λ x. x.key) a v.keys).1;
        ids = (Distinct-Adds (λ x. x.id) a v.ids).1;
        allocated = (All-Adds (λ x. x.id < c.fresh) a v.allocated).1;
        counted = sub64-size c.bytes (length el.value) _ (rw (← size-Adds a) v.counted);
      };
      bounded = omega (arith, length-Adds a);
    }

refresh-IsValid :
    (key : Text) (c : Cache) (el : Element)
    → IsValid c
    → find_element key c.ll ≡ some el
    → IsValid (refresh c el)
unfolding refresh size
refresh-IsValid key c el v found =
    let a = found_Adds c v.linked key found in
    record {
      linked = record {
        agree = front-Agree c v.linked key found el refl refl;
        keys = front_keys c v.linked key found el refl refl;
        ids = front_ids c v.linked key found el refl refl;
        allocated = front_allocated c v.linked key found el refl refl;
        counted = rw (← size-Adds a) v.counted;
      };
      bounded = omega (arith, length-Adds a);
    }

read_found :
    (ttl now : ℕ) (key : Text) (l : List Entry) {e : Entry}
    → find key l ≡ some e
    → read ttl now key l ≡ (
        if is_expired ttl now e.expires
        then (drop_key key l, none)
        else (e ∷ drop_key key l, some e.value))
unfolding read
read_found ttl now key l h = rw (h, read)

get_element-Reads :
    (now : ℕ) (key : Text) (c : Cache) (el : Element)
    → IsValid c
    → find_element key c.ll ≡ some el
    → Reads now key c (get_element now key c el)
unfolding get_element expire refresh
get_element-Reads now key c el v found = elim (Bool-cases (is_expired c.ttl now el.expires)) [
  | inl old ↦
      rw (read_found c.ttl now key _ (found_misses c v.linked key found), old)
        (
          sym (found_dropped c v.linked key found),
          refl,
          expire-IsValid key c el v found,
          (refl, refl),
        )
  | inr live ↦
      rw (read_found c.ttl now key _ (found_misses c v.linked key found), live)
        (
          ap (◌∷◌ el.entry) (sym (found_dropped c v.linked key found)),
          refl,
          refresh-IsValid key c el v found,
          (refl, refl),
        )
]

-- A cache that is off holds nothing.
off-missed : (key : Text) (c : Cache) → IsValid c → c.max_entries ≡ 0 → find_element key c.ll ≡ none
unfolding find_element
off-missed key c v h =
    elim c.ll as (λ l. length l ≤ c.max_entries → find_element key l ≡ none) [
      | [] ↦ λ b. refl
      | x ∷ l ↦ λ b. absurd (omega arith)
    ]
      v.bounded

missed-entries :
    (key : Text) (c : Cache) → find_element key c.ll ≡ none → find key (entries c.ll) ≡ none
missed-entries key c h = rw (find-entries key c.ll, h)

read_missed :
    (ttl now : ℕ) (key : Text) (l : List Entry) → find key l ≡ none → read ttl now key l ≡ (l, none)
unfolding read
read_missed ttl now key l h = rw (h, read)

missed-Reads :
    (now : ℕ) (key : Text) (c : Cache) (misses : ℕ)
    → IsValid c
    → find_element key c.ll ≡ none
    → Reads now key c (record c { misses = misses }, none)
missed-Reads now key c misses v h =
    rw (read_missed c.ttl now key _ (missed-entries key c h))
      (refl, refl, record { linked = v.linked; bounded = v.bounded }, (refl, refl))

-- A read of a valid cache does not panic. The entries after it and its answer are those of the
-- abstract cache, the cache stays valid, and its bound and time to live are unchanged.
pub get-Reads :
    (now : ℕ) (key : Text) (c : Cache)
    → IsValid c
    → (r : Cache × Option Text) × (get now key c ≡ some r) × Reads now key c r
unfolding get
get-Reads now key c v = elim (Bool-cases (c.max_entries == 0)) [
  | inl off ↦
      ((c, none), rw off, missed-Reads now key c c.misses v (off-missed key c v (ground arith)))
  | inr on ↦ elim (Option-cases (lookup text_eq key c.items)) [
    | inl miss ↦ (
      (record c { misses = add64 c.misses 1 }, none),
      rw (on, miss, get),
      missed-Reads now key c (add64 c.misses 1) v (lookup-missed c v.linked key miss),
    )
    | inr (p, hit) ↦
        let (el, found, pointed) = lookup-found c v.linked key p hit in
        (
          get_element now key c el,
          rw (on, hit, get, pointed),
          get_element-Reads now key c el v found,
        )
  ]
]
