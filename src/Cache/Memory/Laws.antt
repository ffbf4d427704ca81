-- ===== src/Cache/Memory/Laws.antt =====
-- What a client of the memory tier can rely on.
use geoverse_map_server.Base.{
  ℕ, ◌+◌, ◌≤◌, ◌<◌, ◌≡◌, ◌≢◌, refl, sym, ◌∙◌, ap, List, [], ◌∷◌, Option, none, some, take-whole,
  arith, suc, ◌-◌, length, false, ◌⊎◌,
}
use geoverse_map_server.Base.Dict.{lookup}
use geoverse_map_server.Base.Text.{Text}
use geoverse_map_server.Cache.Memory.{Entry, Cache, is_expired, new, get, set, purge, len}
use geoverse_map_server.Cache.Memory.Lru.{find, drop_key, read, write}
use geoverse_map_server.Cache.Memory.Agree.{entries, IsValid}
use geoverse_map_server.Cache.Memory.Get.{get-Reads}
use geoverse_map_server.Cache.Memory.Set.{set-Writes, length-entries}
use geoverse_map_server.Cache.Memory.History.{purge-IsValid}

-- The abstract write in a cache that is on: the key is in front.
find-write :
    (max_entries ttl now : ℕ) (key value : Text) (l : List Entry)
    → 0 < max_entries
    → find key (write max_entries ttl now key value l)
      ≡ some (record { key = key; value = value; expires = now + ttl })
unfolding find write
find-write max_entries ttl now key value l h =
    let e : max_entries ≡ suc (max_entries - 1) = omega arith in rw e (ground arith)

read-live :
    (ttl now : ℕ) (key : Text) (l : List Entry) {e : Entry}
    → find key l ≡ some e
    → is_expired ttl now e.expires ≡ false
    → (read ttl now key l).1 ≡ some e.value
unfolding read
read-live ttl now key l h live = ground arith

-- A value that was stored in a valid cache that is on is read back, as long as its time to live
-- has not passed.
pub get-set :
    (stored now : ℕ) (key value : Text) (c : Cache)
    → IsValid c
    → 0 < c.max_entries
    → now ≤ stored + c.ttl
    → (c' : Cache) × (r : Cache × Option Text) × (set stored key value c ≡ some c')
      × (get now key c' ≡ some r)
      × (r.1 ≡ some value)
get-set stored now key value c v on live =
    let (c', e, w) = set-Writes stored key value c v in
    let (r, f, x) = get-Reads now key c' w.1 in
    let found = find-write c.max_entries c.ttl stored key value (entries c.ll) on in
    let fresh : is_expired c'.ttl now (stored + c.ttl) ≡ false = in_time c'.ttl now _ live in
    let hit = ap (find key) w.0 ∙ found in
    (c', r, e, f, x.1 ∙ read-live c'.ttl now key (entries c'.ll) hit fresh)
  where
    in_time : (ttl now expires : ℕ) → now ≤ expires → is_expired ttl now expires ≡ false
    in_time ttl now expires h = unfold is_expired in ground arith

read-Fresh :
    (ttl now : ℕ) (key : Text) (l : List Entry) (value : Text)
    → (read ttl now key l).1 ≡ some value
    → (e : Entry) × (find key l ≡ some e)
      × (e.value ≡ value)
      × (is_expired ttl now e.expires ≡ false)
unfolding read
read-Fresh ttl now key l value h = ground arith

-- What a read of a valid cache returns is the value of an entry with the key, and where entries expire, that
-- entry's time has not passed: no stale tile is served.
pub get-Fresh :
    (now : ℕ) (key : Text) (c : Cache) {c' : Cache} {value : Text}
    → IsValid c
    → get now key c ≡ some (c', some value)
    → (e : Entry) × (find key (entries c.ll) ≡ some e)
      × (e.value ≡ value)
      × ((c.ttl ≡ 0) ⊎ (now ≤ e.expires))
unfolding is_expired
get-Fresh now key c {c'} {value} v h =
    let (r, f, x) = get-Reads now key c v in
    let same : r.1 ≡ some value = cc in
    let (e, found, here, live) = read-Fresh c.ttl now key (entries c.ll) value (sym x.1 ∙ same) in
    (e, found, here, ground arith)

find-drop_key : (k j : Text) (l : List Entry) → k ≢ j → find j (drop_key k l) ≡ find j l
unfolding find drop_key
find-drop_key k j [] h = refl
find-drop_key k j (e ∷ l) h = ground (arith, find-drop_key k j l)

length-drop_key : (k : Text) (l : List Entry) → length (drop_key k l) ≤ length l
unfolding drop_key
length-drop_key k [] = omega arith
length-drop_key k (e ∷ l) = ground (arith, length-drop_key k l)

find-write_ne :
    (max_entries ttl now : ℕ) (key other value : Text) (l : List Entry)
    → length l < max_entries
    → key ≢ other
    → find other (write max_entries ttl now key value l) ≡ find other l
unfolding write find
find-write_ne max_entries ttl now key other value l room ne =
    let new : Entry = record { key = key; value = value; expires = now + ttl } in
    let fits =
      take-whole (new ∷ drop_key key l) max_entries (omega (arith, length-drop_key key l)) in
    ap (find other) fits ∙ ground (arith, find-drop_key key other l ne)

-- While a valid cache has room, a write changes no other key.
pub find-set_ne :
    (now : ℕ) (key other value : Text) (c : Cache)
    → IsValid c
    → length c.ll < c.max_entries
    → key ≢ other
    → (c' : Cache) × (set now key value c ≡ some c')
      × (find other (entries c'.ll) ≡ find other (entries c.ll))
find-set_ne now key other value c v room ne =
    let (c', e, w) = set-Writes now key value c v in
    let space : length (entries c.ll) < c.max_entries = rw (length-entries c.ll) room in
    (
      c',
      e,
      ap (find other) w.0
          ∙ find-write_ne c.max_entries c.ttl now key other value (entries c.ll) space ne,
    )

-- A purge reports how many entries there were, keeps the counters of hits, misses and evictions,
-- leaves a valid cache, and whatever key is read next is missed.
pub purge-missed :
    (now : ℕ) (key : Text) (c : Cache)
    → ((purge c).1 ≡ len c)
      × (((purge c).0).hits ≡ c.hits)
      × (((purge c).0).misses ≡ c.misses)
      × (((purge c).0).evictions ≡ c.evictions)
      × IsValid (purge c).0
      × ((r : Cache × Option Text) × (get now key (purge c).0 ≡ some r) × (r.1 ≡ none))
unfolding purge len read find
purge-missed now key c =
    let (r, e, x) = get-Reads now key (purge c).0 (purge-IsValid c) in
    (refl, refl, refl, refl, purge-IsValid c, (r, e, x.1))

-- The first read of an empty cache misses.
pub get-new :
    (now max_entries ttl : ℕ) (key : Text)
    → get now key (new (suc max_entries) ttl)
      ≡ some (record (new (suc max_entries) ttl) { misses = 1 }, none)
unfolding get new lookup
get-new now max_entries ttl key = ground arith
