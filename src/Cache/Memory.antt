-- ===== src/Cache/Memory.antt =====
-- internal/cache/cache.go: the in-memory tier, a map into a doubly linked list, most recently used
-- first. A list element is a cell with an identity, which stands for its pointer; the map holds
-- identities. The clock is an argument, in nanoseconds; a duration or a bound that is not positive
-- is 0, which the code treats alike. Counters are words of 64 bits. `none` is a panic of Go, the
-- dereference of a nil element or of one that is not in the list.
pub mod Lru
pub mod Agree
pub mod Found
pub mod Get
pub mod Set
pub mod History
pub mod Laws
mod Tests
use geoverse_map_server.Base.{
  ℕ, zero, suc, ◌+◌, ◌-◌, ◌%◌, ◌^◌, ◌≡◌, Bool, ◌&&◌, List, [], ◌∷◌, Option, none, some, ite, length,
  ltb, ◌==◌, if◌then◌else◌, unsnoc, ◌>>=◌, ℕ_discrete,
}
use geoverse_map_server.Base.Dict.{Dict, lookup, insert, delete}
use geoverse_map_server.Base.Text.{Text, text_eq}

pub record Entry : Type 0 where
  pub key : Text
  pub value : Text
  pub expires : ℕ

-- `*list.Element`: its identity and its value.
pub record Element : Type 0 where
  pub id : ℕ
  pub entry : Entry
  pub open entry use *

pub record Cache : Type 0 where
  pub max_entries : ℕ
  pub ttl : ℕ
  pub ll : List Element
  pub items : Dict Text ℕ
  -- the identity of the next element that is allocated
  pub fresh : ℕ
  pub hits : ℕ
  pub misses : ℕ
  pub evictions : ℕ
  pub bytes : ℕ

abbrev pub word : ℕ
word = 2 ^ 64

-- `Add` on an atomic counter, and `Add` of a negated length.
abbrev pub add64 : ℕ → ℕ → ℕ
add64 a b = (a + b) % word

abbrev pub sub64 : ℕ → ℕ → ℕ
sub64 a b = (a + word - b % word) % word

unfoldable pub new : ℕ → ℕ → Cache
new max_entries ttl = record {
  max_entries = max_entries;
  ttl = ttl;
  ll = [];
  items = [];
  fresh = 0;
  hits = 0;
  misses = 0;
  evictions = 0;
  bytes = 0;
}

-- The element that a pointer leads to.
unfoldable pub deref : ℕ → List Element → Option Element
deref p [] = none
deref p (el ∷ l) = if el.id == p then some el else deref p l

-- `ll.Remove(el)`
unfoldable pub remove : ℕ → List Element → List Element
remove p [] = []
remove p (el ∷ l) = let rest = remove p l in if el.id == p then l else el ∷ rest

-- `ll.MoveToFront(el)`
abbrev pub move_to_front : Element → List Element → List Element
move_to_front el l = el ∷ remove el.id l

-- `time.Now().After(en.expires)`, where expiry is on.
unfoldable pub is_expired : ℕ → ℕ → ℕ → Bool
is_expired ttl now expires = ltb 0 ttl && ltb expires now

-- `Get` of an element that is too old: it is dropped.
expire : Text → Cache → Element → Cache
expire key c el = record c {
  ll = remove el.id c.ll;
  items = delete text_eq key c.items;
  bytes = sub64 c.bytes (length el.value);
  misses = add64 c.misses 1;
}

-- `Get` of a live element: it becomes the most recently used.
refresh : Cache → Element → Cache
refresh c el = record c { ll = move_to_front el c.ll; hits = add64 c.hits 1 }

get_element : ℕ → Text → Cache → Element → Cache × Option Text
get_element now key c el =
    if is_expired c.ttl now el.expires
    then (expire key c el, none)
    else (refresh c el, some el.value)

pub get : ℕ → Text → Cache → Option (Cache × Option Text)
get now key c = if c.max_entries == 0 then some (c, none) else elim (lookup text_eq key c.items) [
  | none ↦ some (record c { misses = add64 c.misses 1 }, none)
  | some p ↦ do el ← deref p c.ll; some (get_element now key c el)
]

-- One round of the loop of `Set` that evicts: the last element goes, the others stay.
discard : Cache → List Element → Element → Cache
discard c others last = record c {
  ll = others;
  items = delete text_eq last.key c.items;
  bytes = sub64 c.bytes (length last.value);
  evictions = add64 c.evictions 1;
}

-- The loop itself. It takes one round for each element at most.
evict : ℕ → Cache → Option Cache
evict zero c = if ltb c.max_entries (length c.ll) then none else some c
evict (suc fuel) c =
    let rest = unsnoc c.ll >>= λ (r : List Element × Element). evict fuel (discard c r.0 r.1) in
    if ltb c.max_entries (length c.ll) then rest else some c

-- The branch of `Set` that overwrites a present entry.
overwrite : ℕ → Text → Cache → Element → Cache
overwrite now value c el =
    let renewed : Element = record {
      id = el.id;
      entry = record { key = el.key; value = value; expires = now + c.ttl };
    } in
    record c {
      ll = move_to_front renewed c.ll;
      bytes = sub64 (add64 c.bytes (length value)) (length el.value);
    }

-- The branch of `Set` that allocates an element.
push : ℕ → Text → Text → Cache → Cache
push now key value c =
    let el : Element = record {
      id = c.fresh;
      entry = record { key = key; value = value; expires = now + c.ttl };
    } in
    record c {
      ll = el ∷ c.ll;
      items = insert text_eq key c.fresh c.items;
      fresh = c.fresh + 1;
      bytes = add64 c.bytes (length value);
    }

pub set : ℕ → Text → Text → Cache → Option Cache
set now key value c = if c.max_entries == 0 then some c else elim (lookup text_eq key c.items) [
  | none ↦ evict (length c.ll + 1) (push now key value c)
  | some p ↦ do el ← deref p c.ll; some (overwrite now value c el)
]

pub len : Cache → ℕ
len c = length c.ll

-- `Purge` keeps the counters of hits, misses and evictions.
unfoldable pub purge : Cache → Cache × ℕ
purge c = (record c { ll = []; items = []; bytes = 0 }, length c.ll)

-- `MemStats`, less the two floating-point fields.
pub record MemStats : Type 0 where
  pub entries : ℕ
  pub max_entries : ℕ
  pub bytes : ℕ
  pub hits : ℕ
  pub misses : ℕ
  pub evictions : ℕ

pub stats : Cache → MemStats
stats c = record {
  entries = len c;
  max_entries = c.max_entries;
  bytes = c.bytes;
  hits = c.hits;
  misses = c.misses;
  evictions = c.evictions;
}
