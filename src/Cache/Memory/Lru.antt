-- ===== src/Cache/Memory/Lru.antt =====
-- What the memory tier promises: a bounded list of entries, most recently used first, with no
-- pointers and no map.
use geoverse_map_server.Base.{ℕ, ◌+◌, List, [], ◌∷◌, Option, none, some, ite, take, if◌then◌else◌}
use geoverse_map_server.Base.Text.{Text, text_eq}
use geoverse_map_server.Cache.Memory.{Entry, is_expired}

unfoldable pub find : Text → List Entry → Option Entry
find key [] = none
find key (e ∷ l) = ite (text_eq e.key key) (some e) (find key l)

unfoldable pub drop_key : Text → List Entry → List Entry
drop_key key [] = []
drop_key key (e ∷ l) = let rest = drop_key key l in ite (text_eq e.key key) rest (e ∷ rest)

-- A read: the entries after it, and the answer.
unfoldable pub read : ℕ → ℕ → Text → List Entry → List Entry × Option Text
read ttl now key l = elim (find key l) [
  | none ↦ (l, none)
  | some e ↦
      if is_expired ttl now e.expires
      then (drop_key key l, none)
      else (e ∷ drop_key key l, some e.value)
]

-- A write: the new entry in front, and of the others what fits, the least recently used dropped.
unfoldable pub write : ℕ → ℕ → ℕ → Text → Text → List Entry → List Entry
write max_entries ttl now key value l =
    take max_entries (record { key = key; value = value; expires = now + ttl } ∷ drop_key key l)
