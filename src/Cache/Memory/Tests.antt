-- ===== src/Cache/Memory/Tests.antt =====
-- Runs of the memory tier, and its theorems at concrete inputs.
use geoverse_map_server.Base.{ℕ, ◌≡◌, refl, List, [], ◌∷◌, Option, none, some, ℕ_discrete, ◌>>=◌}
use geoverse_map_server.Base.Dict.{lookup, insert, delete}
use geoverse_map_server.Base.Text.{Text, str, text_eq}
use geoverse_map_server.Cache.Memory.{
  Entry, Cache, is_expired, deref, remove, new, expire, refresh, get_element, get, discard, evict,
  overwrite, push, set, purge, len, stats,
}
use geoverse_map_server.Cache.Memory.Agree.{IsValid}
use geoverse_map_server.Cache.Memory.Set.{set-Writes}
use geoverse_map_server.Cache.Memory.History.{
  Call, get_call, set_call, step, run, Follows, new-IsValid, run-refines,
}

program : Unit {0}
unfolding is_expired deref remove new expire refresh get_element get discard evict overwrite push
    set purge step run lookup insert delete text_eq ℕ_discrete
program = tt

abbrev calls : List (ℕ × Call)
calls =
    (0, set_call (str "a/1") (7 ∷ []))
    ∷ (1, set_call (str "b/1") (8 ∷ 9 ∷ []))
    ∷ (2, get_call (str "a/1"))
    ∷ (3, set_call (str "c/1") (5 ∷ []))
    ∷ (4, get_call (str "b/1"))
    ∷ (20, get_call (str "a/1"))
    ∷ []

abbrev answers : List (Option Text)
answers = none ∷ none ∷ some (7 ∷ []) ∷ none ∷ none ∷ none ∷ []

-- Two places: the third write evicts the least recently used tile, and a tile expires.
run-calls : (run calls (new 2 10) >>= λ r. some r.1) ≡ some answers
unfolding program
run-calls = refl

run-refines_example :
    (r : Cache × List (Option Text)) × (run calls (new 2 10) ≡ some r) × Follows calls (new 2 10) r
run-refines_example = run-refines calls (new 2 10) (new-IsValid 2 10)

abbrev tile : Entry
tile = record { key = str "a/1"; value = 7 ∷ []; expires = 13 }

abbrev one : Cache
one = record (new 2 10) {
  ll = record { id = 0; entry = tile } ∷ [];
  items = (str "a/1", 0) ∷ [];
  fresh = 1;
  bytes = 1;
}

set-one : set 3 (str "a/1") (7 ∷ []) (new 2 10) ≡ some one
unfolding program
set-one = refl

one-IsValid : IsValid one
one-IsValid =
    let (c', e, w) = set-Writes 3 (str "a/1") (7 ∷ []) (new 2 10) (new-IsValid 2 10) in
    let same : c' ≡ one = cc (set-one, e) in rw same at (w.1)

get-one : get 9 (str "a/1") one ≡ some (record one { hits = 1 }, some (7 ∷ []))
unfolding program
get-one = refl

stats-one :
    stats one
    ≡ record { entries = 1; max_entries = 2; bytes = 1; hits = 0; misses = 0; evictions = 0 }
unfolding stats len new
stats-one = refl
