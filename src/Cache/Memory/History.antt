-- ===== src/Cache/Memory/History.antt =====
-- Whole histories of calls on the memory tier, against the abstract cache.
use geoverse_map_server.Base.{ℕ, ◌≡◌, refl, ap₂, List, [], ◌∷◌, Option, none, some, arith, ◌>>=◌}
use geoverse_map_server.Base.Text.{Text}
use geoverse_map_server.Base.Dict.{lookup}
use geoverse_map_server.Cache.Memory.{Entry, Cache, new, get, set, purge}
use geoverse_map_server.Cache.Memory.Lru.{read, write}
use geoverse_map_server.Cache.Memory.Agree.{entries, IsValid, size, find_element}
use geoverse_map_server.Cache.Memory.Get.{get-Reads}
use geoverse_map_server.Cache.Memory.Set.{set-Writes}

pub data Call : Type 0 where
  get_call : Text → Call
  set_call : Text → Text → Call
  purge_call : Call

-- One call at a time of the clock; only a read has an answer.
unfoldable pub step : ℕ → Call → Cache → Option (Cache × Option Text)
step now (get_call key) c = get now key c
step now (set_call key value) c = do c' ← set now key value c; some (c', none)
step now purge_call c = some ((purge c).0, none)

unfoldable pub run : List (ℕ × Call) → Cache → Option (Cache × List (Option Text))
run [] c = some (c, [])
run ((now, call) ∷ calls) c = step now call c >>= λ (r : Cache × Option Text).
    run calls r.0 >>= λ (s : Cache × List (Option Text)). some (s.0, r.1 ∷ s.1)

-- The same calls on the abstract cache.
unfoldable pub spec_step : ℕ → ℕ → ℕ → Call → List Entry → List Entry × Option Text
spec_step max_entries ttl now (get_call key) l = read ttl now key l
spec_step max_entries ttl now (set_call key value) l = (write max_entries ttl now key value l, none)
spec_step max_entries ttl now purge_call l = ([], none)

unfoldable pub spec_run : ℕ → ℕ → List (ℕ × Call) → List Entry → List Entry × List (Option Text)
spec_run max_entries ttl [] l = (l, [])
spec_run max_entries ttl ((now, call) ∷ calls) l =
    let r = spec_step max_entries ttl now call l in
    let s = spec_run max_entries ttl calls r.0 in (s.0, r.1 ∷ s.1)

pub new-IsValid : (max_entries ttl : ℕ) → IsValid (new max_entries ttl)
unfolding new lookup find_element size
new-IsValid max_entries ttl = record {
  linked = record { agree = λ k. refl; keys = tt; ids = tt; allocated = tt; counted = refl };
  bounded = omega arith;
}

pub purge-IsValid : (c : Cache) → IsValid (purge c).0
unfolding purge lookup find_element size
purge-IsValid c = record {
  linked = record { agree = λ k. refl; keys = tt; ids = tt; allocated = tt; counted = refl };
  bounded = omega arith;
}

-- What a history leaves.
abbrev pub Follows : List (ℕ × Call) → Cache → Cache × List (Option Text) → Type 0
Follows calls c r =
    (entries (r.0).ll ≡ (spec_run c.max_entries c.ttl calls (entries c.ll)).0)
    × (r.1 ≡ (spec_run c.max_entries c.ttl calls (entries c.ll)).1)
    × IsValid r.0

step-refines :
    (now : ℕ) (call : Call) (c : Cache)
    → IsValid c
    → (r : Cache × Option Text) × (step now call c ≡ some r)
      × (entries (r.0).ll ≡ (spec_step c.max_entries c.ttl now call (entries c.ll)).0)
      × (r.1 ≡ (spec_step c.max_entries c.ttl now call (entries c.ll)).1)
      × IsValid r.0
      × ((r.0).max_entries ≡ c.max_entries)
      × ((r.0).ttl ≡ c.ttl)
unfolding step spec_step purge
step-refines now (get_call key) c v =
    let (r, e, h) = get-Reads now key c v in (r, e, h.0, h.1, h.2, h.3.0, h.3.1)
step-refines now (set_call key value) c v =
    let (c', e, h) = set-Writes now key value c v in
    ((c', none), rw e, h.0, refl, h.1, h.2.0, h.2.1)
step-refines now purge_call c v =
    (((purge c).0, none), refl, refl, refl, purge-IsValid c, refl, refl)

-- Every history of reads, writes and purges of a valid cache runs without a panic, gives the
-- answers of the abstract least-recently-used cache and leaves its entries, in its order, in a
-- valid cache.
pub run-refines :
    (calls : List (ℕ × Call)) (c : Cache)
    → IsValid c
    → (r : Cache × List (Option Text)) × (run calls c ≡ some r) × Follows calls c r
unfolding run spec_run
run-refines [] c v = ((c, []), refl, (refl, refl, v))
run-refines ((now, call) ∷ calls) c v =
    let (r, e, same, answer, valid, bound, life) = step-refines now call c v in
    let (s, f, h) = run-refines calls r.0 valid in
    let start = rw (bound, life, same) at h in
    ((s.0, r.1 ∷ s.1), rw (e, f), (start.0, ap₂ ◌∷◌ answer start.1, h.2))
