-- ===== src/Cache/Tiered/Laws.antt =====
-- What the stack of tiers promises.
use geoverse_map_server.Base.{
  ℕ, ◌+◌, ◌≤◌, ◌<◌, ◌≡◌, ◌⊎◌, inl, inr, refl, sym, Bool, true, Option, none, some, arith, subst,
  ◌==◌, if◌then◌else◌, Bool-cases,
}
use geoverse_map_server.Base.Text.{Text}
use geoverse_map_server.Base.Dict.{lookup}
use geoverse_map_server.Cache.Memory
use geoverse_map_server.Cache.Memory.{Cache, Entry, new}
use geoverse_map_server.Cache.Memory.Agree.{IsValid, entries}
use geoverse_map_server.Cache.Memory.Lru.{find}
use geoverse_map_server.Cache.Memory.Get.{get-Reads}
use geoverse_map_server.Cache.Memory.Set.{set-Writes}
use geoverse_map_server.Cache.Memory.History.{new-IsValid}
use geoverse_map_server.Cache.Memory.Laws as MemoryLaws
use geoverse_map_server.Cache.Disk
use geoverse_map_server.Cache.Disk.{Disk, File, Files, ReadFaults, WriteFaults}
use geoverse_map_server.Cache.Disk.Access
use geoverse_map_server.Cache.Disk.Path.{FilePath, path_eq, key_path}
use geoverse_map_server.Cache.Tiered.{
  Tiered, mem_get, mem_set, disk_get, disk_set, promote, after_mem, get, set, CacheConfig, built,
  new_tiered,
}

-- A memory tier that is there is valid.
abbrev pub MemValid : Option Cache → Type 0
MemValid none = Unit
MemValid (some c) = IsValid c

-- What a memory tier or a disk tier held when a read found it: an entry or a file that is not too
-- old.
abbrev pub InMemory : ℕ → Text → Text → Option Cache → Type 0
InMemory now key value none = ⊥
InMemory now key value (some c) =
    (e : Entry) × (find key (entries c.ll) ≡ some e)
    × (e.value ≡ value)
    × ((c.ttl ≡ 0) ⊎ (now ≤ e.expires))

abbrev pub OnDisk : ℕ → Text → Text → Option Disk → Type 0
OnDisk now key value none = ⊥
OnDisk now key value (some d) =
    (p : FilePath) × (f : File) × (key_path key ≡ some p)
    × (lookup path_eq p d.files ≡ some f)
    × (f.bytes ≡ value)
    × ((d.ttl ≡ 0) ⊎ (now ≤ f.mtime + d.ttl))

-- What an answer of the memory, or of the disk, rests on.
abbrev MemAnswers : ℕ → Text → Option Cache → Option Text → Type 0
MemAnswers now key m none = Unit
MemAnswers now key m (some v) = InMemory now key v m

abbrev DiskAnswers : ℕ → Text → Option Disk → Option Text → Type 0
DiskAnswers now key d none = Unit
DiskAnswers now key d (some v) = OnDisk now key v d

get-MemAnswers :
    (now : ℕ) (key : Text) (c : Cache) {c' : Cache} (a : Option Text)
    → IsValid c
    → Memory.get now key c ≡ some (c', a)
    → MemAnswers now key (some c) a
get-MemAnswers now key c none v h = tt
get-MemAnswers now key c (some x) v h = MemoryLaws.get-Fresh now key c v h

mem_get-total :
    (now : ℕ) (key : Text) (m : Option Cache)
    → MemValid m
    → (r : Option Cache × Option Text) × (mem_get now key m ≡ some r)
      × MemValid r.0
      × MemAnswers now key m r.1
unfolding mem_get
mem_get-total now key none v = ((none, none), refl, tt, tt)
mem_get-total now key (some c) v =
    let (r, e, x) = get-Reads now key c v in
    ((some r.0, r.1), rw e, x.2, get-MemAnswers now key c r.1 v e)

disk_get-DiskAnswers :
    (faults : ReadFaults) (now : ℕ) (key : Text) (d : Option Disk)
    → DiskAnswers now key d (disk_get faults now key d).1
unfolding disk_get
disk_get-DiskAnswers faults now key none = tt
disk_get-DiskAnswers faults now key (some d) = go (Disk.get faults now key d).1 refl
  where
    go : (a : Option Text) → (Disk.get faults now key d).1 ≡ a → DiskAnswers now key (some d) a
    go none e = tt
    go (some v) e = Access.get-Fresh_file faults now key d v e

mem_set-total :
    (now : ℕ) (key value : Text) (m : Option Cache)
    → MemValid m
    → (m' : Option Cache) × (mem_set now key value m ≡ some m') × MemValid m'
unfolding mem_set
mem_set-total now key value none v = (none, refl, tt)
mem_set-total now key value (some c) v =
    let (c', e, w) = set-Writes now key value c v in (some c', rw e, w.1)

promote-total :
    (now : ℕ) (key : Text) (m : Option Cache) (d : Option Disk) (a : Option Text)
    → MemValid m
    → (t : Tiered) × (promote now key m d a ≡ some (t, a)) × MemValid t.mem
unfolding promote
promote-total now key m d none v = (record { mem = m; disk = d }, refl, v)
promote-total now key m d (some x) v =
    let (m', e, w) = mem_set-total now key x m v in (record { mem = m'; disk = d }, rw e, w)

-- The answer of the first tier that has one.
first_answer : Option Text → Option Text → Option Text
first_answer (some v) other = some v
first_answer none other = other

after_mem-total :
    (faults : ReadFaults) (disk_now promote_now : ℕ) (key : Text) (m : Option Cache)
    (d : Option Disk) (a : Option Text)
    → MemValid m
    → (t : Tiered) × (after_mem faults disk_now promote_now key m d a
        ≡ some (t, first_answer a (disk_get faults disk_now key d).1))
      × MemValid t.mem
unfolding after_mem first_answer
after_mem-total faults disk_now promote_now key m d (some x) v =
    (record { mem = m; disk = d }, refl, v)
after_mem-total faults disk_now promote_now key m d none v =
    let r = disk_get faults disk_now key d in promote-total promote_now key m r.0 r.1 v

answered :
    (now disk_now : ℕ) (key : Text) (m : Option Cache) (d : Option Disk) (a b : Option Text)
    → MemAnswers now key m a
    → DiskAnswers disk_now key d b
    → (first_answer a b ≡ none)
      ⊎ (v : Text) × (first_answer a b ≡ some v) × (InMemory now key v m ⊎ OnDisk disk_now key v d)
unfolding first_answer
answered now disk_now key m d (some v) b x y = inr (v, refl, inl x)
answered now disk_now key m d none (some v) x y = inr (v, refl, inr y)
answered now disk_now key m d none none x y = inl refl

-- A read of a stack whose memory tier is valid does not panic, whatever fails on the disk, and the memory tier stays valid.
-- The answer is a live entry of the memory, or a file of the key that is not too old.
pub get-total :
    (faults : ReadFaults) (now disk_now promote_now : ℕ) (key : Text) (t : Tiered)
    → MemValid t.mem
    → (t' : Tiered) × (a : Option Text) × (get faults now disk_now promote_now key t ≡ some (t', a))
      × MemValid t'.mem
      × ((a ≡ none)
          ⊎ (v : Text) × (a ≡ some v) × (InMemory now key v t.mem ⊎ OnDisk disk_now key v t.disk))
unfolding get
get-total faults now disk_now promote_now key t v =
    let (r, e, w, held) = mem_get-total now key t.mem v in
    let (t', f, w') = after_mem-total faults disk_now promote_now key r.0 t.disk r.1 w in
    (
      t',
      first_answer r.1 (disk_get faults disk_now key t.disk).1,
      rw e f,
      w',
      answered now disk_now key t.mem t.disk r.1 (disk_get faults disk_now key t.disk).1 held
          (disk_get-DiskAnswers faults disk_now key t.disk),
    )

-- Where the memory tier is valid and on, a tile that was stored is read back while it is not too
-- old, whatever fails on the disk.
pub get-set_mem :
    (writes : WriteFaults) (reads : ReadFaults) (stored disk_stored now disk_now promote_now : ℕ)
    (suffix key value : Text) (t : Tiered) {c : Cache}
    → t.mem ≡ some c
    → IsValid c
    → 0 < c.max_entries
    → now ≤ stored + c.ttl
    → (t' t'' : Tiered) × (set writes stored disk_stored suffix key value t ≡ some t')
      × (get reads now disk_now promote_now key t' ≡ some (t'', some value))
unfolding set get mem_set mem_get after_mem
get-set_mem writes reads stored disk_stored now disk_now promote_now suffix key value t {c} there v
      on live =
    let (c', r, e, f, hit) = MemoryLaws.get-set stored now key value c v on live in
    let d = disk_set writes disk_stored suffix key value t.disk in
    (
      record { mem = some c'; disk = d },
      record { mem = some r.0; disk = d },
      rw (there, e),
      rw (f, hit),
    )

-- Where the memory tier is valid and on, a tile that only the disk has is promoted: the next read
-- finds it while it is not too old, whatever then fails on the disk.
pub get-get :
    (first second : ReadFaults) (now disk_now promote_now later disk_later promote_later : ℕ)
    (key value : Text) (c : Cache) (d : Disk) {c' : Cache}
    → IsValid c
    → 0 < c.max_entries
    → Memory.get now key c ≡ some (c', none)
    → (Disk.get first disk_now key d).1 ≡ some value
    → later ≤ promote_now + c.ttl
    → (t t' : Tiered) × (get first now disk_now promote_now key
          (record { mem = some c; disk = some d })
        ≡ some (t, some value))
      × (get second later disk_later promote_later key t ≡ some (t', some value))
unfolding get mem_set mem_get after_mem promote disk_get
get-get first second now disk_now promote_now later disk_later promote_later key value c d {c'} v on
      missed hit live =
    let (r, e, x) = get-Reads now key c v in
    let same : r.0 ≡ c' = cc in
    let valid : IsValid c' = rw same at (x.2) in
    let kept = rw same at (x.3) in
    let (c'', s, e', f, again) =
      MemoryLaws.get-set promote_now later key value c' valid (omega (arith, kept.0))
        (omega (arith, kept.1)) in
    let d' = (Disk.get first disk_now key d).0 in
    (
      record { mem = some c''; disk = some d' },
      record { mem = some s.0; disk = some d' },
      rw (missed, hit, e'),
      rw (f, again),
    )

new_tiered-mem :
    (mkdir_fails : Bool) (files : Files) (cfg : CacheConfig) (t : Tiered)
    → new_tiered mkdir_fails files cfg ≡ built t
    → (cfg.enabled ≡ true)
      × (t.mem ≡ (if cfg.max_entries == 0 then none else some (new cfg.max_entries cfg.ttl)))
unfolding new_tiered
new_tiered-mem mkdir_fails files cfg t h = ground arith

new-MemValid :
    (max_entries ttl : ℕ) → MemValid (if max_entries == 0 then none else some (new max_entries ttl))
new-MemValid max_entries ttl = elim (Bool-cases (max_entries == 0)) [
  | inl off ↦ rw off tt
  | inr on ↦ rw on (new-IsValid max_entries ttl)
]

-- A stack that was built is enabled, it has a memory tier exactly if that may hold an entry, and
-- the memory tier is new and valid.
pub new_tiered-MemValid :
    (mkdir_fails : Bool) (files : Files) (cfg : CacheConfig) (t : Tiered)
    → new_tiered mkdir_fails files cfg ≡ built t
    → (cfg.enabled ≡ true)
      × (t.mem ≡ (if cfg.max_entries == 0 then none else some (new cfg.max_entries cfg.ttl)))
      × MemValid t.mem
new_tiered-MemValid mkdir_fails files cfg t h =
    let (on, mem) = new_tiered-mem mkdir_fails files cfg t h in
    (on, mem, subst MemValid (sym mem) (new-MemValid cfg.max_entries cfg.ttl))

-- A write of a stack whose memory tier is valid does not panic, and keeps it valid.
pub set-total :
    (faults : WriteFaults) (now disk_now : ℕ) (suffix key value : Text) (t : Tiered)
    → MemValid t.mem
    → (t' : Tiered) × (set faults now disk_now suffix key value t ≡ some t') × MemValid t'.mem
unfolding set
set-total faults now disk_now suffix key value t v =
    let (m, e, w) = mem_set-total now key value t.mem v in
    (record { mem = m; disk = disk_set faults disk_now suffix key value t.disk }, rw e, w)
