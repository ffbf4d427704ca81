-- ===== src/Cache/Tiered/Tests.antt =====
-- Runs of the stack of tiers, and its theorems at concrete inputs.
use geoverse_map_server.Base.{
  ◌≡◌, ◌⊎◌, refl, true, false, [], ◌∷◌, Option, none, some, arith, ℕ_discrete,
}
use geoverse_map_server.Base.Dict.{lookup}
use geoverse_map_server.Base.Text.{Text, str, text_eq}
use geoverse_map_server.Cache.Memory
use geoverse_map_server.Cache.Memory.{Cache}
use geoverse_map_server.Cache.Memory.History.{new-IsValid}
use geoverse_map_server.Cache.Memory.Laws.{get-new}
use geoverse_map_server.Cache.Disk
use geoverse_map_server.Cache.Disk.{Disk, ReadFaults}
use geoverse_map_server.Cache.Disk.Path.{path_eq, key_path, split}
use geoverse_map_server.Cache.Disk.Access.{no_read_faults, no_write_faults}
use geoverse_map_server.Cache.Tiered.{
  Tiered, CacheConfig, built, new_tiered, disk_set, get, purge, stats,
}
use geoverse_map_server.Cache.Tiered.Laws.{MemValid, InMemory, OnDisk, get-total}

program : Unit {0}
unfolding key_path path_eq split lookup text_eq ℕ_discrete Disk.get Disk.get_file Disk.is_old
program = tt

abbrev key : Text
key = str "roads/3/1"

abbrev disk : Disk
disk = record {
  ttl = 100;
  max_bytes = 0;
  files = (str "roads" ∷ str "3" ∷ str "1" ∷ [], record { bytes = str "abcd"; mtime = 30 }) ∷ [];
  hits = 0;
  misses = 0;
}

abbrev tiers : Tiered
tiers = record { mem = some (Memory.new 2 10); disk = some disk }

get-total_example :
    (t' : Tiered) × (a : Option Text) × (get no_read_faults 40 41 42 key tiers ≡ some (t', a))
    × MemValid t'.mem
    × ((a ≡ none)
        ⊎ (v : Text) × (a ≡ some v) × (InMemory 40 key v tiers.mem ⊎ OnDisk 41 key v tiers.disk))
get-total_example = get-total no_read_faults 40 41 42 key tiers (new-IsValid 2 10)

-- A disk whose reads fail does not matter to a tile that is in memory.
abbrev broken : ReadFaults
broken = record { stat = true; remove = true; read = true }

missed : Memory.get 40 key (Memory.new 2 10) ≡ some (record (Memory.new 2 10) { misses = 1 }, none)
missed = get-new 40 1 10 key

hit : (Disk.get no_read_faults 41 key disk).1 ≡ some (str "abcd")
unfolding program
hit = refl

abbrev config : CacheConfig
config = record {
  enabled = true;
  max_entries = 2;
  ttl = 10;
  disk_enabled = false;
  disk_ttl = 0;
  disk_max_size_mb = 0;
}

abbrev memory_only : Tiered
memory_only = record { mem = some (Memory.new 2 10); disk = none }

built_memory : new_tiered false [] config ≡ built memory_only
unfolding new_tiered
built_memory = ground arith

-- A tier that is off is purged of nothing and has no snapshot.
purged : (purge (λ p. true) memory_only).1 ≡ (0, 0)
unfolding purge Memory.new Memory.purge
purged = refl

no_snapshot : (stats (some memory_only)).disk ≡ none
unfolding stats
no_snapshot = refl

-- A write to a tier that is off.
nowhere : disk_set no_write_faults 41 (str "1") key (str "new") none ≡ none
unfolding disk_set
nowhere = refl
