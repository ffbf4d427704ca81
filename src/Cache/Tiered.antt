-- ===== src/Cache/Tiered.antt =====
-- internal/cache/tiered.go: the memory tier in front of the disk tier. A nil pointer is `none`; a
-- method of a tier on a nil receiver does nothing. Each tier reads the clock by itself, so a call
-- takes a time for each. `none` as the result of a call is a panic.
pub mod Laws
mod Tests
use geoverse_map_server.Base.{ℕ, Bool, Option, none, some, true, false, if◌then◌else◌, ◌==◌, ◌>>=◌}
use geoverse_map_server.Base.Text.{Text}
use geoverse_map_server.Cache.Memory
use geoverse_map_server.Cache.Disk
use geoverse_map_server.Cache.Disk.{Disk, Files, ReadFaults, WriteFaults}
use geoverse_map_server.Cache.Disk.Path.{FilePath}

pub record Tiered : Type 0 where
  pub mem : Option Memory.Cache
  pub disk : Option Disk

-- `config.Cache` and `config.DiskCache`, without the directory's name.
pub record CacheConfig : Type 0 where
  pub enabled : Bool
  pub max_entries : ℕ
  pub ttl : ℕ
  pub disk_enabled : Bool
  pub disk_ttl : ℕ
  pub disk_max_size_mb : ℕ

pub data Built : Type 0 where
  off failed : Built
  built : Tiered → Built

-- `NewTiered`
pub new_tiered : Bool → Files → CacheConfig → Built
new_tiered mkdir_fails files cfg =
    if cfg.enabled
    then (let mem =
          if cfg.max_entries == 0 then none else some (Memory.new cfg.max_entries cfg.ttl) in
        if cfg.disk_enabled
        then elim (Disk.new_disk mkdir_fails cfg.disk_ttl cfg.disk_max_size_mb files) [
          | none ↦ failed
          | some d ↦ built (record { mem = mem; disk = some d })
        ]
        else built (record { mem = mem; disk = none }))
    else off

pub mem_get : ℕ → Text → Option Memory.Cache → Option (Option Memory.Cache × Option Text)
mem_get now key none = some (none, none)
mem_get now key (some c) =
    Memory.get now key c >>= λ (r : Memory.Cache × Option Text). some (some r.0, r.1)

pub mem_set : ℕ → Text → Text → Option Memory.Cache → Option (Option Memory.Cache)
mem_set now key value none = some none
mem_set now key value (some c) =
    Memory.set now key value c >>= λ (c' : Memory.Cache). some (some c')

pub disk_get : ReadFaults → ℕ → Text → Option Disk → Option Disk × Option Text
disk_get faults now key none = (none, none)
disk_get faults now key (some d) = let r = Disk.get faults now key d in (some r.0, r.1)

pub disk_set : WriteFaults → ℕ → Text → Text → Text → Option Disk → Option Disk
disk_set faults now suffix key value none = none
disk_set faults now suffix key value (some d) = some (Disk.set faults now suffix key value d)

-- The end of `Get`, by the answer of the disk: a hit is promoted to memory.
promote : ℕ → Text → Option Memory.Cache → Option Disk → Option Text → Option (Tiered × Option Text)
promote now key m d none = some (record { mem = m; disk = d }, none)
promote now key m d (some v) = mem_set now key v m >>= λ (m' : Option Memory.Cache).
    some (record { mem = m'; disk = d }, some v)

-- `Get` by the answer of the memory.
after_mem :
    ReadFaults
    → ℕ
    → ℕ
    → Text
    → Option Memory.Cache
    → Option Disk
    → Option Text
    → Option (Tiered × Option Text)
after_mem faults disk_now promote_now key m d (some v) = some (record { mem = m; disk = d }, some v)
after_mem faults disk_now promote_now key m d none =
    let r = disk_get faults disk_now key d in promote promote_now key m r.0 r.1

pub get : ReadFaults → ℕ → ℕ → ℕ → Text → Tiered → Option (Tiered × Option Text)
get faults now disk_now promote_now key t =
    mem_get now key t.mem >>= λ (r : Option Memory.Cache × Option Text).
    after_mem faults disk_now promote_now key r.0 t.disk r.1

pub set : WriteFaults → ℕ → ℕ → Text → Text → Text → Tiered → Option Tiered
set faults now disk_now suffix key value t =
    mem_set now key value t.mem >>= λ (m : Option Memory.Cache).
    some (record { mem = m; disk = disk_set faults disk_now suffix key value t.disk })

-- `Purge`: the entries dropped from each tier.
pub purge : (FilePath → Bool) → Tiered → Tiered × (ℕ × ℕ)
purge removable t =
    let m : Option Memory.Cache × ℕ = elim (t.mem) [
      | none ↦ (none, 0)
      | some c ↦ (some (Memory.purge c).0, (Memory.purge c).1)
    ] in
    let d : Option Disk × ℕ = elim (t.disk) [
      | none ↦ (none, 0)
      | some d ↦ (some (Disk.purge removable d).0, (Disk.purge removable d).1)
    ] in
    (record { mem = m.0; disk = d.0 }, (m.1, d.1))

-- `Stats`: a tier that is off has no snapshot. The stack off has none at all.
pub record Stats : Type 0 where
  pub enabled : Bool
  pub memory : Option Memory.MemStats
  pub disk : Option Disk.DiskStats

pub stats : Option Tiered → Stats
stats none = record { enabled = false; memory = none; disk = none }
stats (some t) = record {
  enabled = true;
  memory = elim (t.mem) [ none ↦ none | some c ↦ some (Memory.stats c) ];
  disk = elim (t.disk) [ none ↦ none | some d ↦ some (Disk.stats d) ];
}
