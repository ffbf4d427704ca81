-- ===== src/Pmtiles/Archive/Load.antt =====
-- What is known of an archive that `load` accepted.
use geoverse_map_server.Base.{
  ◌<◌, ◌≤◌, ◌≡◌, refl, Bool, true, false, List, Option, length, get_or, take, arith, if◌then◌else◌,
}
use geoverse_map_server.Base.Text.{Text, str}
use geoverse_map_server.Base.Results.{Result, ok, error, and_then}
use geoverse_map_server.Pmtiles.Directory.{DirectoryEntry, DirectoryError, decode_directory}
use geoverse_map_server.Pmtiles.Archive.{
  Header, ArchiveError, header_length, header_of, checked_header, parse_header, TileFormat,
  format_for_tile_type, read_at, read_section, Metadata, ArchiveConfig, Source, in_directory,
  is_supported, tile_info, load_sections, load_header, load,
}

-- A step that succeeded.
and_then-ok :
    {A B E : Type 0} (r : Result A E) (f : A → Result B E) (b : B)
    → and_then r f ≡ ok b
    → (a : A) × (r ≡ ok a) × (f a ≡ ok b)
and_then-ok (ok a) f b h = (a, refl, h)
and_then-ok (error e) f b h = absurd (ground arith)

in_directory-ok :
    {A : Type 0} (r : Result A DirectoryError) (a : A) → in_directory r ≡ ok a → r ≡ ok a
unfolding in_directory
in_directory-ok (ok a) a' h = cc
in_directory-ok (error e) a' h = absurd (ground arith)

-- What a header that was accepted has, besides its fields.
pub record IsHeader (raw : Text) (h : Header) : Type 0 where
  pub whole : length raw ≡ header_length
  pub magic : take 7 raw ≡ str "PMTiles"
  pub version : get_or raw 7 0 ≡ 3
  pub fields : h ≡ header_of raw
  pub root : 0 < h.root_length
  pub zooms : h.min_zoom ≤ h.max_zoom

-- The guards, one after another.
guard :
    {A E : Type 0} (t : Bool) (e : E) (r : Result A E) (a : A)
    → (if t then error e else r) ≡ ok a
    → (t ≡ false) × (r ≡ ok a)
guard true e r a h = absurd (ground arith)
guard false e r a h = (refl, h)

checked_header-kept : (raw : Text) (f h : Header) → checked_header raw f ≡ ok h → h ≡ f
unfolding checked_header
checked_header-kept raw f h e = ground arith

checked_header-checks :
    (raw : Text) (f h : Header)
    → checked_header raw f ≡ ok h
    → (length raw ≡ header_length)
      × (take 7 raw ≡ str "PMTiles")
      × (get_or raw 7 0 ≡ 3)
      × (0 < f.root_length)
      × (f.min_zoom ≤ f.max_zoom)
unfolding checked_header
checked_header-checks raw f h e = ground arith

checked_header-IsHeader :
    (raw : Text) (h : Header) → checked_header raw (header_of raw) ≡ ok h → IsHeader raw h
checked_header-IsHeader raw h e =
    let same = checked_header-kept raw (header_of raw) h e in
    let c = checked_header-checks raw (header_of raw) h e in
    rw same
      (record { whole = c.0; magic = c.1; version = c.2; fields = refl; root = c.3; zooms = c.4 })

-- The directory that a header points to.
abbrev pub root_of :
    (Text → Option Text) → Text → Header → Result (List DirectoryEntry) ArchiveError
root_of gunzip file h =
    and_then (read_section file h.root_offset h.root_length)
      (λ raw. in_directory (decode_directory gunzip raw h.internal_comp))

-- An archive that was accepted: what the source holds, and where it comes from.
pub record IsLoaded (gunzip : Text → Option Text) (file : Text) (s : Source) : Type 0 where
  pub file_kept : s.file ≡ file
  pub header : IsHeader (take header_length file) s.head
  pub internal : is_supported s.head.internal_comp ≡ true
  pub tiles : is_supported s.head.tile_comp ≡ true
  pub format : format_for_tile_type s.head.tile_type ≡ ok s.info.format
  pub directory : root_of gunzip file s.head ≡ ok s.root

read_at-header :
    (file raw : Text) → read_at file 0 header_length ≡ ok raw → raw ≡ take header_length file
unfolding read_at
read_at-header file raw h = ground arith

load_sections-kept :
    (gunzip : Text → Option Text) (parse : Text → Option Metadata) (cfg : ArchiveConfig)
    (file : Text) (h : Header) (format : TileFormat) (s : Source)
    → load_sections gunzip parse cfg file h format ≡ ok s
    → (s.file ≡ file)
      × (s.head ≡ h)
      × (s.info.format ≡ format)
      × (root_of gunzip file h ≡ ok s.root)
unfolding load_sections tile_info
load_sections-kept gunzip parse cfg file h format s e = ground arith

load_header-checks :
    (gunzip : Text → Option Text) (parse : Text → Option Metadata) (cfg : ArchiveConfig)
    (file : Text) (h : Header) (s : Source)
    → load_header gunzip parse cfg file h ≡ ok s
    → (is_supported h.internal_comp ≡ true)
      × (is_supported h.tile_comp ≡ true)
      × (s.file ≡ file)
      × (s.head ≡ h)
      × (format_for_tile_type h.tile_type ≡ ok s.info.format)
      × (root_of gunzip file h ≡ ok s.root)
unfolding load_header
load_header-checks gunzip parse cfg file h s e =
    grind (arith, load_sections-kept gunzip parse cfg file h)

-- An archive that `load` accepts has a whole header of version 3 that is consistent, compressions
-- and a tile type that are supported, and the root directory that the header points to.
pub load-IsLoaded :
    (gunzip : Text → Option Text) (parse : Text → Option Metadata) (cfg : ArchiveConfig)
    (file : Text) (s : Source)
    → load gunzip parse cfg file ≡ ok s
    → IsLoaded gunzip file s
unfolding load parse_header
load-IsLoaded gunzip parse cfg file s e =
    let (raw, a, e1) =
      and_then-ok (read_at file 0 header_length)
        (λ raw. and_then (parse_header raw) (load_header gunzip parse cfg file)) s e in
    let (h, b, e2) = and_then-ok (parse_header raw) (load_header gunzip parse cfg file) s e1 in
    let (internal, tiles, same_file, same_head, format, root) =
      load_header-checks gunzip parse cfg file h s e2 in
    let header = rw (read_at-header file raw a, ← same_head) at (checked_header-IsHeader raw h b) in
    record {
      file_kept = same_file;
      header = header;
      internal = rw (← same_head) at internal;
      tiles = rw (← same_head) at tiles;
      format = rw (← same_head) at format;
      directory = rw (← same_head) at root;
    }
