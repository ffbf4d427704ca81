-- ===== src/Pmtiles.antt =====
-- internal/source/pmtiles/pmtiles.go, a source that reads tiles from a PMTiles v3 archive: the
-- numbers of the tiles (Hilbert), the directories (Varint, Directory) and the archive (Archive).
-- `New`, `OpenArchive`, `Ping` and `Close` only open, stat and close the file.
pub mod Hilbert
pub mod Varint
pub mod Directory
pub mod Archive
mod Tests
