-- ===== src/Cache/Disk/Entries.antt =====
-- Entries of the sweep, in any order, against the files of the directory.
use geoverse_map_server.Base.Lists.{Reordered}
use geoverse_map_server.Base.{
  ℕ, ◌+◌, ◌≤◌, ◌≡◌, ◌≢◌, refl, sym, ◌∙◌, Bool, true, List, [], ◌∷◌, some, length, if_pos, if_neg,
  arith, All,
}
use geoverse_map_server.Base.Dict.{lookup, delete, lookup-delete}
use geoverse_map_server.Cache.Disk.Path.{FilePath, path_eq}
use geoverse_map_server.Cache.Disk.{File, Files, DiskEntry, file_bytes}

-- The paths of a directory, each once.
abbrev pub Once : Files → Type 0
Once [] = Unit
Once ((p, f) ∷ files) = All (λ (e : FilePath × File). e.0 ≢ p) files × Once files

-- Every path is removable.
abbrev pub all_removable : FilePath → Bool
all_removable p = true

unfoldable pub entry_of : FilePath → File → DiskEntry
entry_of p f = record { path = p; size = length f.bytes; mtime = f.mtime }

unfoldable pub entries_of : Files → List DiskEntry
entries_of [] = []
entries_of ((p, f) ∷ files) = entry_of p f ∷ entries_of files

unfoldable pub sizes : List DiskEntry → ℕ
sizes [] = 0
sizes (e ∷ es) = e.size + sizes es

-- The oldest first.
abbrev pub OldestFirst : List DiskEntry → Type 0
OldestFirst [] = Unit
OldestFirst (e ∷ es) = All (λ (x : DiskEntry). e.mtime ≤ x.mtime) es × OldestFirst es

-- `sort.Slice` by age: some reordering with the oldest first.
pub record SortsByAge (sort : List DiskEntry → List DiskEntry) : Type 0 where
  pub reorders : (es : List DiskEntry) → Reordered (sort es) es
  pub oldest_first : (es : List DiskEntry) → OldestFirst (sort es)

-- An entry that names a file of the directory, with its size.
abbrev pub Present : Files → DiskEntry → Type 0
Present files e = (f : File) × (lookup path_eq e.path files ≡ some f) × (e.size ≡ length f.bytes)

abbrev pub DistinctPaths : List DiskEntry → Type 0
DistinctPaths [] = Unit
DistinctPaths (e ∷ es) = All (λ (x : DiskEntry). x.path ≢ e.path) es × DistinctPaths es

module _ {P Q : DiskEntry → Type 0} where
  pub All-weaken : (es : List DiskEntry) → ((e : DiskEntry) → P e → Q e) → All P es → All Q es
  All-weaken [] h a = tt
  All-weaken (e ∷ es) h a = (h e a.0, All-weaken es h a.1)

  pub All-zip :
      {R : DiskEntry → Type 0} (es : List DiskEntry)
      → ((e : DiskEntry) → P e → Q e → R e)
      → All P es
      → All Q es
      → All R es
  All-zip [] h a b = tt
  All-zip {R} (e ∷ es) h a b = (h e a.0 b.0, All-zip {R = R} es h a.1 b.1)

pub All-perm :
    (P : DiskEntry → Type 0) {es es' : List DiskEntry} → Reordered es es' → All P es' → All P es
All-perm P Reordered.nil a = a
All-perm P (Reordered.cons e p) a = (a.0, All-perm P p a.1)
All-perm P (Reordered.swap x y es) a = (a.1.0, (a.0, a.1.1))
All-perm P (Reordered.trans p q) a = All-perm P p (All-perm P q a)

pub DistinctPaths-perm :
    {es es' : List DiskEntry} → Reordered es es' → DistinctPaths es' → DistinctPaths es
DistinctPaths-perm Reordered.nil d = d
DistinctPaths-perm (Reordered.cons e p) d =
    (All-perm (λ x. x.path ≢ e.path) p d.0, DistinctPaths-perm p d.1)
DistinctPaths-perm (Reordered.swap x y es) d = (((λ e. d.0.0 (sym e)), d.1.0), (d.0.1, d.1.1))
DistinctPaths-perm (Reordered.trans p q) d = DistinctPaths-perm p (DistinctPaths-perm q d)

pub sizes-perm : {es es' : List DiskEntry} → Reordered es es' → sizes es ≡ sizes es'
unfolding sizes
sizes-perm Reordered.nil = refl
sizes-perm (Reordered.cons e p) = omega (arith, sizes-perm p)
sizes-perm (Reordered.swap x y es) = omega arith
sizes-perm (Reordered.trans p q) = sizes-perm p ∙ sizes-perm q

pub sizes-entries_of : (files : Files) → sizes (entries_of files) ≡ file_bytes files
unfolding sizes entries_of entry_of file_bytes
sizes-entries_of [] = refl
sizes-entries_of ((p, f) ∷ files) = omega (arith, sizes-entries_of files)

-- The entries of a directory are present in it, under distinct paths.
Present-cons :
    (p : FilePath) (f : File) (files : Files) (e : DiskEntry)
    → e.path ≢ p
    → Present files e
    → Present ((p, f) ∷ files) e
unfolding lookup
Present-cons p f files e ne (g, there, size) = (g, ground arith, size)

paths-ne :
    (p : FilePath) (files : Files)
    → All (λ (e : FilePath × File). e.0 ≢ p) files
    → All (λ (e : DiskEntry). e.path ≢ p) (entries_of files)
unfolding entries_of entry_of
paths-ne p [] h = tt
paths-ne p ((q, f) ∷ files) h = (h.0, paths-ne p files h.1)

pub Present-entries : (files : Files) → Once files → All (Present files) (entries_of files)
unfolding entries_of entry_of lookup
Present-entries [] o = tt
Present-entries ((p, f) ∷ files) o = (
  (f, ground arith, refl),
  All-zip {P = λ e. e.path ≢ p} {Q = Present files} {R = Present ((p, f) ∷ files)}
      (entries_of files) (Present-cons p f files) (paths-ne p files o.0)
      (Present-entries files o.1),
)

pub DistinctPaths-entries : (files : Files) → Once files → DistinctPaths (entries_of files)
unfolding entries_of entry_of
DistinctPaths-entries [] o = tt
DistinctPaths-entries ((p, f) ∷ files) o = (paths-ne p files o.0, DistinctPaths-entries files o.1)

delete-absent :
    (p : FilePath) (files : Files)
    → All (λ (e : FilePath × File). e.0 ≢ p) files
    → delete path_eq p files ≡ files
unfolding delete
delete-absent p [] h = refl
delete-absent p ((q, f) ∷ files) h = ground (arith, h.0, delete-absent p files h.1)

-- The deletion of a file frees its bytes.
pub file_bytes-delete :
    (p : FilePath) (f : File) (files : Files)
    → Once files
    → lookup path_eq p files ≡ some f
    → file_bytes files ≡ length f.bytes + file_bytes (delete path_eq p files)
unfolding file_bytes delete lookup
file_bytes-delete p f [] o h = absurd (cc)
file_bytes-delete p f ((q, g) ∷ files) o h = elim (path_eq q p) [
  | yes e ↦
      let gone : delete path_eq p files ≡ files = delete-absent p files (rw e at (o.0)) in
      ground (arith, gone)
  | no n ↦ ground (arith, file_bytes-delete p f files o.1)
]

ne-delete :
    (p q : FilePath) (files : Files)
    → All (λ (e : FilePath × File). e.0 ≢ q) files
    → All (λ (e : FilePath × File). e.0 ≢ q) (delete path_eq p files)
unfolding delete
ne-delete p q [] h = tt
ne-delete p q ((r, g) ∷ files) h = elim (path_eq r p) [
  | yes e ↦ rw (if_pos _ e) (ne-delete p q files h.1)
  | no n ↦ rw (if_neg _ n) (h.0, ne-delete p q files h.1)
]

pub Once-delete : (p : FilePath) (files : Files) → Once files → Once (delete path_eq p files)
unfolding delete
Once-delete p [] o = tt
Once-delete p ((r, g) ∷ files) o = elim (path_eq r p) [
  | yes e ↦ rw (if_pos _ e) (Once-delete p files o.1)
  | no n ↦ rw (if_neg _ n) (ne-delete p r files o.0, Once-delete p files o.1)
]

pub Present-delete :
    (p : FilePath) (files : Files) (e : DiskEntry)
    → e.path ≢ p
    → Present files e
    → Present (delete path_eq p files) e
Present-delete p files e ne (f, there, size) =
    (f, ground (arith, lookup-delete path_eq p e.path files), size)
