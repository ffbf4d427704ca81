-- ===== src/Pmtiles/Directory/Search.antt =====
-- `findEntry`: the binary search against a scan of the directory.
use geoverse_map_server.Base.{
  ℕ, zero, suc, ◌+◌, ◌-◌, ◌/◌, ◌<◌, ◌≤◌, ◌≡◌, refl, ap, ◌∙◌, Bool, true, false, List, [], ◌∷◌,
  Option, none, some, length, get_elem?, arith, ltb, leb, ◌==◌, if◌then◌else◌, Bool-cases, inl, inr,
}
use geoverse_map_server.Pmtiles.Directory.{
  DirectoryEntry, search_between, sort_search, is_after, covers, entry_if, find_entry,
}
use geoverse_map_server.Pmtiles.Directory.Writer.{Ascending}

-- How many entries at the front have numbers up to `id`.
count_le : ℕ → List DirectoryEntry → ℕ
count_le id [] = 0
count_le id (e ∷ es) = let rest = count_le id es in if ltb id e.tile_id then 0 else suc rest

-- The last of them.
unfoldable pub last_entry : ℕ → List DirectoryEntry → Option DirectoryEntry
last_entry id [] = none
last_entry id (e ∷ es) =
    let rest = last_entry id es in
    if ltb id e.tile_id then none else elim rest [ none ↦ some e | some e' ↦ some e' ]

count_le-length : (id : ℕ) (es : List DirectoryEntry) → count_le id es ≤ length es
unfolding count_le
count_le-length id [] = omega arith
count_le-length id (e ∷ es) = ground (arith, count_le-length id es)

-- All the entries after one that is too high are too high.
is_after-high :
    (id low i : ℕ) (es : List DirectoryEntry)
    → Ascending low es
    → id < low
    → is_after es id i ≡ true
unfolding is_after
is_after-high id low i [] s h = refl
is_after-high id low zero (e ∷ es) s h = ground (arith, s.0)
is_after-high id low (suc i) (e ∷ es) s h = is_after-high id e.tile_id i es s.1 (omega (arith, s.0))

is_after-count :
    (id low i : ℕ) (es : List DirectoryEntry)
    → Ascending low es
    → is_after es id i ≡ leb (count_le id es) i
unfolding is_after count_le
is_after-count id low i [] s = ground arith
is_after-count id low zero (e ∷ es) s = ground arith
is_after-count id low (suc i) (e ∷ es) s = elim (Bool-cases (ltb id e.tile_id)) [
  | inl high ↦ rw high (is_after-high id e.tile_id i es s.1 (ground arith) ∙ ground arith)
  | inr low ↦ rw low (is_after-count id e.tile_id i es s.1 ∙ ground arith)
]

-- The loop of `sort.Search` finds the boundary of a test that holds from `c` on.
search_between-boundary :
    (fuel : ℕ) (f : ℕ → Bool) (c i j : ℕ)
    → ((h : ℕ) → f h ≡ leb c h)
    → i ≤ c
    → c ≤ j
    → j ≤ fuel + i
    → search_between fuel f i j ≡ c
unfolding search_between
search_between-boundary zero f c i j b l u e = omega arith
search_between-boundary (suc fuel) f c i j b l u e = elim (Bool-cases (ltb i j)) [
  | inr done ↦ rw done (ground arith)
  | inl more ↦
      let middle = b ((i + j) / 2) in
      elim (Bool-cases (f ((i + j) / 2))) [
        | inl here ↦
            rw (more, here)
              (search_between-boundary fuel f c i ((i + j) / 2) b l (ground arith) (ground arith))
        | inr later ↦
            rw (more, later)
              (search_between-boundary fuel f c ((i + j) / 2 + 1) j b (ground arith) u
                (ground arith))
      ]
]

last_entry-none : (id : ℕ) (es : List DirectoryEntry) → count_le id es ≡ 0 → last_entry id es ≡ none
unfolding count_le last_entry
last_entry-none id [] h = refl
last_entry-none id (e ∷ es) h = ground arith

get_elem?-count :
    (id c : ℕ) (es : List DirectoryEntry)
    → count_le id es ≡ suc c
    → (e : DirectoryEntry) × (get_elem? es c ≡ some e) × (last_entry id es ≡ some e)
unfolding count_le last_entry
get_elem?-count id c [] h = absurd (omega arith)
get_elem?-count id zero (e ∷ es) h = (e, refl, ground (arith, last_entry-none id es))
get_elem?-count id (suc c) (e ∷ es) h =
    let (e', at_end, last) = get_elem?-count id c es (ground arith) in
    (e', at_end, ground (arith, last))

-- In a directory whose numbers do not decrease, the binary search finds what a scan finds: the
-- last entry whose number is at most the tile's, if that entry is a leaf or its run has the tile.
pub find_entry-last_entry :
    (entries : List DirectoryEntry) (id : ℕ)
    → Ascending 0 entries
    → find_entry entries id ≡ entry_if id (last_entry id entries)
unfolding find_entry sort_search entry_if
find_entry-last_entry entries id s =
    let found =
      search_between-boundary (length entries) (is_after entries id) (count_le id entries) 0
        (length entries) (λ h. is_after-count id 0 h entries s) (omega arith)
        (count_le-length id entries) (omega arith) in
    rw found (from_count (count_le id entries) refl)
  where
    from_count :
        (c : ℕ)
        → count_le id entries ≡ c
        → (if c == 0 then none else entry_if id (get_elem? entries (c - 1)))
          ≡ entry_if id (last_entry id entries)
    from_count zero h = rw (last_entry-none id entries h)
    from_count (suc c) h =
        let back : suc c - 1 ≡ c = omega arith in
        let (e, at_end, last) = get_elem?-count id c entries h in
        let some_entry : (suc c == 0) ≡ false = ground arith in rw (some_entry, back, at_end, last)

entry_if-covers :
    (id : ℕ) (o : Option DirectoryEntry) (e : DirectoryEntry)
    → entry_if id o ≡ some e
    → covers e id ≡ true
unfolding entry_if
entry_if-covers id none e h = absurd (ground arith)
entry_if-covers id (some x) e h = elim (Bool-cases (covers x id)) [
  | inl c ↦ let same : x ≡ e = ground arith in rw (← same) c
  | inr c ↦ absurd (ground arith)
]

-- An entry that is found is a leaf or has the tile in its run.
pub find_entry-covers :
    (id : ℕ) (entries : List DirectoryEntry) (e : DirectoryEntry)
    → find_entry entries id ≡ some e
    → covers e id ≡ true
unfolding find_entry
find_entry-covers id entries e h =
    elim (Bool-cases (sort_search (length entries) (is_after entries id) == 0)) [
      | inl first ↦ absurd (ground arith)
      | inr found ↦
          entry_if-covers id
            (get_elem? entries (sort_search (length entries) (is_after entries id) - 1)) e
            (ground arith)
    ]

-- The loop of `sort.Search` goes past an index only where its test fails.
search_between-before :
    (fuel : ℕ) (f : ℕ → Bool) (i j : ℕ)
    → (0 < i → f (i - 1) ≡ false)
    → 0 < search_between fuel f i j
    → f (search_between fuel f i j - 1) ≡ false
unfolding search_between
search_between-before zero f i j start h = start h
search_between-before (suc fuel) f i j start h = elim (Bool-cases (ltb i j)) [
  | inr done ↦ rw done (start (rw done at h))
  | inl more ↦ elim (Bool-cases (f ((i + j) / 2))) [
    | inl here ↦
        rw (more, here) (search_between-before fuel f i ((i + j) / 2) start (rw (more, here) at h))
    | inr later ↦
        let back : (i + j) / 2 + 1 - 1 ≡ (i + j) / 2 = omega arith in
        rw (more, later)
          (search_between-before fuel f ((i + j) / 2 + 1) j (λ _. ap f back ∙ later)
            (rw (more, later) at h))
  ]
]

entry_if-same :
    (id : ℕ) (o : Option DirectoryEntry) (e : DirectoryEntry) → entry_if id o ≡ some e → o ≡ some e
unfolding entry_if
entry_if-same id none e h = absurd (ground arith)
entry_if-same id (some x) e h = elim (Bool-cases (covers x id)) [
  | inl c ↦ rw c at h
  | inr c ↦ absurd (ground arith)
]

-- An entry that is found stands in the directory, and starts at the tile or before it.
pub find_entry-stands :
    (id : ℕ) (entries : List DirectoryEntry) (e : DirectoryEntry)
    → find_entry entries id ≡ some e
    → (n : ℕ) × (get_elem? entries n ≡ some e) × (e.tile_id ≤ id)
unfolding find_entry sort_search is_after
find_entry-stands id entries e h =
    let k = search_between (length entries) (is_after entries id) 0 (length entries) in
    elim (Bool-cases (k == 0)) [
      | inl first ↦ absurd (ground arith)
      | inr found ↦
          let at_k : get_elem? entries (k - 1) ≡ some e =
            entry_if-same id (get_elem? entries (k - 1)) e (rw found at h) in
          let before : is_after entries id (k - 1) ≡ false =
            search_between-before (length entries) (is_after entries id) 0 (length entries)
              (λ absent. absurd (omega (arith, absent))) (ground arith) in
          let low : ltb id e.tile_id ≡ false = rw (at_k, is_after) at before in
          (k - 1, at_k, ground arith)
    ]
