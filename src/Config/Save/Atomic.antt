-- ===== src/Config/Save/Atomic.antt =====
-- A save is atomic, and changes the sources alone.
use geoverse_map_server.Base.{
  ◌≡◌, ◌≢◌, refl, List, [], ◌∷◌, Option, none, some, arith, if◌then◌else◌, ite, if_pos, if_neg,
  Option-cases, inl, inr,
}
use geoverse_map_server.Base.Dict.{Dict, lookup, insert, delete, lookup-insert, lookup-delete}
use geoverse_map_server.Base.Results.{Result, ok, error, Result-cases}
use geoverse_map_server.Base.Strings.{same}
use geoverse_map_server.Base.Text.{Text, str, text_eq}
use geoverse_map_server.Config.{Source}
use geoverse_map_server.Config.Save.{
  Yaml, SaveFaults, replace_sources, updated, cleaned, put_file, save_sources,
}

-- The content of a file after a save, by the answer: the new one, or as before.
abbrev pub expected : {E A : Type 0} → Result Unit E → A → A → A
expected (ok u) new old = new
expected (error e) new old = old

cleaned-elsewhere :
    (faults : SaveFaults) (temp v p : Text) (files : Dict Text Text)
    → p ≢ temp
    → lookup text_eq p (cleaned faults temp (insert text_eq temp v files)) ≡ lookup text_eq p files
cleaned-elsewhere faults temp v p files ne = ground (
  arith,
  lookup-delete text_eq temp p (insert text_eq temp v files),
  lookup-insert text_eq temp p v files,
)

put_file-atomic :
    (faults : SaveFaults) (temp path out p : Text) (files : Dict Text Text)
    → p ≢ temp
    → lookup text_eq p (put_file faults temp path out files).1
      ≡ expected
          (put_file faults temp path out files).0
          (ite (text_eq path p) (some out) (lookup text_eq p files))
          (lookup text_eq p files)
unfolding put_file
put_file-atomic faults temp path out p files ne =
    let blank = cleaned-elsewhere faults temp [] p files ne in
    let part = cleaned-elsewhere faults temp faults.written p files ne in
    let whole = cleaned-elsewhere faults temp out p files ne in
    let renamed = lookup-insert text_eq path p out (delete text_eq temp files) in
    let gone = lookup-delete text_eq temp p files in ground arith

module _ {A : Type 0} (label a key : Text) (v w l : Option A) where
  first_key :
      a ≡ label
      → (if same a key then v else l) ≡ ite (text_eq label key) v (if same a key then w else l)
  unfolding same
  first_key e = ground arith

  other_key :
      a ≢ label
      → (if same a key then v else ite (text_eq label key) w l)
        ≡ ite (text_eq label key) w (if same a key then v else l)
  unfolding same
  other_key n = ground arith

module _ (y : Yaml) where
  open y use {Node, value, text_node}

  -- The value of a key in the content of a mapping.
  unfoldable pub find_node : Text → List Node → Option Node
  find_node key [] = none
  find_node key (k ∷ []) = none
  find_node key (k ∷ v ∷ rest) =
      let later = find_node key rest in if same (value k) key then some v else later

  -- Keys and values in turn.
  abbrev pub IsPaired : List Node → Type 0
  IsPaired [] = Unit
  IsPaired (k ∷ []) = ⊥
  IsPaired (k ∷ v ∷ rest) = IsPaired rest

  -- Of a mapping, the replacement changes the value of the sources, and no other key's.
  pub find_node-replace_sources :
      (key : Text) (replacement : Node) (content : List Node)
      → value (text_node (str "sources")) ≡ str "sources"
      → IsPaired content
      → find_node key (replace_sources y replacement content)
        ≡ ite (text_eq (str "sources") key) (some replacement) (find_node key content)
  unfolding find_node replace_sources same
  find_node-replace_sources key replacement [] named paired = ground (arith, named)
  find_node-replace_sources key replacement (k ∷ []) named paired = absurd paired
  find_node-replace_sources key replacement (k ∷ v ∷ rest) named paired =
      let later = find_node-replace_sources key replacement rest named paired in
      elim (text_eq (value k) (str "sources")) [
        | yes e ↦ rw (if_pos _ e) (
            first_key (str "sources") (value k) key (some replacement) (some v) (find_node key rest)
              e)
        | no n ↦
            rw (if_neg _ n, later)
              (other_key (str "sources") (value k) key (some v) (some replacement)
                (find_node key rest) n)
      ]

  -- The new text of a file: its own, with the sources replaced.
  abbrev pub update_of : List Source → Option Text → Option Text
  update_of sources none = none
  update_of sources (some raw) = elim (updated y sources raw) [ ok out ↦ some out | error e ↦ none ]

  -- A save that fails leaves every file but its temporary one as it was; one that succeeds gives
  -- the file its new text and changes no other file.
  pub save_sources-atomic :
      (faults : SaveFaults) (temp path p : Text) (sources : List Source) (files : Dict Text Text)
      → p ≢ temp
      → (lookup text_eq p (save_sources y faults temp path sources files).1
          ≡ expected
              (save_sources y faults temp path sources files).0
              (ite
                (text_eq path p)
                (update_of sources (lookup text_eq path files))
                (lookup text_eq p files))
              (lookup text_eq p files))
        × ((save_sources y faults temp path sources files).0 ≡ ok tt
            → (out : Text) × (update_of sources (lookup text_eq path files) ≡ some out))
  unfolding save_sources
  save_sources-atomic faults temp path p sources files ne =
      elim (Option-cases (lookup text_eq path files)) [
        | inl missing ↦ rw (missing, save_sources) (refl, λ bad. absurd (cc))
        | inr (raw, there) ↦ elim (Result-cases (updated y sources raw)) [
          | inr (e, bad) ↦ (ground arith, λ good. absurd (ground arith))
          | inl (out, good) ↦
              let put = put_file-atomic faults temp path out p files ne in
              (ground arith, λ _. (out, ground arith))
        ]
      ]
