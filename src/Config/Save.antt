-- ===== src/Config/Save.antt =====
-- `SaveSources` of internal/config/config.go: the sources node of the file is replaced through a
-- temporary file. The YAML library, the files and the faults of the operating system are
-- arguments; file modes are left out.
pub mod Atomic
use geoverse_map_server.Base.{
  ◌≡◌, ◌≢◌, refl, Bool, List, [], ◌∷◌, Option, none, some, arith, if◌then◌else◌, ite, if_pos,
  if_neg, Option-cases, inl, inr,
}
use geoverse_map_server.Base.Dict.{Dict, lookup, insert, delete, lookup-insert, lookup-delete}
use geoverse_map_server.Base.Results.{Result, ok, error, Result-cases}
use geoverse_map_server.Base.Strings.{same}
use geoverse_map_server.Base.Text.{Text, str, text_eq}
use geoverse_map_server.Config.{Source}

-- What is used of the YAML library. A document is the list `doc.Content`.
pub record Yaml : Type 1 where
  pub Node : Type 0
  pub unmarshal : Text → Option (List Node)
  pub marshal : List Node → Option Text
  pub encode : List Source → Option Node
  pub is_mapping : Node → Bool
  pub content : Node → List Node
  pub with_content : Node → List Node → Node
  pub value : Node → Text
  pub text_node : Text → Node

pub data SaveError : Type 0 where
  no_file : SaveError
  no_stat : SaveError
  no_parse : SaveError
  no_mapping : SaveError
  no_encoding : SaveError
  no_output : SaveError
  no_temp : SaveError
  no_chmod : SaveError
  no_write : SaveError
  no_sync : SaveError
  no_close : SaveError
  no_rename : SaveError

-- Which step of the operating system fails, and what a failed write leaves.
pub record SaveFaults : Type 0 where
  pub stat : Bool
  pub create : Bool
  pub chmod : Bool
  pub write : Bool
  pub written : Text
  pub sync : Bool
  pub close : Bool
  pub rename : Bool
  pub remove : Bool

module _ (y : Yaml) where
  open y use {Node, value, text_node}

  -- The loop over the keys and values, and the append where it finds no sources.
  unfoldable pub replace_sources : Node → List Node → List Node
  replace_sources replacement [] = text_node (str "sources") ∷ replacement ∷ []
  replace_sources replacement (k ∷ []) = k ∷ text_node (str "sources") ∷ replacement ∷ []
  replace_sources replacement (k ∷ v ∷ rest) =
      let later = replace_sources replacement rest in
      if same (value k) (str "sources") then k ∷ replacement ∷ rest else k ∷ v ∷ later

  -- The test of the document's root.
  unfoldable pub root_of : List Node → Result Node SaveError
  root_of (root ∷ []) = if y.is_mapping root then ok root else error no_mapping
  root_of [] = error no_mapping
  root_of (root ∷ other ∷ rest) = error no_mapping

  -- The new text of the file, from the old one.
  unfoldable pub updated : List Source → Text → Result Text SaveError
  updated sources raw = elim (y.unmarshal raw) [
    | none ↦ error no_parse
    | some document ↦ elim (root_of document) [
      | error e ↦ error e
      | ok root ↦ elim (y.encode sources) [
        | none ↦ error no_encoding
        | some replacement ↦
            elim (y.marshal
              (y.with_content root (replace_sources replacement (y.content root)) ∷ [])) [
                | none ↦ error no_output
                | some out ↦ ok out
              ]
      ]
    ]
  ]

-- The deferred `os.Remove` of the temporary file.
abbrev pub cleaned : SaveFaults → Text → Dict Text Text → Dict Text Text
cleaned faults temp files =
    let gone = delete text_eq temp files in if faults.remove then files else gone

-- The steps from `os.CreateTemp` on, and the files after them.
unfoldable pub put_file :
    SaveFaults → Text → Text → Text → Dict Text Text → Result Unit SaveError × Dict Text Text
put_file faults temp path out files =
    let blank = insert text_eq temp [] files in
    let part = insert text_eq temp faults.written files in
    let whole = insert text_eq temp out files in
    if faults.create
    then (error no_temp, files)
    else if faults.chmod
    then (error no_chmod, cleaned faults temp blank)
    else if faults.write
    then (error no_write, cleaned faults temp part)
    else if faults.sync
    then (error no_sync, cleaned faults temp whole)
    else if faults.close
    then (error no_close, cleaned faults temp whole)
    else if faults.rename
    then (error no_rename, cleaned faults temp whole)
    else (ok tt, insert text_eq path out (delete text_eq temp files))

module _ (y : Yaml) where
  -- `SaveSources`, by the name of the temporary file.
  unfoldable pub save_sources :
      SaveFaults
      → Text
      → Text
      → List Source
      → Dict Text Text
      → Result Unit SaveError × Dict Text Text
  save_sources faults temp path sources files = elim (lookup text_eq path files) [
    | none ↦ (error no_file, files)
    | some raw ↦
        let stated : Result Unit SaveError × Dict Text Text = elim (updated y sources raw) [
          | error e ↦ (error e, files)
          | ok out ↦ put_file faults temp path out files
        ] in
        if faults.stat then (error no_stat, files) else stated
  ]
