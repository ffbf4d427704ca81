-- ===== src/Server/Admin.antt =====
-- internal/server/admin_sources.go and the readiness of internal/server/admin.go: the sources that
-- are probed, saved and deleted while the server runs. Opening a source (`OpenWithPolicies` of the
-- registry, under the policies of the configuration), its `Ping`, the JSON decoder and
-- `strings.ToLower` are arguments; the listing of the sources is left out.
pub mod Merge
pub mod Laws
pub mod History
mod Tests
use geoverse_map_server.Base.{
  ℕ, ◌≡◌, Bool, true, false, not, ◌&&◌, ◌||◌, List, [], ◌∷◌, ◌++◌, Option, none, some,
  if◌then◌else◌, ltb, ◌-◌, map, length,
}
use geoverse_map_server.Base.Dict.{Dict}
use geoverse_map_server.Base.Results.{Result, ok, error}
use geoverse_map_server.Base.Strings.{same, is_empty, trim_space}
use geoverse_map_server.Base.Text.{Text, str}
use geoverse_map_server.Config.{Config, Source, Invalid, default, validate}
use geoverse_map_server.Config.Save.{Yaml, SaveFaults, SaveError, save_sources}
use geoverse_map_server.Server.Readiness.{Readiness, invalidate}
use geoverse_map_server.Registry.{Registry, Opened, opened, failed, replace, remove}

-- What the handlers read and change of `Server`, and the files of the machine.
pub record Site (S : Type 0) : Type 0 where
  pub config : Config
  pub config_path : Text
  pub registry : Registry S
  pub readiness : Readiness
  pub files : Dict Text Text

pub data Answer (E : Type 0) : Type 0 where
  not_writable : Answer E
  bad_body : Answer E
  bad_source : Invalid → Answer E
  bad_probe : E → Answer E
  not_persisted : SaveError → Answer E
  saved : Text → Bool → Answer E
  unknown_source : Text → Answer E
  deleted : Text → Answer E

-- `decodeSource`, after the decoder.
unfoldable pub trimmed : (Text → Text) → Source → Source
trimmed to_lower sc = record sc {
  name = trim_space sc.name;
  kind = to_lower (trim_space sc.kind);
  title = trim_space sc.title;
  path = trim_space sc.path;
  table = trim_space sc.table;
  geometry_column = trim_space sc.geometry_column;
  id_column = trim_space sc.id_column;
}

-- The loop of `preserveSecret`: the DSN of the source of the same name and type.
unfoldable pub known_dsn : Source → List Source → Text
known_dsn sc [] = sc.dsn
known_dsn sc (s ∷ ss) =
    let rest = known_dsn sc ss in if same s.name sc.name && same s.kind sc.kind then s.dsn else rest

-- `preserveSecret`
unfoldable pub preserve_secret : List Source → Source → Source
preserve_secret sources sc =
    if (not (same sc.kind (str "postgis")) && not (same sc.kind (str "mysql")))
      || not (is_empty sc.dsn)
    then sc
    else record sc { dsn = known_dsn sc sources }

-- `validateCandidate`
unfoldable pub validate_candidate : Source → Result Unit Invalid
validate_candidate sc = validate (record default { sources = sc ∷ [] })

-- The loop of `handleSaveSource`, which stops at the name, and the append where it is not found.
unfoldable pub put_source : Source → List Source → List Source × Bool
put_source sc [] = (sc ∷ [], false)
put_source sc (s ∷ ss) =
    let rest = put_source sc ss in
    if same s.name sc.name then (sc ∷ ss, true) else (s ∷ rest.0, rest.1)

-- The loop of `handleDeleteSource`.
unfoldable pub drop_source : Text → List Source → List Source × Bool
drop_source name [] = ([], false)
drop_source name (s ∷ ss) =
    let rest = drop_source name ss in
    if same s.name name then (rest.0, true) else (s ∷ rest.0, rest.1)

-- The configuration with other sources.
abbrev pub with_sources : Config → List Source → Config
with_sources c sources = record c { sources = sources }

-- What the handlers take from elsewhere: the opening of a source, `Ping`, `Close` being in the
-- answer, the YAML library, and the temporary file and the faults of a save.
pub record Backend : Type 1 where
  pub Source' : Type 0
  pub Error : Type 0
  pub open_source : Source → Opened Source' Error
  pub ping : Source' → Option Error
  pub yaml : Yaml

module _ (b : Backend) where
  open b use {Source', Error}

  -- A probe: the source that is open, if it opened, and the error.
  pub probe : Source → Option Source' × Option Error
  probe sc = elim (b.open_source sc) [ failed e ↦ (none, some e) | opened s ↦ (some s, b.ping s) ]

  abbrev pub to_list : Option Source' → List Source'
  to_list none = []
  to_list (some s) = s ∷ []

  -- `handleProbeSource`: the error of the probe, and the sources it closed.
  pub handle_probe :
      (Text → Text)
      → Option Source
      → Site Source'
      → Result (Option Error) (Answer Error) × List Source'
  handle_probe to_lower none site = (error bad_body, [])
  handle_probe to_lower (some body) site =
      let sc : Source = preserve_secret site.config.sources (trimmed to_lower body) in
      elim (validate_candidate sc) [
        | error e ↦ (error (bad_source e), [])
        | ok _ ↦ (ok (probe sc).1, to_list (probe sc).0)
      ]

  -- The end of `handleSaveSource`, once the candidate is open: the answer, the server after it and
  -- the sources that were closed.
  pub install :
      SaveFaults
      → Text
      → Source
      → Source'
      → Site Source'
      → Answer Error × Site Source' × List Source'
  install faults temp sc candidate site =
      let (sources, found) = put_source sc site.config.sources in
      let put = save_sources b.yaml faults temp site.config_path sources site.files in
      let kept : Site Source' = record site { files = put.1 } in
      let done : Site Source' = record kept {
        registry = replace sc.name candidate site.registry;
        config = with_sources site.config sources;
        readiness = invalidate site.readiness;
      } in
      elim (validate (with_sources site.config sources)) [
        | error e ↦ (bad_source e, site, candidate ∷ [])
        | ok _ ↦ elim put.0 [
          | error e ↦ (not_persisted e, kept, candidate ∷ [])
          | ok _ ↦ (saved sc.name found, done, [])
        ]
      ]

  -- `handleSaveSource` of a decoded source.
  pub save_source :
      SaveFaults → Text → Source → Site Source' → Answer Error × Site Source' × List Source'
  save_source faults temp sc site = elim (validate_candidate sc) [
    | error e ↦ (bad_source e, site, [])
    | ok _ ↦ elim (b.open_source sc) [
      | failed e ↦ (bad_probe e, site, [])
      | opened candidate ↦ elim (b.ping candidate) [
        | some e ↦ (bad_probe e, site, candidate ∷ [])
        | none ↦ install faults temp sc candidate site
      ]
    ]
  ]

  -- `handleSaveSource`
  pub handle_save :
      (Text → Text)
      → SaveFaults
      → Text
      → Option Source
      → Site Source'
      → Answer Error × Site Source' × List Source'
  handle_save to_lower faults temp none site =
      if is_empty site.config_path then (not_writable, site, []) else (bad_body, site, [])
  handle_save to_lower faults temp (some body) site =
      let sc : Source = preserve_secret site.config.sources (trimmed to_lower body) in
      let rest = save_source faults temp sc site in
      if is_empty site.config_path then (not_writable, site, []) else rest

  -- The end of `handleDeleteSource`, for a name that was found.
  pub uninstall :
      SaveFaults → Text → Text → List Source → Site Source' → Answer Error × Site Source'
  uninstall faults temp name sources site =
      let put = save_sources b.yaml faults temp site.config_path sources site.files in
      let kept : Site Source' = record site { files = put.1 } in
      let done : Site Source' = record kept {
        registry = (remove name site.registry).0;
        config = with_sources site.config sources;
        readiness = invalidate site.readiness;
      } in
      elim (validate (with_sources site.config sources)) [
        | error e ↦ (bad_source e, site)
        | ok _ ↦ elim put.0 [ error e ↦ (not_persisted e, kept) | ok _ ↦ (deleted name, done) ]
      ]

  -- `handleDeleteSource`
  pub handle_delete : SaveFaults → Text → Text → Site Source' → Answer Error × Site Source'
  handle_delete faults temp name site =
      let (sources, found) = drop_source name site.config.sources in
      let rest = uninstall faults temp name sources site in
      if is_empty site.config_path
      then (not_writable, site)
      else if not found
      then (unknown_source name, site)
      else rest
