-- ===== src/Diagnostics.antt =====
-- internal/diagnostics/diagnostics.go: the reports of the doctor and of the inspection of a source,
-- their status and exit code. Loading the configuration, the inspection of a file, and opening a
-- source with what it then answers are arguments; texts of messages and details, and what a report
-- says of tiles and features, are left out.
pub mod Laws
mod Tests
use geoverse_map_server.Base.{
  ℕ, Bool, true, false, not, ◌&&◌, ◌||◌, List, [], ◌∷◌, ◌++◌, Option, none, some, ◌==◌,
  if◌then◌else◌,
}
use geoverse_map_server.Base.Ints.{ℤ, pos, negsuc}
use geoverse_map_server.Base.Results.{Result, ok, error}
use geoverse_map_server.Base.Strings.{same, is_empty, trim_space}
use geoverse_map_server.Base.Text.{Text, str}
use geoverse_map_server.Config.{Config, Source, LoadError, is_database, is_file}
use geoverse_map_server.Config.Policy.{configured}

pub data Severity : Type 0 where
  severity_warning severity_error : Severity

pub record Finding : Type 0 where
  pub severity : Severity
  pub code : Text
  pub source : Text

pub data Status : Type 0 where
  status_ok status_warning status_error : Status

pub record SourceReport : Type 0 where
  pub name : Text
  pub kind : Text
  pub status : Status
  pub capabilities : List Text

pub record Report : Type 0 where
  pub mode : Text
  pub status : Status
  pub findings : List Finding
  pub sources : List SourceReport

-- What an open source answers: its ping, the interfaces it implements, and its privilege probe:
-- none if it has none, and an error or the privileges beyond SELECT.
pub record Opened : Type 0 where
  pub alive : Bool
  pub tiles : Bool
  pub features : Bool
  pub archive : Bool
  pub excess : Option (Option (List Text))

pub record Machine : Type 0 where
  pub load : Result Config LoadError
  pub inspect_asset : Config → Text → Bool → Bool
  pub open_source : Config → Source → Option Opened

abbrev pub is_error : Severity → Bool
is_error severity_error = true
is_error severity_warning = false

abbrev pub is_failed : Status → Bool
is_failed status_error = true
is_failed status_ok = false
is_failed status_warning = false

unfoldable pub any_error : List Finding → Bool
any_error [] = false
any_error (f ∷ fs) = is_error f.severity || any_error fs

unfoldable pub any_failed : List SourceReport → Bool
any_failed [] = false
any_failed (s ∷ ss) = is_failed s.status || any_failed ss

-- `ExitCode`
unfoldable pub exit_code : Report → ℕ
exit_code r = if any_error r.findings then 1 else if any_failed r.sources then 1 else 0

-- `reportStatus`
unfoldable pub report_status : Report → Status
report_status r =
    if any_error r.findings || any_failed r.sources
    then status_error
    else if is_empty r.findings
    then status_ok
    else status_warning

-- `memoryBacked`
abbrev pub memory_backed : Text → Bool
memory_backed kind = same kind (str "geojson") || same kind (str "geopackage")

abbrev named_if : Bool → Text → List Text
named_if b name = if b then name ∷ [] else []

-- The capabilities, in the order of `sort.Strings`.
abbrev capabilities_of : Opened → List Text
capabilities_of o =
    named_if o.archive (str "archive")
    ++ named_if o.features (str "features")
    ++ named_if o.tiles (str "tiles")

abbrev pub excess_of : Text → Option (Option (List Text)) → List Finding
excess_of name none = []
excess_of name (some none) = []
excess_of name (some (some [])) = []
excess_of name (some (some (p ∷ ps))) =
    record {
      severity = severity_warning;
      code = str "data_sources.excess_privileges";
      source = name;
    }
    ∷ []

abbrev report_of : Source → Status → List Text → SourceReport
report_of sc status capabilities = record {
  name = sc.name;
  kind = sc.kind;
  status = status;
  capabilities = capabilities;
}

-- The end of `inspectSource`, by the source that was opened.
unfoldable pub inspect_opened : Config → Source → Option Opened → SourceReport × List Finding
inspect_opened c sc none = (report_of sc status_error [], [])
inspect_opened c sc (some o) =
    if o.alive
    then (
      report_of sc status_ok (capabilities_of o),
      (if c.data_sources.require_read_only_role then excess_of sc.name o.excess else []),
    )
    else (report_of sc status_error [], [])

-- `inspectSource`
unfoldable pub inspect_source : Machine → Config → Source → SourceReport × List Finding
inspect_source m c sc =
    if is_file sc.kind && not (m.inspect_asset c sc.path (memory_backed sc.kind))
    then (report_of sc status_error [], [])
    else inspect_opened c sc (m.open_source c sc)

-- The loops over the sources, by whether a source is chosen.
unfoldable pub inspect_all :
    Machine → Config → (Source → Bool) → List Source → List SourceReport × List Finding
inspect_all m c chosen [] = ([], [])
inspect_all m c chosen (sc ∷ scs) =
    let here = inspect_source m c sc in
    let rest = inspect_all m c chosen scs in
    if chosen sc then (here.0 ∷ rest.0, here.1 ++ rest.1) else rest

-- `hasDatabaseSource`
unfoldable pub has_database_source : List Source → Bool
has_database_source [] = false
has_database_source (sc ∷ scs) = is_database sc.kind || has_database_source scs

abbrev unlimited : ℤ → Bool
unlimited (pos n) = n == 0
unlimited (negsuc n) = false

-- The warnings whose conditions hold.
unfoldable pub warnings : List (Bool × Text) → List Finding
warnings [] = []
warnings ((b, code) ∷ checks) =
    let rest = warnings checks in
    if b then record { severity = severity_warning; code = code; source = [] } ∷ rest else rest

-- The warnings of `Doctor` on the policies.
unfoldable pub policy_findings : Config → List Finding
policy_findings c = warnings (
    (not c.assets.enforce_root, str "assets.root_not_enforced")
    ∷ (unlimited c.assets.max_file_size_mb, str "assets.file_size_unlimited")
    ∷ (unlimited c.assets.max_memory_file_size_mb, str "assets.memory_file_size_unlimited")
    ∷ (
      not (configured c.data_sources) && has_database_source c.sources,
      str "data_sources.allowlist_not_configured",
    )
    ∷ [])

-- A report with its status.
abbrev graded : Report → Report
graded r = record r { status = report_status r }

-- `loadReport` where the configuration cannot be loaded.
abbrev unloaded : Text → Report
unloaded mode = record {
  mode = mode;
  status = status_error;
  findings =
      record { severity = severity_error; code = str "config.load_failed"; source = [] } ∷ [];
  sources = [];
}

-- `Doctor`
unfoldable pub doctor : Machine → Report
doctor m = elim m.load [
  | error e ↦ unloaded (str "doctor")
  | ok c ↦
      let found = inspect_all m c (λ sc. true) c.sources in
      graded (record {
        mode = str "doctor";
        status = status_ok;
        findings = policy_findings c ++ found.1;
        sources = found.0;
      })
]

abbrev not_found : List SourceReport → List Finding
not_found [] = record { severity = severity_error; code = str "source.not_found"; source = [] } ∷ []
not_found (s ∷ ss) = []

-- `Inspect`
unfoldable pub inspect : Machine → Text → Report
inspect m raw = elim m.load [
  | error e ↦ unloaded (str "inspect")
  | ok c ↦
      let selector : Text = trim_space raw in
      let found =
        inspect_all m c (λ sc. same selector (str "all") || same sc.name selector) c.sources in
      graded (record {
        mode = str "inspect";
        status = status_ok;
        findings = found.1 ++ not_found found.0;
        sources = found.0;
      })
]
