-- ===== src/Diagnostics/Tests.antt =====
-- Runs of the reports, and the theorem on the exit code at a concrete machine.
use geoverse_map_server.Base.{◌≡◌, ◌↔◌, refl, Bool, true, false, [], ◌∷◌, none, some, ℕ_discrete}
use geoverse_map_server.Base.Ints.{pos}
use geoverse_map_server.Base.Lists.{All}
use geoverse_map_server.Base.Results.{ok}
use geoverse_map_server.Base.Strings.{same, space_width, space_width_back, cut_front, trim_space}
use geoverse_map_server.Base.Text.{str, text_eq}
use geoverse_map_server.Config.{Config, Source, default}
use geoverse_map_server.Config.Policy.{configured}
use geoverse_map_server.Diagnostics.{
  Machine, status_warning, any_error, any_failed, exit_code, report_status, inspect_opened,
  inspect_source, inspect_all, has_database_source, warnings, policy_findings, doctor, inspect,
}
use geoverse_map_server.Diagnostics.Laws.{IsReachable, doctor-exit_code}

program : Unit {0}
unfolding same space_width space_width_back cut_front trim_space text_eq ℕ_discrete default
    configured any_error any_failed exit_code report_status inspect_opened inspect_source
    inspect_all has_database_source warnings policy_findings doctor inspect
program = tt

abbrev roads : Source
roads = record {
  name = str "roads";
  kind = str "geojson";
  title = [];
  description = [];
  path = str "roads.json";
  layer = [];
  dsn = [];
  table = [];
  geometry_column = [];
  id_column = [];
  srid = pos 0;
  fields = [];
  min_zoom = none;
  max_zoom = none;
  buffer = none;
  extent = none;
  simplify = none;
  cache = none;
  tile_ttl = pos 0;
}

abbrev machine_of : Bool → Machine
machine_of alive = record {
  load = ok (record default { sources = roads ∷ [] });
  inspect_asset = λ c path memory. true;
  open_source = λ c sc.
      some
        (record { alive = alive; tiles = true; features = true; archive = false; excess = none });
}

healthy : exit_code (doctor (machine_of true)) ≡ 0
unfolding program
healthy = refl

warned : (doctor (machine_of true)).status ≡ status_warning
unfolding program
warned = refl

broken : exit_code (doctor (machine_of false)) ≡ 1
unfolding program
broken = refl

missing : exit_code (inspect (machine_of true) (str "rail")) ≡ 1
unfolding program
missing = refl

doctor-exit_code_example : (exit_code (doctor (machine_of false)) ≡ 0) ↔ (
    (c : Config) × ((machine_of false).load ≡ ok c)
    × All (IsReachable (machine_of false) c) c.sources)
doctor-exit_code_example = doctor-exit_code (machine_of false)
