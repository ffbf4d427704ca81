-- ===== src/Server/Admin/Tests.antt =====
-- Runs of a server whose sources are managed, and its theorems at concrete inputs.
use geoverse_map_server.Base.{
  ◌≡◌, ◌<◌, ◌-◌, ◌⊎◌, refl, Bool, true, false, List, [], ◌∷◌, Option, none, some, ℕ_discrete, arith,
}
use geoverse_map_server.Base.Dict.{Dict, lookup, insert, delete}
use geoverse_map_server.Base.Ints.{pos}
use geoverse_map_server.Base.Results.{ok}
use geoverse_map_server.Base.Strings.{
  same, listed, space_width, space_width_back, cut_front, trim_space,
}
use geoverse_map_server.Base.Text.{Text, str, text_eq}
use geoverse_map_server.Config.{
  Source, default, all_name_bytes, is_name, check_source, check_sources, check_networks,
  check_parts, validate, no_sources,
}
use geoverse_map_server.Config.Asset
use geoverse_map_server.Config.Save.{
  Yaml, SaveFaults, root_of, updated, put_file, replace_sources, save_sources,
}
use geoverse_map_server.Registry.{opened, names, replace, remove, get, drop_first}
use geoverse_map_server.Server.Admin.{
  Site, saved, bad_source, Backend, trimmed, known_dsn, preserve_secret, validate_candidate,
  put_source, drop_source, probe, handle_probe, install, save_source, handle_save, uninstall,
  handle_delete,
}
use geoverse_map_server.Server.Admin.History.{
  Call, save_call, delete_call, step, run, run-IsManaged,
}
use geoverse_map_server.Server.Admin.Laws.{
  IsManaged, IsSaved, IsRefused, attempted, save_source-outcome,
}
use geoverse_map_server.Server.Readiness.{
  status_of, sweep_pings, snapshot, invalidate, handle_readyz, handle_health,
}

program : Unit {0}
unfolding lookup insert delete same listed space_width space_width_back cut_front trim_space text_eq
    ℕ_discrete default all_name_bytes is_name check_source check_sources check_networks check_parts
    validate Asset.validate root_of updated put_file replace_sources save_sources names replace
    remove get drop_first trimmed known_dsn preserve_secret validate_candidate put_source
    drop_source probe handle_probe install save_source handle_save uninstall handle_delete step run
    status_of sweep_pings snapshot invalidate handle_readyz handle_health
program = tt

abbrev source_of : Text → Source
source_of name = record {
  name = name;
  kind = str "mysql";
  title = [];
  description = [];
  path = [];
  layer = [];
  dsn = str "mysql://db";
  table = str "t";
  geometry_column = [];
  id_column = [];
  srid = pos 0;
  fields = [];
  min_zoom = none;
  max_zoom = none;
  buffer = none;
  extent = none;
  simplify = none;
  cache = none;
  tile_ttl = pos 0;
}

abbrev roads : Source
roads = source_of (str "roads")

abbrev rail : Source
rail = source_of (str "rail")

abbrev yaml : Yaml
yaml = record {
  Node = Text;
  unmarshal = λ raw. some (raw ∷ []);
  marshal = λ nodes. some (str "new");
  encode = λ sources. some (str "list");
  is_mapping = λ n. true;
  content = λ n. [];
  with_content = λ n ns. n;
  value = λ n. n;
  text_node = λ t. t;
}

abbrev backend : Backend
backend = record {
  Source' = Text;
  Error = Text;
  open_source = λ sc. opened sc.name;
  ping = λ s. none;
  yaml = yaml;
}

abbrev faults_of : Bool → SaveFaults
faults_of rename = record {
  stat = false;
  create = false;
  chmod = false;
  write = false;
  written = [];
  sync = false;
  close = false;
  rename = rename;
  remove = false;
}

abbrev site : Site Text
site = record {
  config = record default { sources = roads ∷ [] };
  config_path = str "config";
  registry = record {
    sources = (str "roads", str "old") ∷ [];
    order = str "roads" ∷ [];
    retired = [];
  };
  readiness = record { checked = some 1; ready = true; statuses = some [] };
  files = (str "config", str "old") ∷ [];
}

keeps_secret : preserve_secret (roads ∷ []) (record roads { dsn = [] }) ≡ roads
unfolding program
keeps_secret = refl

added : (save_source backend (faults_of false) (str "temp") rail site).0 ≡ saved (str "rail") false
unfolding program
added = refl

closed_again : (save_source backend (faults_of true) (str "temp") rail site).2 ≡ str "rail" ∷ []
unfolding program
closed_again = refl

probed : (handle_probe backend (λ t. t) (some rail) site).0 ≡ ok none
unfolding program
probed = refl

last_source :
    (handle_delete backend (faults_of false) (str "temp") (str "roads") site).0
    ≡ bad_source no_sources
unfolding program
last_source = refl

site-IsManaged : IsManaged site
unfolding program
site-IsManaged = record {
  valid = refl;
  registry = record { unique = (tt, tt); distinct = (refl, tt); agree = λ n. ground arith };
  named = refl;
}

save_source-outcome_example :
    IsSaved backend rail site (save_source backend (faults_of false) (str "temp") rail site)
    ⊎ IsRefused backend
        (attempted backend rail)
        site
        (save_source backend (faults_of false) (str "temp") rail site)
save_source-outcome_example =
    save_source-outcome backend (faults_of false) (str "temp") rail site site-IsManaged

abbrev calls : List Call
calls =
    save_call (faults_of false) (str "temp") (some rail)
    ∷ delete_call (faults_of false) (str "temp") (str "roads")
    ∷ []

ran : names (run backend (λ t. t) calls site).registry ≡ str "rail" ∷ []
unfolding program
ran = refl

run-IsManaged_example : IsManaged (run backend (λ t. t) calls site)
run-IsManaged_example = run-IsManaged backend (λ t. t) calls site site-IsManaged

abbrev pings : Dict Text (Option Text)
pings = (str "roads", none) ∷ (str "rail", some (str "gone")) ∷ []

not_ready : (handle_readyz 9 9 pings (invalidate site.readiness)).0 ≡ 503
unfolding program
not_ready = refl

unhealthy : (handle_health pings).0 ≡ 503
unfolding program
unhealthy = refl

soon : 10 - 9 < 5000000000
soon = omega arith
