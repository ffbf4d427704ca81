-- ===== src/Algo/Tests.antt =====
-- Runs of the registry of algorithms, and its theorems at concrete inputs.
use geoverse_map_server.Base.{
  ◌≡◌, ◌≢◌, ◌⊎◌, take, length, ◌≤◌, refl, List, [], ◌∷◌, none, some, ℕ_discrete,
}
use geoverse_map_server.Base.Dict.{lookup, insert, delete}
use geoverse_map_server.Base.Results.{ok, error}
use geoverse_map_server.Base.Text.{Text, str, text_eq}
use geoverse_map_server.Algo.{
  Cause, Ran, Algorithm, Registry, new_registry, register, register_all, get, names, describe_from,
  describe,
}
use geoverse_map_server.Algo.Run.{
  RunLog, params_of, as_user_error, is_canceled, is_deadline, answer_of, run_body,
  handle_algorithm_run, handle_algorithm_get,
}
use geoverse_map_server.Algo.Run.Laws.{IsAnswered, handle_algorithm_run-logged}

program : Unit {0}
unfolding lookup insert delete text_eq ℕ_discrete register register_all get names describe_from
    describe params_of as_user_error is_canceled is_deadline answer_of run_body handle_algorithm_run
    handle_algorithm_get
program = tt

abbrev algorithm_of : Text → Ran → Algorithm
algorithm_of name ran = record {
  describe = record { name = name; document = [] };
  run = λ params. ran;
}

-- A deadline that was exceeded in a search.
abbrev late : List Cause
late = Cause.other (str "search") ∷ Cause.deadline_exceeded ∷ []

-- The four algorithms of a server.
abbrev all : List Algorithm
all =
    algorithm_of (str "shortest_path") (ok (str "route"))
    ∷ algorithm_of (str "isochrone") (ok [])
    ∷ algorithm_of (str "map_match") (error late)
    ∷ algorithm_of (str "dbscan") (ok [])
    ∷ []

abbrev registry : Registry
registry = record {
  algos =
      (str "dbscan", algorithm_of (str "dbscan") (ok []))
      ∷ (str "map_match", algorithm_of (str "map_match") (error late))
      ∷ (str "isochrone", algorithm_of (str "isochrone") (ok []))
      ∷ (str "shortest_path", algorithm_of (str "shortest_path") (ok (str "route")))
      ∷ [];
  order = str "shortest_path" ∷ str "isochrone" ∷ str "map_match" ∷ str "dbscan" ∷ [];
}

registered : register_all all new_registry ≡ some registry
unfolding program
registered = refl

twice :
    register_all (algorithm_of [] (error late) ∷ algorithm_of [] (error late) ∷ []) new_registry
    ≡ none
unfolding program
twice = refl

cancelled : (handle_algorithm_run (str "map_match") (some []) registry).0.status ≡ 408
unfolding program
cancelled = refl

unknown : handle_algorithm_get (str "bfs") registry ≡ error 404
unfolding program
unknown = refl

found : get (str "map_match") registry ≡ some (algorithm_of (str "map_match") (error late))
unfolding program
found = refl

handle_algorithm_run-logged_example :
    (log : RunLog) × (params : Text) × ((handle_algorithm_run
        (str "map_match")
        (some (str "{}"))
        registry).1
      ≡ some log)
    × (((str "{}" ≡ []) × (params ≡ str "{}"))
        ⊎ ((str "{}" ≢ []) × (params ≡ take 10485760 (str "{}"))))
    × (log.name ≡ str "map_match")
    × (log.param_bytes ≡ length params)
    × (length params ≤ 10485760)
    × IsAnswered
        (error late)
        (handle_algorithm_run (str "map_match") (some (str "{}")) registry).0
        log.outcome
handle_algorithm_run-logged_example =
    handle_algorithm_run-logged (str "map_match") (str "{}") registry
      (algorithm_of (str "map_match") (error late)) found
