-- ===== src/Algo/Run.antt =====
-- `handleAlgorithmRun` and `handleAlgorithmGet` of internal/server/algorithms.go: the answer and
-- the line of the log. The text of an error is left out where it is fixed.
pub mod Laws
use geoverse_map_server.Base.{
  ℕ, Bool, true, false, ◌||◌, if◌then◌else◌, List, [], ◌∷◌, Option, none, some, take, length,
}
use geoverse_map_server.Base.Results.{Result, ok, error}
use geoverse_map_server.Base.Text.{Text, str}
use geoverse_map_server.Algo.{Cause, Ran, Algorithm, Descriptor, Registry, get}

-- `maxAlgoBodyBytes`
abbrev pub max_algo_body_bytes : ℕ
max_algo_body_bytes = 10485760

-- The outcome in the log.
pub data Logged : Type 0 where
  log_ok log_rejected log_cancelled log_failed : Logged

-- The line of the log: the name, the bytes of the parameters and the outcome.
pub record RunLog : Type 0 where
  pub name : Text
  pub param_bytes : ℕ
  pub outcome : Logged

pub record Answer : Type 0 where
  pub status : ℕ
  pub body : Text

-- The parameters that reach the algorithm: what was read, or `{}` for nothing.
unfoldable pub params_of : Text → Text
params_of [] = str "{}"
params_of (c ∷ body) = c ∷ body

-- `errors.As` for a `UserError`: the message of the first of the chain.
unfoldable pub as_user_error : List Cause → Option Text
as_user_error [] = none
as_user_error (Cause.user_error message ∷ chain) = some message
as_user_error (Cause.canceled ∷ chain) = as_user_error chain
as_user_error (Cause.deadline_exceeded ∷ chain) = as_user_error chain
as_user_error (Cause.other text ∷ chain) = as_user_error chain

-- `errors.Is` for `context.Canceled`.
unfoldable pub is_canceled : List Cause → Bool
is_canceled [] = false
is_canceled (Cause.canceled ∷ chain) = true
is_canceled (Cause.user_error message ∷ chain) = is_canceled chain
is_canceled (Cause.deadline_exceeded ∷ chain) = is_canceled chain
is_canceled (Cause.other text ∷ chain) = is_canceled chain

-- `errors.Is` for `context.DeadlineExceeded`.
unfoldable pub is_deadline : List Cause → Bool
is_deadline [] = false
is_deadline (Cause.deadline_exceeded ∷ chain) = true
is_deadline (Cause.user_error message ∷ chain) = is_deadline chain
is_deadline (Cause.canceled ∷ chain) = is_deadline chain
is_deadline (Cause.other text ∷ chain) = is_deadline chain

-- The answer and the outcome of a run that has ended.
unfoldable pub answer_of : Ran → Answer × Logged
answer_of (ok json) = (record { status = 200; body = json }, log_ok)
answer_of (error chain) = elim (as_user_error chain) [
  | some message ↦ (record { status = 400; body = message }, log_rejected)
  | none ↦
      if is_canceled chain || is_deadline chain
      then (record { status = 408; body = str "algorithm run was cancelled" }, log_cancelled)
      else (record { status = 500; body = str "algorithm execution failed" }, log_failed)
]

-- The run of an algorithm that was found, by the body that the request sends; none is an error of
-- its reader.
unfoldable pub run_body : Text → Algorithm → Option Text → Answer × Option RunLog
run_body name a none = (record { status = 400; body = str "read request body failed" }, none)
run_body name a (some sent) =
    let params : Text = params_of (take max_algo_body_bytes sent) in
    let (answer, outcome) = answer_of (a.run params) in
    (answer, some (record { name = name; param_bytes = length params; outcome = outcome }))

-- `handleAlgorithmRun`
unfoldable pub handle_algorithm_run : Text → Option Text → Registry → Answer × Option RunLog
handle_algorithm_run name sent r = elim (get name r) [
  | none ↦ (record { status = 404; body = str "unknown algorithm" }, none)
  | some a ↦ run_body name a sent
]

-- `handleAlgorithmGet`
unfoldable pub handle_algorithm_get : Text → Registry → Result Descriptor ℕ
handle_algorithm_get name r = elim (get name r) [ none ↦ error 404 | some a ↦ ok a.describe ]
