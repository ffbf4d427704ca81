-- ===== src/Algo/Run/Laws.antt =====
-- What a run of an algorithm answers and logs, by the chain of its error.
use geoverse_map_server.Base.{
  ◌≡◌, ◌≢◌, ◌≤◌, ◌⊎◌, inl, inr, refl, sym, ap, true, List, [], ◌∷◌, ◌++◌, none, some, arith, take,
  length, length-take, Bool-cases, Option-cases,
}
use geoverse_map_server.Base.Results.{ok, error}
use geoverse_map_server.Base.Text.{Text, str}
use geoverse_map_server.Algo.{Cause, Ran, Algorithm, Registry, get}
use geoverse_map_server.Algo.Run.{
  Answer, Logged, RunLog, log_ok, log_rejected, log_cancelled, log_failed, max_algo_body_bytes,
  params_of, as_user_error, is_canceled, is_deadline, answer_of, run_body, handle_algorithm_run,
}
use mathlib.Core.List.{Memᴰ}
use mathlib.Core.List.Memᴰ

-- No error of the chain is the user's.
abbrev pub HasNoUserError : List Cause → Type 0
HasNoUserError chain = (message : Text) → ¬ Memᴰ (Cause.user_error message) chain

-- The chain holds one of the two errors of a context.
abbrev pub IsStopped : List Cause → Type 0
IsStopped chain = Memᴰ Cause.canceled chain ⊎ Memᴰ Cause.deadline_exceeded chain

-- The message is that of the first user error of the chain.
abbrev pub HasFirst : Text → List Cause → Type 0
HasFirst message chain =
    (outer : List Cause) × (inner : List Cause) × (chain
      ≡ outer ++ Cause.user_error message ∷ inner)
    × HasNoUserError outer

-- What an error is to be answered with and logged as.
abbrev pub IsRefused : List Cause → Answer → Logged → Type 0
IsRefused chain answer outcome =
    ((message : Text) × HasFirst message chain
      × (answer ≡ record { status = 400; body = message })
      × (outcome ≡ log_rejected))
    ⊎ ((HasNoUserError chain × IsStopped chain × (answer.status ≡ 408) × (outcome ≡ log_cancelled))
        ⊎ (HasNoUserError chain
            × (¬ IsStopped chain)
            × (answer.status ≡ 500)
            × (outcome ≡ log_failed)))

-- What a run is to be answered with and logged as.
abbrev pub IsAnswered : Ran → Answer → Logged → Type 0
IsAnswered ran answer outcome =
    ((json : Text) × (ran ≡ ok json)
      × (answer ≡ record { status = 200; body = json })
      × (outcome ≡ log_ok))
    ⊎ ((chain : List Cause) × (ran ≡ error chain) × IsRefused chain answer outcome)

-- One more error that is not the user's.
HasNoUserError-cons :
    (c : Cause) (chain : List Cause)
    → ((message : Text) → ¬ (Cause.user_error message ≡ c))
    → HasNoUserError chain
    → HasNoUserError (c ∷ chain)
HasNoUserError-cons c chain apart h message m = elim (Memᴰ.cases_cons m) [
  | inl e ↦ apart message e
  | inr t ↦ h message t
]

HasFirst-cons :
    (c : Cause) (chain : List Cause) (message : Text)
    → ((text : Text) → ¬ (Cause.user_error text ≡ c))
    → HasFirst message chain
    → HasFirst message (c ∷ chain)
HasFirst-cons c chain message apart (outer, inner, e, h) =
    (c ∷ outer, inner, ap (λ l. c ∷ l) e, HasNoUserError-cons c outer apart h)

as_user_error-some :
    (chain : List Cause) (message : Text)
    → as_user_error chain ≡ some message
    → HasFirst message chain
unfolding as_user_error
as_user_error-some [] message h = absurd (cc h)
as_user_error-some (Cause.user_error text ∷ chain) message h =
    let same : text ≡ message = cc h in
    ([], chain, ap (λ t. Cause.user_error t ∷ chain) same, λ other m. Memᴰ.not-nil m)
as_user_error-some (Cause.canceled ∷ chain) message h =
    HasFirst-cons _ chain message (λ t e. cc e) (as_user_error-some chain message h)
as_user_error-some (Cause.deadline_exceeded ∷ chain) message h =
    HasFirst-cons _ chain message (λ t e. cc e) (as_user_error-some chain message h)
as_user_error-some (Cause.other text ∷ chain) message h =
    HasFirst-cons _ chain message (λ t e. cc e) (as_user_error-some chain message h)

as_user_error-none : (chain : List Cause) → as_user_error chain ≡ none → HasNoUserError chain
unfolding as_user_error
as_user_error-none [] h = λ message m. Memᴰ.not-nil m
as_user_error-none (Cause.user_error text ∷ chain) h = absurd (cc h)
as_user_error-none (Cause.canceled ∷ chain) h =
    HasNoUserError-cons _ chain (λ t e. cc e) (as_user_error-none chain h)
as_user_error-none (Cause.deadline_exceeded ∷ chain) h =
    HasNoUserError-cons _ chain (λ t e. cc e) (as_user_error-none chain h)
as_user_error-none (Cause.other text ∷ chain) h =
    HasNoUserError-cons _ chain (λ t e. cc e) (as_user_error-none chain h)

is_canceled-Memᴰ : (chain : List Cause) → is_canceled chain ≡ true → Memᴰ Cause.canceled chain
unfolding is_canceled
is_canceled-Memᴰ [] h = absurd (cc h)
is_canceled-Memᴰ (Cause.canceled ∷ chain) h = Memᴰ.head refl
is_canceled-Memᴰ (Cause.user_error text ∷ chain) h = Memᴰ.tail (is_canceled-Memᴰ chain h)
is_canceled-Memᴰ (Cause.deadline_exceeded ∷ chain) h = Memᴰ.tail (is_canceled-Memᴰ chain h)
is_canceled-Memᴰ (Cause.other text ∷ chain) h = Memᴰ.tail (is_canceled-Memᴰ chain h)

is_deadline-Memᴰ :
    (chain : List Cause) → is_deadline chain ≡ true → Memᴰ Cause.deadline_exceeded chain
unfolding is_deadline
is_deadline-Memᴰ [] h = absurd (cc h)
is_deadline-Memᴰ (Cause.deadline_exceeded ∷ chain) h = Memᴰ.head refl
is_deadline-Memᴰ (Cause.user_error text ∷ chain) h = Memᴰ.tail (is_deadline-Memᴰ chain h)
is_deadline-Memᴰ (Cause.canceled ∷ chain) h = Memᴰ.tail (is_deadline-Memᴰ chain h)
is_deadline-Memᴰ (Cause.other text ∷ chain) h = Memᴰ.tail (is_deadline-Memᴰ chain h)

Memᴰ-is_canceled : (chain : List Cause) → Memᴰ Cause.canceled chain → is_canceled chain ≡ true
unfolding is_canceled
Memᴰ-is_canceled [] m = absurd (Memᴰ.not-nil m)
Memᴰ-is_canceled (c ∷ chain) m = elim (Memᴰ.cases_cons m) [
  | inl e ↦ ap (λ x. is_canceled (x ∷ chain)) (sym e)
  | inr t ↦ past c (Memᴰ-is_canceled chain t)
]
  where
    past : (d : Cause) → is_canceled chain ≡ true → is_canceled (d ∷ chain) ≡ true
    past Cause.canceled h = refl
    past (Cause.user_error text) h = h
    past Cause.deadline_exceeded h = h
    past (Cause.other text) h = h

Memᴰ-is_deadline :
    (chain : List Cause) → Memᴰ Cause.deadline_exceeded chain → is_deadline chain ≡ true
unfolding is_deadline
Memᴰ-is_deadline [] m = absurd (Memᴰ.not-nil m)
Memᴰ-is_deadline (c ∷ chain) m = elim (Memᴰ.cases_cons m) [
  | inl e ↦ ap (λ x. is_deadline (x ∷ chain)) (sym e)
  | inr t ↦ past c (Memᴰ-is_deadline chain t)
]
  where
    past : (d : Cause) → is_deadline chain ≡ true → is_deadline (d ∷ chain) ≡ true
    past Cause.deadline_exceeded h = refl
    past (Cause.user_error text) h = h
    past Cause.canceled h = h
    past (Cause.other text) h = h

answer_of-IsAnswered : (ran : Ran) → IsAnswered ran (answer_of ran).0 (answer_of ran).1
unfolding answer_of
answer_of-IsAnswered (ok json) = inl (json, refl, refl, refl)
answer_of-IsAnswered (error chain) = inr (
  chain,
  refl,
  elim (Option-cases (as_user_error chain)) [
    | inr (message, e) ↦
        rw (e, answer_of) (inl (message, as_user_error-some chain message e, refl, refl))
    | inl e ↦
        let bare = as_user_error-none chain e in
        elim (Bool-cases (is_canceled chain)) [
          | inl off ↦
              rw (e, off, answer_of)
                (inr (inl (bare, inl (is_canceled-Memᴰ chain off), refl, refl)))
          | inr on ↦ elim (Bool-cases (is_deadline chain)) [
            | inl late ↦
                rw (e, on, late, answer_of)
                  (inr (inl (bare, inr (is_deadline-Memᴰ chain late), refl, refl)))
            | inr early ↦
                let running : ¬ IsStopped chain = λ h. elim h [
                  | inl m ↦ cc (Memᴰ-is_canceled chain m, on)
                  | inr m ↦ cc (Memᴰ-is_deadline chain m, early)
                ] in
                rw (e, on, early, answer_of) (inr (inr (bare, running, refl, refl)))
          ]
        ]
  ],
)

params_of-bound :
    (sent : Text) → length (params_of (take max_algo_body_bytes sent)) ≤ max_algo_body_bytes
unfolding params_of
params_of-bound [] = omega arith
params_of-bound (c ∷ sent) = omega (arith, length-take max_algo_body_bytes (c ∷ sent))

params_of-sent :
    (sent : Text)
    → ((sent ≡ []) × (params_of (take max_algo_body_bytes sent) ≡ str "{}"))
      ⊎ ((sent ≢ []) × (params_of (take max_algo_body_bytes sent) ≡ take 10485760 sent))
unfolding params_of
params_of-sent [] = inl (refl, refl)
params_of-sent (c ∷ sent) = inr (λ e. cc e, refl)

-- A request to run a known algorithm runs it on the first 10 MiB that were sent, or on `{}` for
-- nothing, and is answered and logged by how the run ends: its JSON with 200 as ok, an error of which
-- some part is the user's with 400 and the message of the first such part as rejected, without one an
-- error of which some part is a context's with 408 as cancelled, and any other with 500 as failed.
pub handle_algorithm_run-logged :
    (name sent : Text) (r : Registry) (a : Algorithm)
    → get name r ≡ some a
    → (log : RunLog) × (params : Text) × ((handle_algorithm_run name (some sent) r).1 ≡ some log)
      × (((sent ≡ []) × (params ≡ str "{}")) ⊎ ((sent ≢ []) × (params ≡ take 10485760 sent)))
      × (log.name ≡ name)
      × (log.param_bytes ≡ length params)
      × (length params ≤ 10485760)
      × IsAnswered (a.run params) (handle_algorithm_run name (some sent) r).0 log.outcome
unfolding handle_algorithm_run run_body
handle_algorithm_run-logged name sent r a found =
    let params : Text = params_of (take max_algo_body_bytes sent) in
    rw (found, handle_algorithm_run, run_body)
      (
        record { name = name; param_bytes = length params; outcome = (answer_of (a.run params)).1 },
        params,
        refl,
        params_of-sent sent,
        refl,
        refl,
        params_of-bound sent,
        answer_of-IsAnswered (a.run params),
      )
