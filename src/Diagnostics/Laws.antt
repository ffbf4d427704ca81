-- ===== src/Diagnostics/Laws.antt =====
-- The exit code of the doctor.
use geoverse_map_server.Base.{
  ◌≡◌, ◌↔◌, inl, inr, refl, Bool, true, false, not, ◌&&◌, ◌||◌, List, [], ◌∷◌, ◌++◌, Option, none,
  some, arith, if◌then◌else◌, Bool-cases,
}
use geoverse_map_server.Base.Lists.{All}
use geoverse_map_server.Base.Results.{ok, Result-cases}
use geoverse_map_server.Base.Text.{Text}
use geoverse_map_server.Config.{Config, Source, is_file}
use geoverse_map_server.Diagnostics.{
  Finding, Opened, Machine, is_failed, any_error, any_failed, exit_code, memory_backed, excess_of,
  warnings, inspect_opened, inspect_source, inspect_all, policy_findings, doctor,
}

any_error-append : (xs ys : List Finding) → any_error (xs ++ ys) ≡ (any_error xs || any_error ys)
unfolding any_error
any_error-append [] ys = refl
any_error-append (x ∷ xs) ys = ground (arith, any_error-append xs ys)

excess_of-any_error :
    (name : Text) (e : Option (Option (List Text))) → any_error (excess_of name e) ≡ false
unfolding any_error
excess_of-any_error name none = refl
excess_of-any_error name (some none) = refl
excess_of-any_error name (some (some [])) = refl
excess_of-any_error name (some (some (p ∷ ps))) = refl

warnings-any_error : (checks : List (Bool × Text)) → any_error (warnings checks) ≡ false
unfolding any_error warnings
warnings-any_error [] = refl
warnings-any_error ((true, code) ∷ checks) = warnings-any_error checks
warnings-any_error ((false, code) ∷ checks) = warnings-any_error checks

-- A source that the machine can read: its file passes the inspection, if it is one, and it opens
-- and answers its ping.
pub record IsReachable (m : Machine) (c : Config) (sc : Source) : Type 0 where
  pub inspected : is_file sc.kind ≡ true → m.inspect_asset c sc.path (memory_backed sc.kind) ≡ true
  pub answers : (o : Opened) × (m.open_source c sc ≡ some o) × (o.alive ≡ true)

inspect_opened-any_error :
    (c : Config) (sc : Source) (o : Option Opened) → any_error (inspect_opened c sc o).1 ≡ false
unfolding inspect_opened any_error
inspect_opened-any_error c sc none = refl
inspect_opened-any_error c sc (some o) = ground (arith, excess_of-any_error sc.name o.excess)

inspect_opened-status :
    (c : Config) (sc : Source) (o : Option Opened)
    → (is_failed (inspect_opened c sc o).0.status ≡ false)
      ↔ ((p : Opened) × (o ≡ some p) × (p.alive ≡ true))
unfolding inspect_opened
inspect_opened-status c sc none = (λ h. absurd (cc), λ (p, e, h). absurd (cc))
inspect_opened-status c sc (some o) = elim (Bool-cases o.alive) [
  | inl e ↦ (λ h. (o, refl, e), λ h. rw e refl)
  | inr e ↦ (λ h. absurd (ground arith), λ (p, same, h). absurd (ground arith))
]

module _ (m : Machine) (c : Config) where
  inspect_source-any_error : (sc : Source) → any_error (inspect_source m c sc).1 ≡ false
  unfolding inspect_source any_error
  inspect_source-any_error sc = ground (arith, inspect_opened-any_error c sc (m.open_source c sc))

  inspect_source-status :
      (sc : Source) → (is_failed (inspect_source m c sc).0.status ≡ false) ↔ IsReachable m c sc
  unfolding inspect_source
  inspect_source-status sc =
      let (to, back) = inspect_opened-status c sc (m.open_source c sc) in
      elim (Bool-cases
        (is_file sc.kind && not (m.inspect_asset c sc.path (memory_backed sc.kind)))) [
          | inl e ↦ (λ h. absurd (ground arith), λ v. absurd (ground (arith, v.inspected)))
          | inr e ↦ (
            λ h. record { inspected = ground arith; answers = to (ground arith) },
            λ v. ground (arith, back v.answers),
          )
        ]

  inspect_all-any_error :
      (scs : List Source) → any_error (inspect_all m c (λ sc. true) scs).1 ≡ false
  unfolding inspect_all any_error
  inspect_all-any_error [] = refl
  inspect_all-any_error (sc ∷ scs) = ground (
    arith,
    any_error-append (inspect_source m c sc).1 (inspect_all m c (λ x. true) scs).1,
    inspect_source-any_error sc,
    inspect_all-any_error scs,
  )

  inspect_all-status :
      (scs : List Source)
      → (any_failed (inspect_all m c (λ sc. true) scs).0 ≡ false) ↔ All (IsReachable m c) scs
  unfolding inspect_all any_failed
  inspect_all-status [] = (λ h. tt, λ h. refl)
  inspect_all-status (sc ∷ scs) =
      let (to, back) = inspect_source-status sc in
      let (to_all, back_all) = inspect_all-status scs in
      (
        λ h. (to (ground arith), to_all (ground arith)),
        λ (v, vs). ground (arith, back v, back_all vs),
      )

policy_findings-any_error : (c : Config) → any_error (policy_findings c) ≡ false
unfolding policy_findings
policy_findings-any_error c = warnings-any_error _

-- The doctor exits with 0 exactly if the configuration can be loaded and every source of it is
-- reachable; its warnings do not count.
pub doctor-exit_code :
    (m : Machine)
    → (exit_code (doctor m) ≡ 0)
      ↔ ((c : Config) × (m.load ≡ ok c) × All (IsReachable m c) c.sources)
unfolding doctor exit_code any_error
doctor-exit_code m = elim (Result-cases m.load) [
  | inr (e, bad) ↦ (λ h. absurd (ground arith), λ (c, same, h). absurd (ground arith))
  | inl (c, good) ↦
      let found = inspect_all m c (λ sc. true) c.sources in
      let quiet : any_error (policy_findings c ++ found.1) ≡ false = ground (
        arith,
        any_error-append (policy_findings c) found.1,
        policy_findings-any_error c,
        inspect_all-any_error m c c.sources,
      ) in
      let (to, back) = inspect_all-status m c c.sources in
      let code : exit_code (doctor m) ≡ (if any_failed found.0 then 1 else 0) =
        simp (good, doctor, quiet) in
      (
        λ h. (c, good, to (ground (arith, code))),
        λ (d, same, each).
            let one : c ≡ d = ground arith in ground (arith, code, back (rw one each)),
      )
]
