-- ===== src/Server/Readiness.antt =====
-- The readiness of the sources: `snapshot` and `handleReadyz` of internal/server/admin.go, and
-- `handleHealth` of internal/server/meta.go, by what the pings of the registry give.
use geoverse_map_server.Base.{
  ℕ, ◌-◌, ◌<◌, ◌≡◌, ◌↔◌, inl, inr, refl, Bool, true, false, [], ◌∷◌, Option, none, some, arith, ltb,
  if◌then◌else◌, Bool-cases,
}
use geoverse_map_server.Base.Dict.{Dict}
use geoverse_map_server.Base.Lists.{All}
use geoverse_map_server.Base.Text.{Text, str}

-- `readinessTTL`, 5 seconds
abbrev pub readiness_ttl : ℕ
readiness_ttl = 5000000000

-- `readiness`, where the zero time is none.
pub record Readiness : Type 0 where
  pub checked : Option ℕ
  pub ready : Bool
  pub statuses : Option (Dict Text Text)

-- The loop over the pings: whether all succeeded, and the status of each source.
unfoldable pub status_of : Option Text → Text
status_of none = str "ok"
status_of (some e) = e

unfoldable pub sweep_pings : Dict Text (Option Text) → Bool × Dict Text Text
sweep_pings [] = (true, [])
sweep_pings ((name, ping) ∷ pings) =
    let rest = sweep_pings pings in
    (elim ping [ none ↦ rest.0 | some e ↦ false ], (name, status_of ping) ∷ rest.1)

-- `time.Since(s.ready.checked) < readinessTTL`, false for the zero time.
abbrev is_recent : ℕ → Option ℕ → Bool
is_recent now none = false
is_recent now (some checked) = ltb (now - checked) readiness_ttl

-- `snapshot`, by the times at its test and at its end: the verdict, the statuses and the memo.
unfoldable pub snapshot :
    ℕ → ℕ → Dict Text (Option Text) → Readiness → (Bool × Dict Text Text) × Readiness
snapshot now later pings r =
    let fresh = sweep_pings pings in
    let swept : (Bool × Dict Text Text) × Readiness =
      (fresh, record { checked = some later; ready = fresh.0; statuses = some fresh.1 }) in
    elim r.statuses [
      | none ↦ swept
      | some statuses ↦ if is_recent now r.checked then ((r.ready, statuses), r) else swept
    ]

-- `invalidateReadiness`
unfoldable pub invalidate : Readiness → Readiness
invalidate r = record r { checked = none; statuses = none }

-- `handleReadyz`: the status of the answer, and the memo.
unfoldable pub handle_readyz : ℕ → ℕ → Dict Text (Option Text) → Readiness → ℕ × Readiness
handle_readyz now later pings r =
    let shot = snapshot now later pings r in (if shot.0.0 then 200 else 503, shot.1)

-- `handleHealth`: the status of the answer, and the statuses of the sources.
unfoldable pub handle_health : Dict Text (Option Text) → ℕ × Dict Text Text
handle_health pings = let swept = sweep_pings pings in (if swept.0 then 200 else 503, swept.1)

-- Every ping succeeded.
abbrev pub AllUp : Dict Text (Option Text) → Type 0
AllUp pings = All (λ (p : Text × Option Text). p.1 ≡ none) pings

pub sweep_pings-AllUp :
    (pings : Dict Text (Option Text)) → ((sweep_pings pings).0 ≡ true) ↔ AllUp pings
unfolding sweep_pings
sweep_pings-AllUp [] = (λ _. tt, λ _. refl)
sweep_pings-AllUp ((name, none) ∷ pings) =
    let ih = sweep_pings-AllUp pings in (λ h. (refl, ih.0 h), λ (_, h). ih.1 h)
sweep_pings-AllUp ((name, some e) ∷ pings) = (λ h. absurd (cc), λ (h, _). absurd (cc))

-- Under a readiness that was invalidated, the probe answers 200 exactly if every source answers
-- its ping now; the probes of the next five seconds repeat that answer, whatever the pings are by then.
pub handle_readyz-invalidate :
    (now later next end : ℕ) (pings pings' : Dict Text (Option Text)) (r : Readiness)
    → next - later < readiness_ttl
    → (((handle_readyz now later pings (invalidate r)).0 ≡ 200) ↔ AllUp pings)
      × (handle_readyz next end pings' (handle_readyz now later pings (invalidate r)).1
          ≡ handle_readyz now later pings (invalidate r))
unfolding handle_readyz snapshot invalidate
handle_readyz-invalidate now later next end pings pings' r soon =
    let (up, down) = sweep_pings-AllUp pings in
    let recent : is_recent next (some later) ≡ true = ground arith in
    elim (Bool-cases (sweep_pings pings).0) [
      | inl e ↦ rw (e, recent) ((λ _. up e, λ _. refl), refl)
      | inr e ↦
          rw (e, recent) ((λ h. absurd (omega arith), λ h. absurd (ground (arith, down h))), refl)
    ]
