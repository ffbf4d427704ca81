-- ===== src/Config/Loading.antt =====
-- `Load`: what a configuration that it gives is.
use geoverse_map_server.Base.{
  ◌≡◌, inl, inr, refl, false, List, [], ◌∷◌, ◌++◌, Option, none, some, arith, Option-cases,
  Bool-cases,
}
use geoverse_map_server.Base.Lists.{All}
use geoverse_map_server.Base.Results.{ok, Result-cases}
use geoverse_map_server.Base.Strings.{is_empty, trim_space, split_on}
use geoverse_map_server.Base.Text.{Text}
use geoverse_map_server.Config.{Config, default, validate, trimmed_keys, env_keys, load}
use geoverse_map_server.Config.Laws.{IsConfig, validate_iff}

trimmed_keys-filled : (ks : List Text) → All (λ (k : Text). is_empty k ≡ false) (trimmed_keys ks)
unfolding trimmed_keys
trimmed_keys-filled [] = tt
trimmed_keys-filled (k ∷ ks) = elim (Bool-cases (is_empty (trim_space k))) [
  | inl e ↦ rw e (trimmed_keys-filled ks)
  | inr e ↦ rw e (e, trimmed_keys-filled ks)
]

env_keys-filled : (env : Text) → All (λ (k : Text). is_empty k ≡ false) (env_keys env)
unfolding env_keys
env_keys-filled [] = tt
env_keys-filled (c ∷ env) = trimmed_keys-filled (split_on 44 (c ∷ env))

-- A configuration that `Load` gives is valid, and its keys are those of the file, then those of the
-- environment, none of which is empty.
pub load-IsConfig :
    (unmarshal : Text → Config → Option Config) (file : Option Text) (env : Text) (c : Config)
    → load unmarshal file env ≡ ok c
    → IsConfig c
      × ((raw : Text) × (parsed : Config) × (file ≡ some raw)
          × (unmarshal raw default ≡ some parsed)
          × (c.auth.api_keys ≡ parsed.auth.api_keys ++ env_keys env))
      × All (λ (k : Text). is_empty k ≡ false) (env_keys env)
unfolding load
load-IsConfig unmarshal none env c h = absurd (cc)
load-IsConfig unmarshal (some raw) env c h = elim (Option-cases (unmarshal raw default)) [
  | inl bad ↦ absurd (ground arith)
  | inr (parsed, good) ↦
      let keyed : Config = record parsed {
        auth = record parsed.auth { api_keys = parsed.auth.api_keys ++ env_keys env };
      } in
      elim (Result-cases (validate keyed)) [
        | inr (e, bad) ↦ absurd (ground arith)
        | inl (tt, valid) ↦
            let same : keyed ≡ c = ground arith in
            rw (← same)
              ((validate_iff keyed).0 valid, (raw, parsed, refl, good, refl), env_keys-filled env)
      ]
]
