-- ===== src/Server/Admin/Laws.antt =====
-- A server whose sources are managed while it runs: the configuration stays valid, and the registry
-- stays that of the configuration.
use geoverse_map_server.Base.{
  ◌≡◌, ◌≢◌, ◌⊎◌, inl, inr, refl, sym, ap, ◌∙◌, Bool, true, List, [], ◌∷◌, Option, none, some,
  if_pos, arith, Bool-cases, Option-cases,
}
use geoverse_map_server.Base.Dict.{lookup}
use geoverse_map_server.Base.Results.{ok, error, Result-cases}
use geoverse_map_server.Base.Strings.{is_empty, listed}
use geoverse_map_server.Base.Text.{Text, text_eq}
use geoverse_map_server.Config.{Source, validate}
use geoverse_map_server.Config.Laws.{validate_iff}
use geoverse_map_server.Config.Loop.{source_names}
use geoverse_map_server.Config.Save.{SaveFaults, save_sources}
use geoverse_map_server.Registry.{Opened, opened, failed, names, get, replace, remove, drop_first}
use geoverse_map_server.Registry.Build.{Opened-cases}
use geoverse_map_server.Registry.Invariant
use geoverse_map_server.Registry.Invariant.{
  DistinctNames, is_some, replace-IsValid, remove-IsValid, remove_old,
}
use geoverse_map_server.Server.Admin.{
  Site, Answer, saved, Backend, put_source, drop_source, with_sources, validate_candidate,
  preserve_secret, trimmed, install, save_source, handle_save, uninstall, handle_delete,
}
use geoverse_map_server.Server.Admin.Merge.{put_source-names, drop_source-names}

-- The configuration is valid, and the registry is valid and has its names in its order.
pub record IsManaged {S : Type 0} (site : Site S) : Type 0 where
  pub valid : validate site.config ≡ ok tt
  pub registry : Invariant.IsValid site.registry
  pub named : names site.registry ≡ source_names site.config.sources

-- A name has a source exactly if it is configured.
pub is_some-listed :
    {S : Type 0} (site : Site S) (n : Text)
    → IsManaged site
    → is_some (get n site.registry) ≡ listed n (source_names site.config.sources)
unfolding get names
is_some-listed site n m = ground (arith, m.registry.agree n, m.named)

replaced-names :
    {S : Type 0} (site : Site S) (sc : Source) (s : S)
    → IsManaged site
    → names (replace sc.name s site.registry) ≡ source_names (put_source sc site.config.sources).0
replaced-names site sc s m =
    let (_, _, order) = replace-IsValid site.registry m.registry sc.name s in
    let (named, _) = put_source-names sc site.config.sources in
    let there = is_some-listed site sc.name m in ground (arith, order, named, there, m.named)

removed-names :
    {S : Type 0} (site : Site S) (name : Text)
    → IsManaged site
    → listed name (source_names site.config.sources) ≡ true
    → names (remove name site.registry).0 ≡ source_names (drop_source name site.config.sources).0
unfolding names get
removed-names site name m found =
    let v = (validate_iff site.config).0 m.valid in
    let (named, _) = drop_source-names name site.config.sources v.distinct in
    let there = is_some-listed site name m in
    elim (Option-cases (lookup text_eq name site.registry.sources)) [
      | inl missing ↦ absurd (ground arith)
      | inr (old, e) ↦
          let gone = remove_old site.registry m.registry name e in
          rw gone (ap (drop_first name) m.named ∙ sym named)
    ]

-- The same server, but for its files.
abbrev pub Unchanged : {S : Type 0} → Site S → Site S → Type 0
Unchanged site site' =
    (site'.config ≡ site.config)
    × (site'.registry ≡ site.registry)
    × (site'.readiness ≡ site.readiness)

Unchanged-IsManaged :
    {S : Type 0} (site site' : Site S) → Unchanged site site' → IsManaged site → IsManaged site'
Unchanged-IsManaged site site' (c, r, _) m = record {
  valid = rw c (m.valid);
  registry = rw r (m.registry);
  named = rw (c, r) (m.named);
}

module _ (b : Backend) where
  open b use {Source', Error}

  -- What a save has done: the source is in place under its name and nothing was closed, or the
  -- server is as before and what was opened is closed.
  abbrev pub IsSaved : Source → Site Source' → Answer Error × Site Source' × List Source' → Type 0
  IsSaved sc site (answer, site', closed) =
      (answer ≡ saved sc.name (listed sc.name (source_names site.config.sources)))
      × IsManaged site'
      × (site'.config ≡ with_sources site.config (put_source sc site.config.sources).0)
      × ((s : Source') × (b.open_source sc ≡ opened s) × (get sc.name site'.registry ≡ some s))
      × (closed ≡ [])

  -- The sources that a save opens.
  abbrev opened_list : Opened Source' Error → List Source'
  opened_list (opened s) = s ∷ []
  opened_list (failed e) = []

  pub attempted : Source → List Source'
  attempted sc = elim (validate_candidate sc) [
    | error e ↦ []
    | ok _ ↦ opened_list (b.open_source sc)
  ]

  abbrev pub IsRefused :
      List Source' → Site Source' → Answer Error × Site Source' × List Source' → Type 0
  IsRefused opens site (answer, site', closed) =
      ((name : Text) (found : Bool) → answer ≢ saved name found)
      × Unchanged site site'
      × (closed ≡ opens)

module _ (b : Backend) (faults : SaveFaults) (temp : Text) where
  open b use {Source', Error}

  installed :
      (sc : Source) (s : Source') (site : Site Source')
      → IsManaged site
      → b.open_source sc ≡ opened s
      → IsSaved b sc site (install b faults temp sc s site)
        ⊎ IsRefused b (s ∷ []) site (install b faults temp sc s site)
  unfolding install
  installed sc s site m opens =
      let sources = (put_source sc site.config.sources).0 in
      let put = save_sources b.yaml faults temp site.config_path sources site.files in
      elim (Result-cases (validate (with_sources site.config sources))) [
        | inr (e, bad) ↦
            inr (rw (bad, install) ((λ name found h. absurd (cc)), (refl, refl, refl), refl))
        | inl (done, good) ↦ elim (Result-cases put.0) [
          | inr (e, bad) ↦
              inr
                (rw (good, bad, install) ((λ name found h. absurd (cc)), (refl, refl, refl), refl))
          | inl (stored, kept) ↦
              let (registered, lookups, _) = replace-IsValid site.registry m.registry sc.name s in
              inl (
                rw (good, kept, install)
                  (
                    ap (saved sc.name) (put_source-names sc site.config.sources).1,
                    record {
                      valid = good;
                      registry = registered;
                      named = replaced-names site sc s m;
                    },
                    refl,
                    (
                      s,
                      opens,
                      lookups sc.name
                          ∙ if_pos (text_eq sc.name sc.name) refl (some s)
                              (get sc.name site.registry),
                    ),
                    refl,
                  ))
        ]
      ]

  -- A save on a managed server either puts the source in place, in the configuration and under its name in the
  -- registry, and closes nothing; or it leaves the configuration, the registry and the readiness
  -- as they were and closes what it had opened. A success keeps the server managed.
  pub save_source-outcome :
      (sc : Source) (site : Site Source')
      → IsManaged site
      → IsSaved b sc site (save_source b faults temp sc site)
        ⊎ IsRefused b (attempted b sc) site (save_source b faults temp sc site)
  unfolding save_source attempted
  save_source-outcome sc site m = elim (Result-cases (validate_candidate sc)) [
    | inr (e, bad) ↦
        inr (
          rw (bad, save_source, attempted)
            ((λ name found h. absurd (cc)), (refl, refl, refl), refl))
    | inl (done, good) ↦ elim (Opened-cases (b.open_source sc)) [
      | inr (e, bad) ↦ inr (
          rw (good, bad, save_source, attempted)
            ((λ name found h. absurd (cc)), (refl, refl, refl), refl))
      | inl (s, opens) ↦ elim (Option-cases (b.ping s)) [
        | inr (e, bad) ↦ inr (
            rw (good, opens, bad, save_source, attempted)
              ((λ name found h. absurd (cc)), (refl, refl, refl), refl))
        | inl alive ↦
            let result : save_source b faults temp sc site ≡ install b faults temp sc s site =
              rw (good, opens, alive, save_source) refl in
            let tried : attempted b sc ≡ s ∷ [] = rw (good, opens, attempted) refl in
            rw (result, tried) (installed sc s site m opens)
      ]
    ]
  ]

  outcome-IsManaged :
      (sc : Source) (opens : List Source') (site : Site Source')
      (r : Answer Error × Site Source' × List Source')
      → IsManaged site
      → IsSaved b sc site r ⊎ IsRefused b opens site r
      → IsManaged (r.1)
  outcome-IsManaged sc opens site r m (inl saves) = saves.1
  outcome-IsManaged sc opens site r m (inr refuses) = Unchanged-IsManaged site r.1 refuses.1 m

  pub handle_save-IsManaged :
      (to_lower : Text → Text) (body : Option Source) (site : Site Source')
      → IsManaged site
      → IsManaged (handle_save b to_lower faults temp body site).1
  unfolding handle_save
  handle_save-IsManaged to_lower none site m = elim (Bool-cases (is_empty site.config_path)) [
    | inl e ↦ rw e m
    | inr e ↦ rw e m
  ]
  handle_save-IsManaged to_lower (some body) site m =
      let sc = preserve_secret site.config.sources (trimmed to_lower body) in
      let saves = save_source-outcome sc site m in
      let kept =
        outcome-IsManaged sc (attempted b sc) site (save_source b faults temp sc site) m saves in
      elim (Bool-cases (is_empty site.config_path)) [ inl e ↦ rw e m | inr e ↦ rw e kept ]

  uninstall-IsManaged :
      (name : Text) (site : Site Source')
      → IsManaged site
      → listed name (source_names site.config.sources) ≡ true
      → IsManaged (uninstall b faults temp name (drop_source name site.config.sources).0 site).1
  unfolding uninstall
  uninstall-IsManaged name site m found =
      let sources = (drop_source name site.config.sources).0 in
      let put = save_sources b.yaml faults temp site.config_path sources site.files in
      elim (Result-cases (validate (with_sources site.config sources))) [
        | inr (e, bad) ↦ rw (bad, uninstall) m
        | inl (done, good) ↦ elim (Result-cases put.0) [
          | inr (e, bad) ↦
              rw (good, bad, uninstall)
                (record { valid = m.valid; registry = m.registry; named = m.named })
          | inl (stored, kept) ↦
              rw (good, kept, uninstall)
                (record {
                  valid = good;
                  registry = (remove-IsValid site.registry m.registry name).0;
                  named = removed-names site name m found;
                })
        ]
      ]

  pub handle_delete-IsManaged :
      (name : Text) (site : Site Source')
      → IsManaged site
      → IsManaged (handle_delete b faults temp name site).1
  unfolding handle_delete
  handle_delete-IsManaged name site m =
      let v = (validate_iff site.config).0 m.valid in
      let (_, found) = drop_source-names name site.config.sources v.distinct in
      elim (Bool-cases (is_empty site.config_path)) [
        | inl e ↦ rw e m
        | inr e ↦ elim (Bool-cases (drop_source name site.config.sources).1) [
          | inr f ↦ rw (e, f) m
          | inl f ↦ rw (e, f) (uninstall-IsManaged name site m (sym found ∙ f))
        ]
      ]
