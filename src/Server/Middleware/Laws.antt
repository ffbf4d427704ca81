-- ===== src/Server/Middleware/Laws.antt =====
-- What passes the layers around the routes, and what the client gets where nothing passes.
use geoverse_map_server.Base.{
  ℕ, ◌≡◌, ◌≢◌, inl, inr, refl, Bool, true, false, List, [], ◌∷◌, ◌&&◌, ◌||◌, arith, map,
  if◌then◌else◌, Bool-cases, ap, sym, ◌∙◌,
}
use geoverse_map_server.Base.Lists.{All}
use geoverse_map_server.Base.Strings.{same, listed}
use geoverse_map_server.Base.Text.{Text, str, text_eq}
use geoverse_map_server.Server.Middleware.Permits.{
  Carries, IsPermitted, Carries-key_of, is_permitted, is_permitted_iff,
}
use geoverse_map_server.Server.Middleware.{
  Request, Response, blank, set_header, write_header, write, Handler, returned, panicked,
  cors_headers, cors_middleware, key_of, valid_from, write_error, unauthorized, auth_middleware,
  recovered, recover_middleware, Settings, handler, log_middleware,
}

-- No configured key has the digest of another text, among those that are compared.
abbrev pub Faithful : (Text → Text) → Text → List Text → Type 0
Faithful digest k keys = All (λ (j : Text). digest k ≡ digest j → k ≡ j) keys

valid_from-listed :
    (digest : Text → Text) (found : Bool) (k : Text) (keys : List Text)
    → Faithful digest k keys
    → valid_from found (digest k) (map digest keys) ≡ (found || listed k keys)
unfolding valid_from listed same
valid_from-listed digest found k [] f = ground arith
valid_from-listed digest found k (j ∷ keys) (f, fs) =
    let found' : Bool = if same (digest k) (digest j) then true else found in
    let ih = valid_from-listed digest found' k keys fs in
    elim (text_eq j k) [ yes e ↦ ground (arith, ap digest e) | no n ↦ ground (arith, f) ]

-- A status that was sent and noted for the log.
abbrev HasStatus : ℕ → Response → Type 0
HasStatus n w = (w.sent ≡ n) × (w.status ≡ n)

log_middleware-status :
    (next : Request → Response → Response) (r : Request) (w : Response) (n : ℕ)
    → n ≢ 0
    → HasStatus n (next r w)
    → (log_middleware next r w).1.status ≡ n
unfolding log_middleware
log_middleware-status next r w n some_status (sent, noted) = ground arith

module _ (encode_error : ℕ → Text → Text) (digest : Text → Text) where
  auth_middleware-is_permitted :
      (keys : List Text) (next : Handler) (r : Request) (w : Response)
      → Faithful digest (key_of r) keys
      → auth_middleware encode_error digest keys next r w
        ≡ (if is_permitted keys r then next r w else returned (unauthorized encode_error w))
  unfolding auth_middleware
  auth_middleware-is_permitted keys next r w f =
      let valid = valid_from-listed digest false (key_of r) keys f in ground arith

  -- Where the digest tells the request's key from the configured ones, the layer hands on unchanged
  -- each request that is for an exempt path (the two probes, and the three files of the web interface
  -- with GET or HEAD) or that carries a configured key that is not empty, and answers 401 to each
  -- other request.
  pub auth_middleware-IsPermitted :
      (keys : List Text) (next : Handler) (r : Request) (w : Response)
      → ((k : Text) → Carries r k → Faithful digest k keys)
      → (IsPermitted keys r → auth_middleware encode_error digest keys next r w ≡ next r w)
        × (¬ IsPermitted keys r
            → auth_middleware encode_error digest keys next r w
              ≡ returned (unauthorized encode_error w))
  auth_middleware-IsPermitted keys next r w f =
      let passes = auth_middleware-is_permitted keys next r w (f (key_of r) (Carries-key_of r)) in
      let permits = is_permitted_iff keys r in
      (
        λ yes_it. passes ∙ rw (permits.1 yes_it) refl,
        λ no_it. passes ∙ elim (Bool-cases (is_permitted keys r)) [
          | inl e ↦ absurd (no_it (permits.0 e))
          | inr e ↦ rw e refl
        ],
      )

  unauthorized-HasStatus : (w : Response) → w.sent ≡ 0 → HasStatus 401 (unauthorized encode_error w)
  unfolding unauthorized write_error write write_header set_header
  unauthorized-HasStatus w h = (ground arith, ground arith)

  -- The status of a request that the layer of the keys refuses, under the origin layer.
  cors_middleware-refused :
      (next : Handler) (r : Request)
      → ((w : Response) → next r w ≡ returned (unauthorized encode_error w))
      → HasStatus
          (if same r.method (str "OPTIONS") then 204 else 401)
          (recovered encode_error (cors_middleware next r blank))
  unfolding cors_middleware cors_headers write_header set_header recovered
  cors_middleware-refused next r refuses = elim (Bool-cases (same r.method (str "OPTIONS"))) [
    | inl e ↦ rw (e, recovered) (refl, refl)
    | inr e ↦ rw (e, refuses, recovered) (unauthorized-HasStatus _ refl)
  ]

  refused-HasStatus :
      (s : Settings) (mux : Handler) (r : Request)
      → s.auth ≡ true
      → ((w : Response)
          → auth_middleware encode_error digest s.api_keys mux r w
            ≡ returned (unauthorized encode_error w))
      → HasStatus
          (if s.cors && same r.method (str "OPTIONS") then 204 else 401)
          (handler encode_error digest s mux r blank)
  unfolding handler recover_middleware recovered
  refused-HasStatus s mux r on refuses = elim (Bool-cases s.cors) [
    | inl e ↦
        rw (on, e, handler)
          (cors_middleware-refused (auth_middleware encode_error digest s.api_keys mux) r refuses)
    | inr e ↦ rw (on, e, refuses, handler) (unauthorized-HasStatus blank refl)
  ]

  -- With keys switched on and a digest that tells the request's key from the configured ones, a
  -- request that is neither for an exempt path nor carries a configured key that is not empty never
  -- reaches the routes, whatever they do: it gets 204 if it is a preflight that the origin layer
  -- answers, and 401 if not; the status logged is the one sent.
  pub handler-refused :
      (s : Settings) (mux : Handler) (r : Request)
      → s.auth ≡ true
      → ((k : Text) → Carries r k → Faithful digest k s.api_keys)
      → ¬ IsPermitted s.api_keys r
      → ((handler encode_error digest s mux r blank).sent
          ≡ (if s.cors && same r.method (str "OPTIONS") then 204 else 401))
        × ((log_middleware (handler encode_error digest s mux) r blank).1.status
            ≡ (handler encode_error digest s mux r blank).sent)
  handler-refused s mux r on f refused =
      let has =
        refused-HasStatus s mux r on
          λ w. (auth_middleware-IsPermitted s.api_keys mux r w f).1 refused in
      let n : ℕ = if s.cors && same r.method (str "OPTIONS") then 204 else 401 in
      let logged =
        log_middleware-status (handler encode_error digest s mux) r blank n (ground arith) has in
      (has.0, logged ∙ sym (has.0))

  recovered-HasStatus :
      (w : Response) → w.sent ≡ 0 → HasStatus 500 (recovered encode_error (panicked w))
  unfolding recovered write_error write write_header set_header
  recovered-HasStatus w h = (ground arith, ground arith)

  cors_middleware-panicked :
      (next : Handler) (r : Request)
      → ((w : Response) → (w' : Response) × (next r w ≡ panicked w') × (w'.sent ≡ w.sent))
      → same r.method (str "OPTIONS") ≡ false
      → HasStatus 500 (recovered encode_error (cors_middleware next r blank))
  unfolding cors_middleware cors_headers set_header
  cors_middleware-panicked next r panics plain =
      let (w', e, same_sent) = panics (cors_headers blank) in
      rw (plain, cors_middleware, e) (recovered-HasStatus w' same_sent)

  -- The layer of the keys, where it is switched on, hands a permitted request on unchanged.
  guarded-passes :
      (s : Settings) (mux : Handler) (r : Request) (w : Response)
      → (s.auth ≡ true → Faithful digest (key_of r) s.api_keys × (is_permitted s.api_keys r ≡ true))
      → (if s.auth then auth_middleware encode_error digest s.api_keys mux else mux) r w ≡ mux r w
  guarded-passes s mux r w permitted = elim (Bool-cases s.auth) [
    | inl e ↦ rw e (
        ground
          (arith, auth_middleware-is_permitted s.api_keys mux r w (permitted e).0, (permitted e).1))
    | inr e ↦ rw e refl
  ]

  -- A route that panics before it has sent a status gives the client a 500, and the log too, for
  -- every request that reaches the routes: no preflight that the origin layer answers, and permitted
  -- by a digest that tells keys apart where keys are switched on.
  pub handler-panicked :
      (s : Settings) (mux : Handler) (r : Request)
      → (s.auth ≡ true → Faithful digest (key_of r) s.api_keys × (is_permitted s.api_keys r ≡ true))
      → (s.cors && same r.method (str "OPTIONS")) ≡ false
      → ((w : Response) → (w' : Response) × (mux r w ≡ panicked w') × (w'.sent ≡ w.sent))
      → ((handler encode_error digest s mux r blank).sent ≡ 500)
        × ((log_middleware (handler encode_error digest s mux) r blank).1.status ≡ 500)
  unfolding handler recover_middleware
  handler-panicked s mux r permitted plain panics =
      let guarded : Handler =
        if s.auth then auth_middleware encode_error digest s.api_keys mux else mux in
      let panics' : (w : Response)
          → (w' : Response) × (guarded r w ≡ panicked w') × (w'.sent ≡ w.sent) =
        λ w. let (w', e, kept) = panics w in (w', guarded-passes s mux r w permitted ∙ e, kept) in
      let has : HasStatus 500 (handler encode_error digest s mux r blank) =
        elim (Bool-cases s.cors) [
          | inl e ↦ rw (e, handler) (cors_middleware-panicked guarded r panics' (ground arith))
          | inr e ↦
              let (w', e', kept) = panics' blank in
              rw (e, handler, e') (recovered-HasStatus w' kept)
        ] in
      (
        has.0,
        log_middleware-status (handler encode_error digest s mux) r blank 500 (ground arith) has,
      )
