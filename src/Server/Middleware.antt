-- ===== src/Server/Middleware.antt =====
-- internal/server/middleware.go, and the order in which `Handler` of internal/server/server.go puts
-- the layers around the route table. A handler takes the request and the response so far, and
-- returns or panics with the response it has written. The SHA-256 digest and the JSON of an error are
-- arguments; the metrics layer and the duration in the log are left out.
pub mod Permits
pub mod Laws
mod Tests
use geoverse_map_server.Base.{
  ℕ, ◌+◌, Bool, true, false, List, [], ◌∷◌, ◌++◌, not, ◌&&◌, ◌||◌, ◌==◌, if◌then◌else◌, map, length,
}
use geoverse_map_server.Base.Dict.{Dict, insert}
use geoverse_map_server.Base.Strings.{same, is_empty, has_prefix, after}
use geoverse_map_server.Base.Text.{Text, str, text_eq}

-- What the layers read of a request: `Header.Get` and `Query().Get` of a missing name are empty.
pub record Request : Type 0 where
  pub method : Text
  pub path : Text
  pub authorization : Text
  pub x_api_key : Text
  pub api_key : Text

-- `statusRecorder`, and the response under it: the headers, the status that was sent (0 before one
-- is) and the body.
pub record Response : Type 0 where
  pub headers : Dict Text Text
  pub sent : ℕ
  pub body : Text
  pub status : ℕ
  pub bytes : ℕ

abbrev pub blank : Response
blank = record { headers = []; sent = 0; body = []; status = 0; bytes = 0 }

-- `w.Header().Set`, which has an effect before the status is sent.
pub set_header : Text → Text → Response → Response
set_header name v w =
    if w.sent == 0 then record w { headers = insert text_eq name v w.headers } else w

-- net/http sends the first status only.
abbrev send : ℕ → Response → Response
send code w = if w.sent == 0 then record w { sent = code } else w

-- `WriteHeader`
pub write_header : ℕ → Response → Response
write_header code w = send code (record w { status = code })

-- `Write`, where the connection takes all the bytes.
pub write : Text → Response → Response
write b w =
    let noted : Response = if w.status == 0 then record w { status = 200 } else w in
    let sent : Response = send 200 noted in
    record sent { body = sent.body ++ b; bytes = sent.bytes + length b }

-- What a handler ends with.
pub data Outcome : Type 0 where
  returned : Response → Outcome
  panicked : Response → Outcome

abbrev pub Handler : Type 0
Handler = Request → Response → Outcome

-- The headers of `corsMiddleware`.
pub cors_headers : Response → Response
cors_headers w =
    let w1 = set_header (str "Access-Control-Allow-Origin") (str "*") w in
    let w2 =
      set_header (str "Access-Control-Allow-Methods") (str "GET, HEAD, POST, DELETE, OPTIONS") w1 in
    set_header (str "Access-Control-Allow-Headers") (str "*") w2

-- `corsMiddleware`
pub cors_middleware : Handler → Handler
cors_middleware next r w =
    if same r.method (str "OPTIONS")
    then returned (write_header 204 (cors_headers w))
    else next r (cors_headers w)

-- The paths that need no key.
pub is_public : Request → Bool
is_public r =
    let asset : Bool =
      (same r.method (str "GET") || same r.method (str "HEAD"))
      && (same r.path (str "/admin/")
          || same r.path (str "/admin/app.css")
          || same r.path (str "/admin/app.js")) in
    same r.path (str "/health") || same r.path (str "/readyz") || asset

-- The key that a request carries.
pub key_of : Request → Text
key_of r =
    if has_prefix (str "Bearer ") r.authorization
    then after (str "Bearer ") r.authorization
    else if not (is_empty r.x_api_key)
    then r.x_api_key
    else r.api_key

-- `validKey`: the loop over the digests, which does not stop at a match.
pub valid_from : Bool → Text → List Text → Bool
valid_from found h [] = found
valid_from found h (want ∷ wants) =
    let rest = valid_from (if same h want then true else found) h wants in rest

-- The settings that `Handler` reads.
pub record Settings : Type 0 where
  pub auth : Bool
  pub api_keys : List Text
  pub cors : Bool

module _ (encode_error : ℕ → Text → Text) where
  -- `writeError`
  pub write_error : ℕ → Text → Response → Response
  write_error code message w =
      write (encode_error code message)
        (write_header code (set_header (str "Content-Type") (str "application/json") w))

  -- The refusal of `authMiddleware`.
  pub unauthorized : Response → Response
  unauthorized w =
      write_error 401 (str "missing or invalid API key")
        (set_header (str "WWW-Authenticate") (str "Bearer realm=\"geoverse\"") w)

  -- `authMiddleware`
  pub auth_middleware : (Text → Text) → List Text → Handler → Handler
  auth_middleware digest keys next r w =
      let key : Text = key_of r in
      let valid : Bool = valid_from false (digest key) (map digest keys) in
      if is_public r
      then next r w
      else if is_empty key || not valid
      then returned (unauthorized w)
      else next r w

  recovered : Outcome → Response
  recovered (returned w) = w
  recovered (panicked w) = write_error 500 (str "internal server error") w

  -- `recoverMiddleware`: it always returns.
  pub recover_middleware : Handler → Request → Response → Response
  recover_middleware next r w = recovered (next r w)

  -- The layers of `Handler` around the routes, without those that count and log.
  pub handler : (Text → Text) → Settings → Handler → Request → Response → Response
  handler digest s mux =
      let guarded : Handler = if s.auth then auth_middleware digest s.api_keys mux else mux in
      let open_to_origins : Handler = if s.cors then cors_middleware guarded else guarded in
      recover_middleware open_to_origins

-- The line of the log.
pub record LogLine : Type 0 where
  pub method : Text
  pub path : Text
  pub status : ℕ
  pub bytes : ℕ

-- `logMiddleware` around a layer that returns.
pub log_middleware : (Request → Response → Response) → Request → Response → Response × LogLine
log_middleware next r w =
    let done : Response = next r w in
    let final : Response = if done.status == 0 then record done { status = 200 } else done in
    (final, record { method = r.method; path = r.path; status = final.status; bytes = final.bytes })
