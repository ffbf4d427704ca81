-- ===== src/Server/Middleware/Tests.antt =====
-- Runs of the layers around the routes, and their theorems at concrete inputs.
use geoverse_map_server.Base.{
  ℕ, ◌≡◌, refl, true, false, List, [], ◌∷◌, ◌++◌, ◌&&◌, ℕ_discrete, if◌then◌else◌,
}
use geoverse_map_server.Base.Dict.{insert, delete}
use geoverse_map_server.Base.Strings.{same, listed}
use geoverse_map_server.Base.Text.{Text, str, text_eq}
use geoverse_map_server.Server.Middleware.{
  Request, blank, set_header, write_header, write, Handler, returned, panicked, cors_headers,
  cors_middleware, is_public, key_of, valid_from, write_error, unauthorized, auth_middleware,
  recovered, recover_middleware, Settings, handler, log_middleware,
}
use geoverse_map_server.Server.Middleware.Laws.{
  Faithful, auth_middleware-IsPermitted, handler-refused, handler-panicked,
}
use geoverse_map_server.Server.Middleware.Permits.{
  Carries, IsPermitted, is_permitted, is_permitted_iff,
}

program : Unit {0}
unfolding insert delete same listed text_eq ℕ_discrete set_header write_header write cors_headers
    cors_middleware is_public key_of valid_from write_error unauthorized auth_middleware recovered
    recover_middleware handler log_middleware
program = tt

abbrev encode : ℕ → Text → Text
encode code message = message

abbrev digest : Text → Text
digest k = 0 ∷ k

abbrev keys : List Text
keys = str "k1" ∷ str "k2" ∷ []

abbrev settings : Settings
settings = record { auth = true; api_keys = keys; cors = true }

abbrev request_of : Text → Text → Text → Request
request_of method path key = record {
  method = method;
  path = path;
  authorization = str "Bearer " ++ key;
  x_api_key = [];
  api_key = [];
}

abbrev routes : Handler
routes r w = returned (write (str "tile") w)

abbrev broken : Handler
broken r w = panicked w

abbrev good : Request
good = request_of (str "GET") (str "/tiles") (str "k2")

abbrev bad : Request
bad = request_of (str "GET") (str "/tiles") (str "k3")

served : (handler encode digest settings routes good blank).sent ≡ 200
unfolding program
served = refl

health :
    (handler encode digest settings routes (request_of (str "GET") (str "/health") []) blank).sent
    ≡ 200
unfolding program
health = refl

is_permitted-good : is_permitted keys good ≡ true
unfolding program
is_permitted-good = refl

is_permitted-bad : is_permitted keys bad ≡ false
unfolding program
is_permitted-bad = refl

origins : (settings.cors && same good.method (str "OPTIONS")) ≡ false
unfolding program
origins = refl

digest-injective : (k j : Text) → digest k ≡ digest j → k ≡ j
digest-injective k j e = cc

digest-Faithful : (k : Text) → Faithful digest k keys
digest-Faithful k = (digest-injective k (str "k1"), (digest-injective k (str "k2"), tt))

all-Faithful : (r : Request) (k : Text) → Carries r k → Faithful digest k keys
all-Faithful r k h = digest-Faithful k

bad-refused : ¬ IsPermitted keys bad
bad-refused h = cc ((is_permitted_iff keys bad).1 h, is_permitted-bad)

abbrev anonymous : Request
anonymous = request_of (str "GET") (str "/tiles") []

auth_middleware-IsPermitted_example :
    (IsPermitted keys anonymous
      → auth_middleware encode digest keys routes anonymous blank ≡ routes anonymous blank)
    × (¬ IsPermitted keys anonymous
        → auth_middleware encode digest keys routes anonymous blank
          ≡ returned (unauthorized encode blank))
auth_middleware-IsPermitted_example =
    auth_middleware-IsPermitted encode digest keys routes anonymous blank (all-Faithful anonymous)

handler-refused_example :
    ((handler encode digest settings routes bad blank).sent
      ≡ (if settings.cors && same bad.method (str "OPTIONS") then 204 else 401))
    × ((log_middleware (handler encode digest settings routes) bad blank).1.status
        ≡ (handler encode digest settings routes bad blank).sent)
handler-refused_example =
    handler-refused encode digest settings routes bad refl (all-Faithful bad) bad-refused

handler-panicked_example :
    ((handler encode digest settings broken good blank).sent ≡ 500)
    × ((log_middleware (handler encode digest settings broken) good blank).1.status ≡ 500)
handler-panicked_example =
    handler-panicked encode digest settings broken good
      (λ on. (digest-Faithful (key_of good), is_permitted-good)) origins (λ w. (w, refl, refl))
