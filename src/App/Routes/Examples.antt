-- ===== src/App/Routes/Examples.antt =====
-- Requests to the sample server that the guards stop.
use atomhub.Prelude.{◌≡◌, refl, [], ◌∷◌, none, list_eq}
use atomhub.Text.{codes, trim_space, cut}
use atomhub.Server.Outcome.{Untouched}
use atomhub.Samples.{sample}
use atomhub.Auth.Session as Sessions
use atomhub.App.Samples.{program, request}
use atomhub.Gateway.Access.{denied, bearer_token, require_gateway_access}
use atomhub.Admin.Login.{require_admin}
use atomhub.Gateway.Stream.{read_clock}
use atomhub.App.Routes.{get, Request, unauthorized, refused, signed_in, access, serve}
use atomhub.App.Routes.Guards.{IsClosed, serve-unauthorized, serve-refused}

abbrev list_of_keys : Request
list_of_keys = request get (codes "admin" ∷ codes "keys" ∷ [])

keys-IsClosed : IsClosed (codes "keys")
unfolding list_eq
keys-IsClosed = (refl, refl, refl)

no_cookie : (signed_in program list_of_keys sample).0 ≡ none
unfolding signed_in require_admin Sessions.get read_clock
no_cookie = refl

serve-unauthorized_example :
    ((serve program list_of_keys sample).0 ≡ unauthorized)
    × Untouched sample (serve program list_of_keys sample).1
serve-unauthorized_example =
    serve-unauthorized program list_of_keys sample (codes "keys") [] refl keys-IsClosed no_cookie

abbrev list_of_models : Request
list_of_models = request get (codes "v1" ∷ codes "models" ∷ [])

no_token : (access program list_of_models sample).0 ≡ denied 401 (codes "unauthorized")
unfolding require_gateway_access bearer_token trim_space cut
no_token = refl

serve-refused_example :
    ((serve program list_of_models sample).0 ≡ refused 401 (codes "unauthorized"))
    × Untouched sample (serve program list_of_models sample).1
serve-refused_example =
    serve-refused program list_of_models sample (codes "models") [] 401 (codes "unauthorized") refl
      no_token
