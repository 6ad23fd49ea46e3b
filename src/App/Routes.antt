-- ===== src/App/Routes.antt =====
-- The routes of internal/app/routes.go and what serves a request: the outer mux, the guard of the
-- admin API, the guard of the chat API and the handlers behind them. A path is given as its segments,
-- a trailing slash as an empty last one, and is clean: net/http redirects one with other empty
-- segments, `.` or `..` to its clean form before it looks for a handler. The matching of patterns is
-- net/http's: a method GET also takes HEAD, a wildcard takes a segment that is not empty, and a path
-- that lacks the trailing slash of a subtree is redirected. The decodings of the body are results that
-- the request brings.
pub mod Guards
pub mod Sound
mod Examples
use atomhub.Prelude.{
  ℕ, Bool, true, false, ◌&&◌, List, [], ◌∷◌, Option, none, some, if◌then◌else◌, list_eq,
}
use atomhub.Text.{Text, codes, is_empty}
use atomhub.Types.{DownstreamKey, Result}
use atomhub.Server.{Server}
use atomhub.Auth.{Crypto}
use atomhub.Auth.Session.{Signing}
use atomhub.Probe.{Providers}
use atomhub.Gateway.Api.{ChatRequest, External}
use atomhub.Gateway.Access.{Access, admitted, denied, require_gateway_access}
use atomhub.Gateway.Chat
use atomhub.Gateway.Chat.{handle_gateway_models, handle_chat_completions}
use atomhub.Gateway.Stream.{read_clock}
use atomhub.Admin.Answers.{Handler}
use atomhub.Admin.Payloads.{KeyPayload, KeyUpdatePayload, ClientPayload, ClientUpdatePayload}
use atomhub.Admin.Keys
use atomhub.Admin.Keys.{handle_create_key, handle_update_key, handle_delete_key, handle_probe_key}
use atomhub.Admin.Clients.{
  ClientReply, handle_list_downstream_keys, handle_create_downstream_key,
  handle_update_downstream_key, handle_delete_downstream_key, handle_reveal_downstream_key,
  handle_regenerate_downstream_key,
}
use atomhub.Admin.Reports.{
  Report, handle_dashboard, handle_list_keys, handle_models, handle_health, handle_requests,
}
use atomhub.App.Static.{Page, spa_handler}
use atomhub.Admin.Login.{LoginRequest, LoginReply, handle_admin_login, require_admin}

pub data Method : Type 0 where
  get head post put delete other_method : Method

-- the pattern's method takes the request's
takes : Method → Method → Bool
takes get get = true
takes get head = true
takes head head = true
takes post post = true
takes put put = true
takes delete delete = true
takes pattern method = false

pub data Segment : Type 0 where
  word : Text → Segment
  id : Segment

-- The handlers behind the guard of the admin API; those with `{id}` get its value.
pub data AdminEndpoint : Type 0 where
  me dashboard list_keys create_key models health requests list_clients create_client :
      AdminEndpoint
  update_key delete_key probe_key update_client delete_client reveal_client regenerate_client :
      Text → AdminEndpoint

pub data GatewayEndpoint : Type 0 where
  list_models chat_completions : GatewayEndpoint

pub data Endpoint : Type 0 where
  healthz login logout session : Endpoint
  -- `none` where the inner mux answers 404 or 405
  admin : Option AdminEndpoint → Endpoint
  gateway : Option GatewayEndpoint → Endpoint
  redirected static : Endpoint

pub record Route (E : Type 0) : Type 0 where
  pub method : Method
  pub path : List Segment
  pub endpoint : Text → E

-- the value of `{id}`, empty where the pattern has none
match_path : List Segment → List Text → Option Text
match_path [] [] = some []
match_path [] (t ∷ ts) = none
match_path (p ∷ ps) [] = none
match_path (word w ∷ ps) (t ∷ ts) = if list_eq w t then match_path ps ts else none
match_path (id ∷ ps) (t ∷ ts) =
    let rest = match_path ps ts in
    if is_empty t then none else elim rest [ none ↦ none | some value ↦ some t ]

unfoldable pub first_match : {E : Type 0} → List (Route E) → Method → List Text → Option E
unfolding takes match_path
first_match [] method path = none
first_match (route ∷ routes) method path =
    let rest = first_match routes method path in
    elim (match_path route.path path) [
      | none ↦ rest
      | some value ↦ if takes route.method method then some (route.endpoint value) else rest
    ]

abbrev route : {E : Type 0} → Method → List Segment → (Text → E) → Route E
route method path endpoint = record { method = method; path = path; endpoint = endpoint }

abbrev under_admin : List Segment → List Segment
under_admin rest = word (codes "admin") ∷ rest

abbrev outer_routes : List (Route Endpoint)
outer_routes =
    route get (word (codes "healthz") ∷ []) (λ v. healthz)
    ∷ route post (under_admin (word (codes "login") ∷ [])) (λ v. login)
    ∷ route post (under_admin (word (codes "logout") ∷ [])) (λ v. logout)
    ∷ route get (under_admin (word (codes "session") ∷ [])) (λ v. session)
    ∷ []

abbrev keys_path : List Segment
keys_path = word (codes "keys") ∷ []

abbrev key_path : List Segment → List Segment
key_path rest = under_admin (word (codes "keys") ∷ id ∷ rest)

abbrev client_path : List Segment → List Segment
client_path rest = under_admin (word (codes "downstream-keys") ∷ id ∷ rest)

abbrev admin_routes : List (Route AdminEndpoint)
admin_routes =
    route get (under_admin (word (codes "me") ∷ [])) (λ v. me)
    ∷ route get (under_admin (word (codes "dashboard") ∷ [])) (λ v. dashboard)
    ∷ route get (under_admin keys_path) (λ v. list_keys)
    ∷ route post (under_admin keys_path) (λ v. create_key)
    ∷ route put (key_path []) update_key
    ∷ route delete (key_path []) delete_key
    ∷ route post (key_path (word (codes "probe") ∷ [])) probe_key
    ∷ route get (under_admin (word (codes "models") ∷ [])) (λ v. models)
    ∷ route get (under_admin (word (codes "health") ∷ [])) (λ v. health)
    ∷ route get (under_admin (word (codes "requests") ∷ [])) (λ v. requests)
    ∷ route get (under_admin (word (codes "downstream-keys") ∷ [])) (λ v. list_clients)
    ∷ route post (under_admin (word (codes "downstream-keys") ∷ [])) (λ v. create_client)
    ∷ route put (client_path []) update_client
    ∷ route delete (client_path []) delete_client
    ∷ route post (client_path (word (codes "token") ∷ [])) reveal_client
    ∷ route post (client_path (word (codes "regenerate") ∷ [])) regenerate_client
    ∷ []

abbrev gateway_routes : List (Route GatewayEndpoint)
gateway_routes =
    route get (word (codes "v1") ∷ word (codes "models") ∷ []) (λ v. list_models)
    ∷ route post (word (codes "v1") ∷ word (codes "chat") ∷ word (codes "completions") ∷ [])
        (λ v. chat_completions)
    ∷ []

-- the patterns with a trailing slash: the admin API, the chat API and the rest
by_subtree : Method → List Text → Endpoint
by_subtree method [] = static
by_subtree method (t ∷ []) =
    if list_eq t (codes "admin")
    then redirected
    else if list_eq t (codes "v1")
    then redirected
    else static
by_subtree method (t ∷ u ∷ ts) =
    if list_eq t (codes "admin")
    then admin (first_match admin_routes method (t ∷ u ∷ ts))
    else if list_eq t (codes "v1")
    then gateway (first_match gateway_routes method (t ∷ u ∷ ts))
    else static

-- a pattern without a trailing slash, or else a subtree
or_subtree : Method → List Text → Option Endpoint → Endpoint
unfolding by_subtree
or_subtree method path none = by_subtree method path
or_subtree method path (some e) = e

pub endpoint_of : Method → List Text → Endpoint
unfolding or_subtree
endpoint_of method path = or_subtree method path (first_match outer_routes method path)

pub record Request : Type 0 where
  pub method : Method
  pub path : List Text
  pub cookie : Option Text
  pub authorization : Text
  pub model_query : Text
  pub limit_query : Text
  pub login : Result LoginRequest
  pub key : Result KeyPayload
  pub key_update : Result KeyUpdatePayload
  pub client : Result ClientPayload
  pub client_update : Result ClientUpdatePayload
  pub chat : Result ChatRequest
  pub breaks : List Bool

-- What the program was started with, and the libraries and services that it calls.
pub record Program : Type 0 where
  pub signing : Signing
  pub session_ttl : ℕ
  pub verify : Text → Text → Bool
  pub crypto : Crypto
  pub downstream_key_secret : Text
  pub gateway_token : Text
  pub providers : Providers
  pub external : External
  -- what os.Stat finds in the directory of the web frontend
  pub is_file : List Text → Bool

-- What is written. `unrouted` is net/http's 404 or 405.
pub data Response : Type 0 where
  alive signed_out unauthorized unrouted redirected : Response
  page : Page → Response
  signed : LoginReply → Response
  session : Option Text → Response
  me : Text → Response
  keys : Keys.Reply → Response
  clients : ClientReply → Response
  report : Report → Response
  gateway_models : List Text → Response
  chat : Chat.Response → Response
  refused : ℕ → Text → Response

-- the reply of a handler, as a response
unfoldable pub as_response : {R : Type 0} → (R → Response) → R × Server → Response × Server
as_response wrap (reply, s) = (wrap reply, s)

module _ (program : Program) (request : Request) where
  -- behind RequireAdmin, for the admin signed in
  serve_admin : Option AdminEndpoint → Text → Handler Response
  serve_admin none username s = (unrouted, s)
  serve_admin (some me) username s = (Response.me username, s)
  serve_admin (some dashboard) username s = as_response report (handle_dashboard s)
  serve_admin (some list_keys) username s = as_response report (handle_list_keys s)
  serve_admin (some create_key) username s =
      as_response keys (handle_create_key program.providers request.key s)
  serve_admin (some (update_key raw)) username s =
      as_response keys (handle_update_key program.providers raw request.key_update s)
  serve_admin (some (delete_key raw)) username s = as_response keys (handle_delete_key raw s)
  serve_admin (some (probe_key raw)) username s =
      as_response keys (handle_probe_key program.providers raw s)
  serve_admin (some models) username s = as_response report (handle_models s)
  serve_admin (some health) username s = as_response report (handle_health s)
  serve_admin (some requests) username s =
      as_response report (handle_requests request.model_query request.limit_query s)
  serve_admin (some list_clients) username s = as_response clients (handle_list_downstream_keys s)
  serve_admin (some create_client) username s =
      as_response clients
        (handle_create_downstream_key program.crypto program.downstream_key_secret request.client s)
  serve_admin (some (update_client raw)) username s =
      as_response clients (handle_update_downstream_key raw request.client_update s)
  serve_admin (some (delete_client raw)) username s =
      as_response clients (handle_delete_downstream_key raw s)
  serve_admin (some (reveal_client raw)) username s =
      as_response clients
        (handle_reveal_downstream_key program.crypto program.downstream_key_secret raw s)
  serve_admin (some (regenerate_client raw)) username s =
      as_response clients
        (handle_regenerate_downstream_key program.crypto program.downstream_key_secret raw s)

  -- RequireAdmin
  guard_admin : Option AdminEndpoint → Option Text → Handler Response
  unfolding serve_admin
  guard_admin e none s = (unauthorized, s)
  guard_admin e (some username) s = serve_admin e username s

  -- the admin that the cookie signs in, by the clock
  unfoldable pub signed_in : Server → Option Text × Server
  signed_in s =
      let (time, t) = read_clock s in (require_admin program.signing request.cookie time, t)

  serve_gateway : Option GatewayEndpoint → Option DownstreamKey → Handler Response
  serve_gateway none client s = (unrouted, s)
  serve_gateway (some list_models) client s = (gateway_models (handle_gateway_models s), s)
  serve_gateway (some chat_completions) client s =
      as_response chat
        (handle_chat_completions program.external request.chat client request.breaks s)

  guard_gateway : Option GatewayEndpoint → Access × Server → Response × Server
  unfolding serve_gateway
  guard_gateway e (denied status text, s) = (refused status text, s)
  guard_gateway e (admitted client, s) = serve_gateway e client s

  -- requireGatewayAccess
  abbrev pub access : Server → Access × Server
  access =
      require_gateway_access program.crypto program.downstream_key_secret program.gateway_token
        request.authorization

  serve_endpoint : Endpoint → Handler Response
  unfolding guard_admin guard_gateway signed_in
  serve_endpoint healthz s = (alive, s)
  serve_endpoint login s =
      as_response signed
        (handle_admin_login program.signing program.verify program.session_ttl request.login s)
  serve_endpoint logout s = (signed_out, s)
  serve_endpoint session s = as_response Response.session (signed_in s)
  serve_endpoint (admin e) s = guard_admin e (signed_in s).0 (signed_in s).1
  serve_endpoint (gateway e) s = guard_gateway e (access s)
  serve_endpoint redirected s = (Response.redirected, s)
  serve_endpoint static s = (page (spa_handler program.is_file request.path), s)

  pub serve : Handler Response
  unfolding serve_endpoint
  serve = serve_endpoint (endpoint_of request.method request.path)
