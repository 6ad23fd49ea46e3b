-- ===== src/App/Routes/Sound.antt =====
-- Serving a request keeps the tables sound.
use mathlib.Core.Path.{subst}
use atomhub.Prelude.{refl, ap, sym, Option, none, some}
use atomhub.Text.{Text}
use atomhub.Types.{DownstreamKey, Result, ok, err}
use atomhub.Server.{Server}
use atomhub.Server.Outcome.{Untouched}
use atomhub.Store.Sound.{IsSound}
use atomhub.Gateway.Access.{Access, admitted, denied}
use atomhub.Gateway.Access.Admission.{require_gateway_access-Decided}
use atomhub.Gateway.Chat.Sound.{handle_chat_completions-Kept}
use atomhub.Gateway.Stream.Clock.{read_clock-IsTimed}
use atomhub.Admin.Keys.Sound as KeysSound
use atomhub.Admin.Clients.Sound as ClientsSound
use atomhub.Admin.Reports.Sound as ReportsSound
use atomhub.Admin.Login.{LoginRequest, handle_admin_login}
use atomhub.Admin.Login.Decision.{handle_admin_login-Decided}
use atomhub.App.Routes.{
  AdminEndpoint, me, dashboard, list_keys, create_key, models, health, requests, list_clients,
  create_client, update_key, delete_key, probe_key, update_client, delete_client, reveal_client,
  regenerate_client, GatewayEndpoint, list_models, chat_completions, Endpoint, healthz, login,
  logout, session, admin, gateway, redirected, static, endpoint_of, Request, Program, Response,
  as_response, serve_admin, guard_admin, signed_in, serve_gateway, guard_gateway, access,
  serve_endpoint, serve,
}

abbrev Kept : Server → Type 0
Kept s = IsSound s.tables

Untouched-Kept : (s t : Server) → Untouched s t → Kept s → Kept t
Untouched-Kept s t u k = subst IsSound (sym u.tables) k

as_response-Kept :
    {R : Type 0} (wrap : R → Response) (r : R × Server) → Kept r.1 → Kept (as_response wrap r).1
unfolding as_response
as_response-Kept wrap (reply, s) h = h

module _ (program : Program) (request : Request) where
  signed_in-Kept : (s : Server) → Kept s → Kept (signed_in program request s).1
  unfolding signed_in
  signed_in-Kept s h =
      subst IsSound (sym (ap (λ (r : Server). r.tables) (read_clock-IsTimed s s refl))) h

  serve_admin-Kept :
      (e : Option AdminEndpoint) (username : Text) (s : Server)
      → Kept s
      → Kept (serve_admin program request e username s).1
  unfolding serve_admin
  serve_admin-Kept none username s h = h
  serve_admin-Kept (some me) username s h = h
  serve_admin-Kept (some dashboard) username s h =
      as_response-Kept _ _ (ReportsSound.handle_dashboard-Kept s h)
  serve_admin-Kept (some list_keys) username s h =
      as_response-Kept _ _ (ReportsSound.handle_list_keys-Kept s h)
  serve_admin-Kept (some create_key) username s h =
      as_response-Kept _ _ (KeysSound.handle_create_key-Kept program.providers request.key s h)
  serve_admin-Kept (some (update_key raw)) username s h =
      as_response-Kept _ _
        (KeysSound.handle_update_key-Kept program.providers raw request.key_update s h)
  serve_admin-Kept (some (delete_key raw)) username s h =
      as_response-Kept _ _ (KeysSound.handle_delete_key-Kept raw s h)
  serve_admin-Kept (some (probe_key raw)) username s h =
      as_response-Kept _ _ (KeysSound.handle_probe_key-Kept program.providers raw s h)
  serve_admin-Kept (some models) username s h =
      as_response-Kept _ _ (ReportsSound.handle_models-Kept s h)
  serve_admin-Kept (some health) username s h =
      as_response-Kept _ _ (ReportsSound.handle_health-Kept s h)
  serve_admin-Kept (some requests) username s h =
      as_response-Kept _ _
        (ReportsSound.handle_requests-Kept request.model_query request.limit_query s h)
  serve_admin-Kept (some list_clients) username s h =
      as_response-Kept _ _ (ClientsSound.handle_list_downstream_keys-Kept s h)
  serve_admin-Kept (some create_client) username s h = as_response-Kept _ _ (
      ClientsSound.handle_create_downstream_key-Kept program.crypto program.downstream_key_secret
        request.client s h)
  serve_admin-Kept (some (update_client raw)) username s h =
      as_response-Kept _ _
        (ClientsSound.handle_update_downstream_key-Kept raw request.client_update s h)
  serve_admin-Kept (some (delete_client raw)) username s h =
      as_response-Kept _ _ (ClientsSound.handle_delete_downstream_key-Kept raw s h)
  serve_admin-Kept (some (reveal_client raw)) username s h = as_response-Kept _ _ (
      ClientsSound.handle_reveal_downstream_key-Kept program.crypto program.downstream_key_secret
        raw s h)
  serve_admin-Kept (some (regenerate_client raw)) username s h = as_response-Kept _ _ (
      ClientsSound.handle_regenerate_downstream_key-Kept program.crypto
        program.downstream_key_secret raw s h)

  guard_admin-Kept :
      (e : Option AdminEndpoint) (o : Option Text) (s : Server)
      → Kept s
      → Kept (guard_admin program request e o s).1
  unfolding guard_admin
  guard_admin-Kept e none s h = h
  guard_admin-Kept e (some username) s h = serve_admin-Kept e username s h

  serve_gateway-Kept :
      (e : Option GatewayEndpoint) (client : Option DownstreamKey) (s : Server)
      → Kept s
      → Kept (serve_gateway program request e client s).1
  unfolding serve_gateway
  serve_gateway-Kept none client s h = h
  serve_gateway-Kept (some list_models) client s h = h
  serve_gateway-Kept (some chat_completions) client s h =
      as_response-Kept _ _
        (handle_chat_completions-Kept program.external request.chat client request.breaks s h)

  guard_gateway-Kept :
      (e : Option GatewayEndpoint) (r : Access × Server)
      → Kept r.1
      → Kept (guard_gateway program request e r).1
  unfolding guard_gateway
  guard_gateway-Kept e (denied status text, s) h = h
  guard_gateway-Kept e (admitted client, s) h = serve_gateway-Kept e client s h

  login-Kept :
      (r : Result LoginRequest) (s : Server)
      → Kept s
      → Kept (handle_admin_login program.signing program.verify program.session_ttl r s).1
  unfolding handle_admin_login
  login-Kept (err e) s h = h
  login-Kept (ok req) s h =
      Untouched-Kept s _
        (handle_admin_login-Decided program.signing program.verify program.session_ttl req.username
          req.password s).1
        h

  serve_endpoint-Kept :
      (e : Endpoint) (s : Server) → Kept s → Kept (serve_endpoint program request e s).1
  unfolding serve_endpoint
  serve_endpoint-Kept healthz s h = h
  serve_endpoint-Kept login s h = as_response-Kept _ _ (login-Kept request.login s h)
  serve_endpoint-Kept logout s h = h
  serve_endpoint-Kept session s h = as_response-Kept _ _ (signed_in-Kept s h)
  serve_endpoint-Kept (admin e) s h = guard_admin-Kept e _ _ (signed_in-Kept s h)
  serve_endpoint-Kept (gateway e) s h =
      guard_gateway-Kept e (access program request s)
        (Untouched-Kept s _ (require_gateway_access-Decided _ _ _ _ s).1 h)
  serve_endpoint-Kept redirected s h = h
  serve_endpoint-Kept static s h = h

  pub serve-Kept : (s : Server) → IsSound s.tables → IsSound (serve program request s).1.tables
  unfolding serve
  serve-Kept s h = serve_endpoint-Kept (endpoint_of request.method request.path) s h
