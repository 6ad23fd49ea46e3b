-- ===== src/App/Routes/Guards.antt =====
-- The guards of internal/app/routes.go.
use atomhub.Prelude.{ℕ, All, ◌≡◌, refl, ◌∙◌, ap, true, false, List, [], ◌∷◌, Option, none, list_eq}
use atomhub.Text.{Text, codes}
use atomhub.Server.{Server}
use atomhub.Server.Keeps.{IsTimed}
use atomhub.Server.Outcome.{Untouched}
use atomhub.Gateway.Access.{Access, admitted, denied}
use atomhub.Gateway.Access.Admission.{require_gateway_access-Decided}
use atomhub.Gateway.Stream.Clock.{read_clock-IsTimed}
use atomhub.App.Routes.{
  Method, Segment, word, Route, GatewayEndpoint, admin, gateway, first_match, admin_routes,
  gateway_routes, outer_routes, match_path, or_subtree, by_subtree, endpoint_of, Request, Program,
  unauthorized, refused, signed_in, access, serve_endpoint, guard_admin, guard_gateway, serve,
}

-- The second segment is none of those that are open to everybody.
abbrev pub IsClosed : Text → Type 0
IsClosed u =
    (list_eq (codes "login") u ≡ false)
    × (list_eq (codes "logout") u ≡ false)
    × (list_eq (codes "session") u ≡ false)

healthz_admin : list_eq (codes "healthz") (codes "admin") ≡ false
unfolding list_eq
healthz_admin = refl

admin_admin : list_eq (codes "admin") (codes "admin") ≡ true
unfolding list_eq
admin_admin = refl

healthz_v1 : list_eq (codes "healthz") (codes "v1") ≡ false
unfolding list_eq
healthz_v1 = refl

admin_v1 : list_eq (codes "admin") (codes "v1") ≡ false
unfolding list_eq
admin_v1 = refl

v1_admin : list_eq (codes "v1") (codes "admin") ≡ false
unfolding list_eq
v1_admin = refl

v1_v1 : list_eq (codes "v1") (codes "v1") ≡ true
unfolding list_eq
v1_v1 = refl

-- Where no pattern fits, no route is found.
first_match-none :
    {E : Type 0} (routes : List (Route E)) (method : Method) (path : List Text)
    → All (λ (r : Route E). match_path r.path path ≡ none) routes
    → first_match routes method path ≡ none
unfolding first_match
first_match-none [] method path h = refl
first_match-none (r ∷ routes) method path h =
    rw (h.0, first_match) (first_match-none routes method path h.1)

other_word :
    (w : Text) (ps : List Segment) (t : Text) (ts : List Text)
    → list_eq w t ≡ false
    → match_path (word w ∷ ps) (t ∷ ts) ≡ none
unfolding match_path
other_word w ps t ts e = rw e refl

same_word :
    (w : Text) (ps : List Segment) (t : Text) (ts : List Text)
    → list_eq w t ≡ true
    → match_path (word w ∷ ps) (t ∷ ts) ≡ match_path ps ts
unfolding match_path
same_word w ps t ts e = rw e refl

-- a pattern of two words, of which the first fits and the second does not
other_second :
    (w v t u : Text) (ts : List Text)
    → list_eq w t ≡ true
    → list_eq v u ≡ false
    → match_path (word w ∷ word v ∷ []) (t ∷ u ∷ ts) ≡ none
other_second w v t u ts e f = same_word w (word v ∷ []) t (u ∷ ts) e ∙ other_word v [] u ts f

endpoint_of-admin :
    (method : Method) (u : Text) (ts : List Text)
    → IsClosed u
    → endpoint_of method (codes "admin" ∷ u ∷ ts)
      ≡ admin (first_match admin_routes method (codes "admin" ∷ u ∷ ts))
unfolding endpoint_of
endpoint_of-admin method u ts c =
    let unmatched : first_match outer_routes method (codes "admin" ∷ u ∷ ts) ≡ none =
      first_match-none outer_routes method (codes "admin" ∷ u ∷ ts) (
        other_word _ _ _ _ healthz_admin,
        (
          other_second _ _ _ u ts admin_admin c.0,
          (other_second _ _ _ u ts admin_admin c.1, (other_second _ _ _ u ts admin_admin c.2, tt)),
        ),
      ) in
    ap (or_subtree method (codes "admin" ∷ u ∷ ts)) unmatched
    ∙ rw (or_subtree, by_subtree, admin_admin) refl

endpoint_of-v1 :
    (method : Method) (u : Text) (ts : List Text)
    → endpoint_of method (codes "v1" ∷ u ∷ ts)
      ≡ gateway (first_match gateway_routes method (codes "v1" ∷ u ∷ ts))
unfolding endpoint_of
endpoint_of-v1 method u ts =
    let unmatched : first_match outer_routes method (codes "v1" ∷ u ∷ ts) ≡ none =
      first_match-none outer_routes method (codes "v1" ∷ u ∷ ts) (
        other_word _ _ _ _ healthz_v1,
        (
          other_word _ _ _ _ admin_v1,
          (other_word _ _ _ _ admin_v1, (other_word _ _ _ _ admin_v1, tt)),
        ),
      ) in
    ap (or_subtree method (codes "v1" ∷ u ∷ ts)) unmatched
    ∙ rw (or_subtree, by_subtree, v1_admin, v1_v1) refl

-- The tables, the counters and the catalog are those of before.
timed-Untouched : (s t : Server) → IsTimed s t → Untouched s t
timed-Untouched s t h = record {
  tables = ap (λ (r : Server). r.tables) h;
  memory = record {
    inflight = ap (λ (r : Server). r.inflight) h;
    keys_by_model = ap (λ (r : Server). r.keys_by_model) h;
  };
}

denied-guard_gateway :
    (program : Program) (request : Request) (e : Option GatewayEndpoint) (r : Access × Server)
    (status : ℕ) (text : Text)
    → r.0 ≡ denied status text
    → guard_gateway program request e r ≡ (refused status text, r.1)
unfolding guard_gateway
denied-guard_gateway program request e (denied status' text', s) status text h =
    let same : refused status' text' ≡ refused status text = cc in ap (λ x. (x, s)) same
denied-guard_gateway program request e (admitted client, s) status text h = cc

module _ (program : Program) (request : Request) (s : Server) (u : Text) (ts : List Text) where
  -- A request under /admin/ that is not for the login, the logout or the session, and has no cookie that is accepted, is
  -- answered with 401, whatever its method and whether there is such a handler or not, and no
  -- table, counter or catalog entry changes.
  pub serve-unauthorized :
      request.path ≡ codes "admin" ∷ u ∷ ts
      → IsClosed u
      → (signed_in program request s).0 ≡ none
      → ((serve program request s).0 ≡ unauthorized) × Untouched s (serve program request s).1
  unfolding serve serve_endpoint guard_admin signed_in
  serve-unauthorized path closed anonymous =
      rw
        (path, endpoint_of-admin request.method u ts closed, anonymous, serve_endpoint, guard_admin)
        (refl, timed-Untouched s _ (read_clock-IsTimed s s refl))

  -- A request under /v1/ that requireGatewayAccess denies is answered as it says, whatever its method
  -- and whether there is such a handler or not, and no table, counter or catalog entry changes.
  pub serve-refused :
      (status : ℕ) (text : Text)
      → request.path ≡ codes "v1" ∷ u ∷ ts
      → (access program request s).0 ≡ denied status text
      → ((serve program request s).0 ≡ refused status text)
        × Untouched s (serve program request s).1
  unfolding serve serve_endpoint guard_gateway
  serve-refused status text path no_access =
      rw (path, endpoint_of-v1 request.method u ts, serve_endpoint)
        (let stopped =
            denied-guard_gateway program request
              (first_match gateway_routes request.method (codes "v1" ∷ u ∷ ts))
              (access program request s) status text no_access in
          (
            ap (λ r. r.0) stopped,
            rw (ap (λ r. r.1) stopped) (require_gateway_access-Decided _ _ _ _ s).1,
          ))
