-- ===== src/Gateway/Access.antt =====
-- Who may use the downstream API: `requireGatewayAccess` of internal/app/handlers_gateway.go.
pub mod Admission
mod Examples
use atomhub.Prelude.{
  ℕ, Bool, true, false, not, ◌&&◌, List, [], ◌∷◌, Option, none, some, if◌then◌else◌, list_eq,
}
use atomhub.Text.{Text, codes, is_empty, trim_space, equal_fold, cut}
use atomhub.Types.{DownstreamKey, Error, downstream_key_not_found, Result, ok, err}
use atomhub.Server.{Server}
use atomhub.Auth.{Crypto}
use atomhub.Store.DownstreamKeys.{find_by_token}

-- The request goes on, with the client if the token is one's, or is refused with a status.
pub data Access : Type 0 where
  admitted : Option DownstreamKey → Access
  denied : ℕ → Text → Access

non_empty : Text → Option Text
non_empty token = if is_empty token then none else some token

-- what comes after the first space, if what comes before it is the scheme
unfoldable pub bearer_token : Text → Option Text
unfolding non_empty
bearer_token authz = elim (cut 32 authz) [
  | none ↦ none
  | some (scheme, rest) ↦
      if equal_fold (trim_space scheme) (codes "Bearer") then non_empty (trim_space rest) else none
]

abbrev pub unauthorized : Access
unauthorized = denied 401 (codes "unauthorized")

refusal : Error → Access
refusal downstream_key_not_found = unauthorized
refusal e = denied 500 (codes "authenticate gateway request failed")

by_client : Result DownstreamKey × Server → Access × Server
unfolding refusal
by_client (ok key, s) = (admitted (some key), s)
by_client (err e, s) = (refusal e, s)

module _ (crypto : Crypto) (secret gateway_token : Text) where
  by_token : Option Text → Server → Access × Server
  unfolding by_client
  by_token none s = (unauthorized, s)
  by_token (some token) s =
      if not (is_empty gateway_token) && list_eq token gateway_token
      then (admitted none, s)
      else by_client (find_by_token crypto secret token s)

  unfoldable pub require_gateway_access : Text → Server → Access × Server
  unfolding by_token
  require_gateway_access authorization s = by_token (bearer_token (trim_space authorization)) s
