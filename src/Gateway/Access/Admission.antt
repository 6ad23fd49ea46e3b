-- ===== src/Gateway/Access/Admission.antt =====
-- `requireGatewayAccess` of internal/app/handlers_gateway.go lets in the configured token and the
-- tokens of enabled clients, and no other.
use mathlib.Core.List.{Memᴰ}
use atomhub.Prelude.{
  ◌≡◌, refl, ap, ◌⊎◌, inl, inr, true, false, not, ◌&&◌, Option, none, some, arith, list_eq,
  list_eq_iff, Bool-cases,
}
use atomhub.Text.{Text, is_empty, trim_space}
use atomhub.Types.{DownstreamKey, Result, ok, err}
use atomhub.Server.{Server}
use atomhub.Server.Outcome.{Holds, Untouched, Untouched-refl}
use atomhub.Auth.{Crypto, hash_downstream_token}
use atomhub.Store.DownstreamKeys.{scan_downstream_key, find_by_token}
use atomhub.Store.DownstreamKeys.Lookup.{find_sound, open_row, NoClient, find_by_token-Outcome}
use atomhub.Gateway.Access.{
  Access, admitted, denied, bearer_token, refusal, by_client, by_token, require_gateway_access,
}

module _ (crypto : Crypto) (secret gateway_token : Text) where
  -- The row of an enabled client with the token's hash is the client handed on.
  pub record IsClient (token : Text) (s : Server) (key : DownstreamKey) : Type 0 where
    pub row : DownstreamKey
    pub stored : Memᴰ row s.tables.downstream_keys
    pub enabled : row.enabled ≡ true
    pub hash : row.token_hash ≡ hash_downstream_token crypto (trim_space token)
    pub scanned : key ≡ scan_downstream_key row

  -- What each answer says of the token, `none` where the header has none.
  unfoldable pub Decided : Option Text → Server → Access → Type 0
  Decided o s (admitted none) = (o ≡ some gateway_token) × (is_empty gateway_token ≡ false)
  Decided o s (admitted (some key)) = (token : Text) × (o ≡ some token) × IsClient token s key
  Decided o s (denied status text) =
      (status ≡ 500)
      ⊎ ((status ≡ 401)
          × ((o ≡ none)
              ⊎ ((token : Text) × (o ≡ some token) × (open_row crypto secret token s ≡ none))))

  client-Decided :
      (token : Text) (s : Server) (r : Result DownstreamKey × Server)
      → Holds
          (λ e t. NoClient crypto secret token s e × Untouched s t)
          (λ key t.
            (row : DownstreamKey) × (open_row crypto secret token s ≡ some row)
            × (key ≡ scan_downstream_key row)
            × Untouched s t)
          r
      → Decided (some token) s (by_client r).0 × Untouched s (by_client r).1
  unfolding by_client refusal Decided
  client-Decided token s (ok key, t) (row, found, scanned, q) =
      let (stored, opens) = find_sound _ s.tables.downstream_keys row found in
      (
        (
          token,
          refl,
          record {
            row = row;
            stored = stored;
            enabled = ground (arith, opens);
            hash = ground (
              arith,
              opens,
              list_eq_iff row.token_hash (hash_downstream_token crypto (trim_space token)),
            );
            scanned = scanned;
          },
        ),
        q,
      )
  client-Decided token s (err e, t) (inl h, q) = (rw h (inl refl), q)
  client-Decided token s (err e, t) (inr (h, missing), q) =
      (rw h (inr (refl, inr (token, refl, missing))), q)

  token-Decided :
      (o : Option Text) (s : Server)
      → Decided o s (by_token crypto secret gateway_token o s).0
        × Untouched s (by_token crypto secret gateway_token o s).1
  unfolding by_token Decided
  token-Decided none s = (inr (refl, inl refl), Untouched-refl s)
  token-Decided (some token) s =
      elim (Bool-cases (not (is_empty gateway_token) && list_eq token gateway_token)) [
        | inl e ↦ rw e (
          (ap some ((list_eq_iff token gateway_token).0 (ground (arith, e))), ground (arith, e)),
          Untouched-refl s,
        )
        | inr e ↦ rw e (
            client-Decided token s (find_by_token crypto secret token s)
              (find_by_token-Outcome crypto secret token s).holds)
      ]

  -- A request that is let in has a bearer token, which is the configured one, if there is one, or has
  -- the hash of a stored, enabled client, the one handed on. One that is refused with 401 has no bearer
  -- token or one that no enabled client has; the only other refusal is 500. The tables and the
  -- counters are not changed.
  pub require_gateway_access-Decided :
      (authorization : Text) (s : Server)
      → let r = require_gateway_access crypto secret gateway_token authorization s in
        Decided (bearer_token (trim_space authorization)) s r.0 × Untouched s r.1
  unfolding require_gateway_access
  require_gateway_access-Decided authorization s =
      token-Decided (bearer_token (trim_space authorization)) s
