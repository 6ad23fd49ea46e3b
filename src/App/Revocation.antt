-- ===== src/App/Revocation.antt =====
-- The end of a client's access, over the whole program.
use mathlib.Core.List.{Memᴰ}
use atomhub.Prelude.{
  ℕ, ◌≡◌, ◌≢◌, refl, ◌∙◌, ap, ap₂, sym, ◌⊎◌, inl, inr, Bool, true, false, List, [], ◌∷◌, none, some,
  find?, Bool-cases, list_eq_iff, ◌&&◌,
}
use atomhub.Text.{Text, codes, trim_space}
use atomhub.Types.{DownstreamKey, Result, ok, err, Error}
use atomhub.Server.{Server}
use atomhub.Server.Outcome.{Holds, Untouched}
use atomhub.Auth.{hash_downstream_token}
use atomhub.Store.Sound.{IsSound}
use atomhub.Store.DownstreamKeys
use atomhub.Store.DownstreamKeys.{is_open}
use atomhub.Store.DownstreamKeys.Lookup.{open_row}
use atomhub.Store.DownstreamKeys.Revocation.{delete-Revoked}
use atomhub.Gateway.Access.{Access, admitted, denied, bearer_token}
use atomhub.Gateway.Access.Admission.{Decided, require_gateway_access-Decided}
use atomhub.App.Reach.{Reach, Reach-Sound}
use atomhub.App.Routes.{Program, Request, refused, access, serve}
use atomhub.App.Routes.Guards.{serve-refused}

find_complete {ℓ} :
    {A : Type ℓ} (p : A → Bool) (xs : List A) (r : A) → find? p xs ≡ none → Memᴰ r xs → p r ≡ false
find_complete p [] r h m = elim m [ ]
find_complete p (x ∷ xs) r h (Memᴰ.head e) = elim (Bool-cases (p x)) [
  | inl k ↦ let never : some x ≡ none = rw k at h in cc
  | inr k ↦ ap p e ∙ k
]
find_complete p (x ∷ xs) r h (Memᴰ.tail m) = elim (Bool-cases (p x)) [
  | inl k ↦ let never : some x ≡ none = rw k at h in cc
  | inr k ↦ find_complete p xs r (rw k at h) m
]

succeeded :
    {A : Type 0} (E : Error → Server → Type 0) (Q : Server → Type 0) (r : Result A × Server) (a : A)
    → r.0 ≡ ok a
    → Holds E (λ v t. Q t) r
    → Q r.1
succeeded E Q (ok v, t) a e h = h
succeeded E Q (err x, t) a e h = cc

module _ (program : Program) (request : Request) (token : Text) (t : Server) where
  -- what the guard may answer to the token
  abbrev IsDenied : Access → Type 0
  IsDenied a =
      (status : ℕ) × (text : Text) × (a ≡ denied status text) × ((status ≡ 401) ⊎ (status ≡ 500))

  closed-IsDenied :
      (a : Access)
      → token ≢ program.gateway_token
      → open_row program.crypto program.downstream_key_secret token t ≡ none
      → Decided program.crypto program.downstream_key_secret program.gateway_token (some token) t a
      → IsDenied a
  unfolding Decided
  closed-IsDenied (admitted none) other closed d =
      let same : token ≡ program.gateway_token = cc (d.0) in absurd (other same)
  closed-IsDenied (admitted (some key)) other closed (token', e, client) =
      let same : token ≡ token' = cc in
      let shut =
        find_complete (is_open (hash_downstream_token program.crypto (trim_space token)))
          t.tables.downstream_keys client.row closed client.stored in
      let hashed =
        client.hash
        ∙ ap (λ (x : Text). hash_downstream_token program.crypto (trim_space x)) (sym same) in
      let open_now : is_open (hash_downstream_token program.crypto (trim_space token)) client.row
          ≡ true =
        ap₂ (λ a b. a && b) ((list_eq_iff _ _).1 hashed) client.enabled in
      let never : true ≡ false = sym open_now ∙ shut in cc
  closed-IsDenied (denied status text) other closed (inl h) = (status, text, refl, inr h)
  closed-IsDenied (denied status text) other closed (inr h) = (status, text, refl, inl h.0)

  -- what `serve` makes of it
  serve-IsDenied :
      (u : Text) (ts : List Text) (a : Access)
      → request.path ≡ codes "v1" ∷ u ∷ ts
      → (access program request t).0 ≡ a
      → IsDenied a
      → (status : ℕ) × (text : Text) × ((serve program request t).0 ≡ refused status text)
        × ((status ≡ 401) ⊎ (status ≡ 500))
        × Untouched t (serve program request t).1
  serve-IsDenied u ts a path e (status, text, d, kind) =
      let (answer, kept) = serve-refused program request t u ts status text path (e ∙ d) in
      (status, text, answer, kind, kept)

module _ (program : Program) (s₀ s : Server) (token : Text) (row : DownstreamKey)
    (request : Request) (u : Text) (ts : List Text) where
  -- In a state that the program comes to from sound tables, such as those of an empty database, let a
  -- token open a client. Once that client's deletion has succeeded, a request under /v1/ whose bearer token is that token, and not the configured one,
  -- is answered with 401 or 500, no table, counter or catalog entry changes, and no handler runs.
  pub serve-Revoked :
      IsSound s₀.tables
      → Reach program s₀ s
      → open_row program.crypto program.downstream_key_secret token s ≡ some row
      → (DownstreamKeys.delete row.id s).0 ≡ ok tt
      → token ≢ program.gateway_token
      → request.path ≡ codes "v1" ∷ u ∷ ts
      → bearer_token (trim_space request.authorization) ≡ some token
      → let t = (DownstreamKeys.delete row.id s).1 in
        (status : ℕ) × (text : Text) × ((serve program request t).0 ≡ refused status text)
        × ((status ≡ 401) ⊎ (status ≡ 500))
        × Untouched t (serve program request t).1
  serve-Revoked sound reached opened deleted other path bearer =
      let t = (DownstreamKeys.delete row.id s).1 in
      let closed =
        succeeded _ (λ x. open_row program.crypto program.downstream_key_secret token x ≡ none)
          (DownstreamKeys.delete row.id s) tt deleted
          (delete-Revoked program.crypto program.downstream_key_secret token s row
            (Reach-Sound sound reached) opened).holds in
      let decided =
        (require_gateway_access-Decided program.crypto program.downstream_key_secret
          program.gateway_token request.authorization t).0 in
      serve-IsDenied program request token t u ts (access program request t).0 path refl (
        closed-IsDenied program request token t (access program request t).0 other closed
          (rw bearer at decided))
