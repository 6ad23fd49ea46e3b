-- ===== src/Store/DownstreamKeys/Renewal.antt =====
-- A client's new token: what the statement of `Regenerate` of internal/store/downstream_keys.go does to
-- the rows.
pub mod Regenerate
use mathlib.Core.Option
use atomhub.Prelude.{
  ℕ, ◌≡◌, ◌≢◌, refl, ◌∙◌, ap, ap₂, sym, inl, inr, Bool, true, false, not, ◌&&◌, List, [], ◌∷◌,
  Option, none, some, arith, ◌==◌, if◌then◌else◌, find?, list_eq, list_eq_refl, list_eq_iff,
  Bool-cases, Option-cases, ==_iff, length,
}
use atomhub.Text.{Text, is_space, trim_space}
use atomhub.Text.Trim.{trim_space_spaceless}
use atomhub.Types.{DownstreamKey, Error, ok}
use atomhub.Server.{Server, Tables, ◌>>=◌, ◌>>◌, pure, driver_call, exec, now}
use atomhub.Server.Outcome.{
  Outcome, Outcome-bind, Outcome-seq, Outcome-query, Outcome-exec, Outcome-refused, Outcome-mono,
  Outcome-now, Outcome-pure, Outcome-fail, Outcome-driver_call, next_reading, with_faults,
}
use atomhub.Auth.{
  Crypto, nonce_size, hash_downstream_token, token_of, sealed, decrypt_downstream_token,
}
use atomhub.Auth.Tokens.{Inverts, decrypt-sealed}
use atomhub.Store.Rows.{update_where, exists_where, find-update_where}
use atomhub.Store.Logs.{has_id}
use atomhub.Store.DownstreamKeys.{
  has_hash, is_open, get, scan_downstream_key, or_client_not_found, replace_token, require_rows,
  update_id, regenerate,
}
use atomhub.Store.DownstreamKeys.Creation.{clients, IsSpaceless, generated, encrypted, get-clients}

-- the change that a new token makes in a row
abbrev pub retoken : Text × Text × Text → Text → ℕ → DownstreamKey → DownstreamKey
retoken (token, prefix, hash) sealed_token time row = record row {
  token_prefix = prefix;
  token_hash = hash;
  encrypted_token = sealed_token;
  updated_at = time;
}

-- a row with the hash that is not the client's
abbrev pub has_hash_elsewhere : Text → ℕ → DownstreamKey → Bool
has_hash_elsewhere hash id row = has_hash hash row && not (has_id id row)

-- No client but one reads differently.
abbrev pub OnlyClient : ℕ → Server → Server → Type 0
OnlyClient id s t = (j : ℕ) → j ≢ id → find? (has_id j) (clients t) ≡ find? (has_id j) (clients s)

-- The client has a new token, which opens its row, if it is enabled, and which the row gives back. A
-- token with another hash, which no other client has, opens nothing any more.
pub record Renewed (crypto : Crypto) (secret : Text) (id : ℕ) (token : Text) (s t : Server)
    : Type 0 where
  pub before : DownstreamKey
  pub row : DownstreamKey
  pub found : find? (has_id id) (clients s) ≡ some before
  pub same :
      (row.name ≡ before.name)
      × (row.enabled ≡ before.enabled)
      × (row.request_count ≡ before.request_count)
  pub stored : find? (has_id id) (clients t) ≡ some row
  pub opens :
      before.enabled ≡ true
      → find? (is_open (hash_downstream_token crypto (trim_space token))) (clients t) ≡ some row
  pub revealed :
      decrypt_downstream_token crypto secret (scan_downstream_key row).encrypted_token ≡ ok token
  pub closed :
      (old : Text)
      → list_eq (hash_downstream_token crypto (trim_space token)) old ≡ false
      → exists_where (has_hash_elsewhere old id) (clients s) ≡ false
      → find? (is_open old) (clients t) ≡ none
  pub others : OnlyClient id s t

pub found-exists_where {ℓ} :
    {A : Type ℓ} (p : A → Bool) (xs : List A) (r : A)
    → find? p xs ≡ some r
    → exists_where p xs ≡ true
unfolding exists_where
found-exists_where p [] r h = cc
found-exists_where p (x ∷ xs) r h = elim (Bool-cases (p x)) [
  | inl e ↦ rw e refl
  | inr e ↦ rw e (found-exists_where p xs r (rw e at h))
]

module _ (id : ℕ) (change : DownstreamKey → DownstreamKey) where
  pub find_renewed :
      (hash : Text) (xs : List DownstreamKey) (r : DownstreamKey)
      → ((x : DownstreamKey) → has_hash hash (change x) ≡ true)
      → ((x : DownstreamKey) → (change x).enabled ≡ x.enabled)
      → exists_where (has_hash_elsewhere hash id) xs ≡ false
      → find? (has_id id) xs ≡ some r
      → r.enabled ≡ true
      → find? (is_open hash) (update_where (has_id id) change xs) ≡ some (change r)
  unfolding exists_where update_where
  find_renewed hash [] r new kept e h on = cc
  find_renewed hash (x ∷ xs) r new kept e h on = elim (Bool-cases (x.id == id)) [
    | inl k ↦
        let it : x ≡ r = let both : some x ≡ some r = rw k at h in cc in
        let open_now : is_open hash (change x) ≡ true =
          ap₂ (λ a b. a && b) (new x) (kept x ∙ ap (λ (y : DownstreamKey). y.enabled) it ∙ on) in
        rw k (
          ap
            (λ b.
              if b
              then some (change x)
              else find? (is_open hash) (update_where (has_id id) change xs))
            open_now
          ∙ ap (λ y. some (change y)) it)
    | inr k ↦ elim (Bool-cases (has_hash hash x)) [
      | inl l ↦ let never : true ≡ false = rw (k, l) at e in cc
      | inr l ↦ rw (k, l) (find_renewed hash xs r new kept (rw (k, l) at e) (rw k at h) on)
    ]
  ]

  pub find_closed :
      (old : Text) (xs : List DownstreamKey)
      → ((x : DownstreamKey) → has_hash old (change x) ≡ false)
      → exists_where (has_hash_elsewhere old id) xs ≡ false
      → find? (is_open old) (update_where (has_id id) change xs) ≡ none
  unfolding exists_where update_where
  find_closed old [] gone e = refl
  find_closed old (x ∷ xs) gone e = elim (Bool-cases (x.id == id)) [
    | inl k ↦ elim (Bool-cases (has_hash old x)) [
      | inl l ↦ rw (k, gone x) (find_closed old xs gone (rw (k, l) at e))
      | inr l ↦ rw (k, gone x) (find_closed old xs gone (rw (k, l) at e))
    ]
    | inr k ↦ elim (Bool-cases (has_hash old x)) [
      | inl l ↦ let never : true ≡ false = rw (k, l) at e in cc
      | inr l ↦ rw (k, l) (find_closed old xs gone (rw (k, l) at e))
    ]
  ]
