-- ===== src/Store/DownstreamKeys/Lookup.antt =====
-- `FindByToken` of internal/store/downstream_keys.go.
use mathlib.Core.List.{Memᴰ}
use atomhub.Prelude.{
  ◌≡◌, refl, ◌⊎◌, inl, inr, Bool, true, List, [], ◌∷◌, Option, none, some, find?, Bool-cases,
}
use atomhub.Text.{Text, trim_space}
use atomhub.Types.{DownstreamKey, Error, database, downstream_key_not_found}
use atomhub.Server.{Server}
use atomhub.Server.Outcome.{
  Untouched-with_faults, Outcome, Outcome-bind, Outcome-query, Outcome-pure, Outcome-fail,
  Untouched,
}
use atomhub.Auth.{Crypto, hash_downstream_token}
use atomhub.Store.DownstreamKeys.{is_open, scan_downstream_key, or_client_not_found, find_by_token}

pub find_sound {ℓ} :
    {A : Type ℓ} (p : A → Bool) (xs : List A) (r : A)
    → find? p xs ≡ some r
    → Memᴰ r xs × (p r ≡ true)
find_sound p [] r h = cc
find_sound p (x ∷ xs) r h = elim (Bool-cases (p x)) [
  | inl e ↦ let same : some x ≡ some r = rw e at h in let it : r ≡ x = cc in (Memᴰ.head it, rw it e)
  | inr e ↦ let (m, t) = find_sound p xs r (rw e at h) in (Memᴰ.tail m, t)
]

module _ (crypto : Crypto) (secret token : Text) where
  -- the row that the token opens
  abbrev pub open_row : Server → Option DownstreamKey
  open_row s =
      find? (is_open (hash_downstream_token crypto (trim_space token))) s.tables.downstream_keys

  abbrev pub NoClient : Server → Error → Type 0
  NoClient s e = (e ≡ database) ⊎ ((e ≡ downstream_key_not_found) × (open_row s ≡ none))

  found_client :
      {t : Server} (s : Server) (o : Option DownstreamKey)
      → open_row s ≡ o
      → Untouched s t
      → Outcome
          (λ e t. NoClient s e × Untouched s t)
          (λ key t.
            (row : DownstreamKey) × (open_row s ≡ some row)
            × (key ≡ scan_downstream_key row)
            × Untouched s t)
          (or_client_not_found o)
          t
  unfolding or_client_not_found
  found_client s none e q = Outcome-fail (inr (refl, e), q)
  found_client s (some row) e q = Outcome-pure (row, e, refl, q)

  pub find_by_token-Outcome :
      (s : Server)
      → Outcome
          (λ e t. NoClient s e × Untouched s t)
          (λ key t.
            (row : DownstreamKey) × (open_row s ≡ some row)
            × (key ≡ scan_downstream_key row)
            × Untouched s t)
          (find_by_token crypto secret token)
          s
  unfolding find_by_token
  find_by_token-Outcome s = Outcome-bind (
      Outcome-query _ (λ fs. (inl refl, Untouched-with_faults))
        (λ fs. found_client s (open_row s) refl Untouched-with_faults))
