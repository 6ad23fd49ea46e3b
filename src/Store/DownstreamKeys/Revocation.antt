-- ===== src/Store/DownstreamKeys/Revocation.antt =====
-- A client that `Delete` of internal/store/downstream_keys.go removed has no access any more.
use atomhub.Prelude.{
  ℕ, ◌≡◌, refl, ap, ◌⊎◌, inl, inr, Bool, true, false, List, [], ◌∷◌, none, some, arith, find?,
  list_eq_iff, Bool-cases, ◌==◌, ==_iff,
}
use atomhub.Text.{Text}
use atomhub.Types.{DownstreamKey}
use atomhub.Server.{Server, driver_call}
use atomhub.Server.Outcome.{
  Outcome, Outcome-bind, Outcome-exec, Outcome-driver_call, Outcome-pure, Outcome-fail,
}
use atomhub.Auth.{Crypto}
use atomhub.Store.Rows.{delete_where, exists_where}
use atomhub.Store.Logs.{has_id}
use atomhub.Store.Sound.{IsSound, IsDistinct, same_hash}
use atomhub.Store.DownstreamKeys.{has_hash, is_open, require_rows, delete}
use atomhub.Store.DownstreamKeys.Creation.{clients}
use atomhub.Store.DownstreamKeys.Lookup.{open_row}

-- no row with the hash is left to open
find_none :
    (id : ℕ) (hash : Text) (r : DownstreamKey) (rows : List DownstreamKey)
    → r.token_hash ≡ hash
    → exists_where (same_hash r) rows ≡ false
    → find? (is_open hash) (delete_where (has_id id) rows) ≡ none
unfolding exists_where delete_where
find_none id hash r [] its e = refl
find_none id hash r (x ∷ rows) its e = elim (Bool-cases (same_hash r x)) [
  | inl k ↦ let never : true ≡ false = rw k at e in cc
  | inr k ↦
      let rest = find_none id hash r rows its (rw k at e) in
      let other : has_hash hash x ≡ false =
        ground (arith, list_eq_iff r.token_hash x.token_hash, list_eq_iff x.token_hash hash, its) in
      elim (Bool-cases (x.id == id)) [ inl l ↦ rw l rest | inr l ↦ rw (l, other) rest ]
]

find_deleted :
    (hash : Text) (r : DownstreamKey) (rows : List DownstreamKey)
    → IsDistinct same_hash rows
    → find? (is_open hash) rows ≡ some r
    → find? (is_open hash) (delete_where (has_id r.id) rows) ≡ none
unfolding delete_where
find_deleted hash r [] d e = cc
find_deleted hash r (x ∷ rows) d e = elim (Bool-cases (is_open hash x)) [
  | inl k ↦
      let it : x ≡ r = let both : some x ≡ some r = rw k at e in cc in
      let here : (x.id == r.id) ≡ true =
        (==_iff x.id r.id).1 (ap (λ (y : DownstreamKey). y.id) it) in
      let its : x.token_hash ≡ hash = (list_eq_iff x.token_hash hash).0 (ground (arith, k)) in
      rw here (find_none r.id hash x rows its d.0)
  | inr k ↦ elim (Bool-cases (x.id == r.id)) [
    | inl l ↦ rw l (find_deleted hash r rows d.1 (rw k at e))
    | inr l ↦ rw (l, k) (find_deleted hash r rows d.1 (rw k at e))
  ]
]

module _ (crypto : Crypto) (secret token : Text) (s : Server) (row : DownstreamKey) where
  require_rows-Revoked :
      (b : Bool) (t : Server)
      → open_row crypto secret token t ≡ none
      → Outcome
          (λ e u. (clients u ≡ clients s) ⊎ (open_row crypto secret token u ≡ none))
          (λ u v. open_row crypto secret token v ≡ none)
          (require_rows b)
          t
  unfolding require_rows
  require_rows-Revoked true t h =
      Outcome-bind {m = driver_call} (Outcome-driver_call (λ fs. inr h) (λ fs. Outcome-pure h))
  require_rows-Revoked false t h =
      Outcome-bind {m = driver_call}
        (Outcome-driver_call (λ fs. inr h) (λ fs. Outcome-fail (inr h)))

  -- Where the hashes of the clients are distinct, as they are in every state that the program comes to,
  -- a token opens no client any more once the client that it opened is deleted. A deletion that
  -- fails leaves the clients as they were or has done so.
  pub delete-Revoked :
      IsSound s.tables
      → open_row crypto secret token s ≡ some row
      → Outcome
          (λ e t. (clients t ≡ clients s) ⊎ (open_row crypto secret token t ≡ none))
          (λ u t. open_row crypto secret token t ≡ none)
          (delete row.id)
          s
  unfolding delete
  delete-Revoked sound opened =
      let gone = find_deleted _ row (clients s) sound.hashes opened in
      Outcome-bind (
        Outcome-exec _ (exists_where (has_id row.id) (clients s)) _ refl (λ fs. inl refl)
          (λ fs. require_rows-Revoked _ _ gone))
