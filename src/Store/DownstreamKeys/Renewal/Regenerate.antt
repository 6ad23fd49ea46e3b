-- ===== src/Store/DownstreamKeys/Renewal/Regenerate.antt =====
-- The steps of `Regenerate` of internal/store/downstream_keys.go.
use atomhub.Prelude.{
  ℕ, ◌≡◌, refl, ◌∙◌, ap, sym, inl, inr, true, false, Option, none, some, arith, find?, list_eq,
  list_eq_refl, Bool-cases, length,
}
use atomhub.Text.{Text, is_space, trim_space}
use atomhub.Text.Trim.{trim_space_spaceless}
use atomhub.Types.{DownstreamKey}
use atomhub.Server.{Server, Tables, ◌>>=◌, ◌>>◌, pure, driver_call, exec, now}
use atomhub.Server.Outcome.{
  Outcome, Outcome-bind, Outcome-seq, Outcome-query, Outcome-exec, Outcome-refused, Outcome-mono,
  Outcome-now, Outcome-pure, Outcome-fail, Outcome-driver_call, next_reading, with_faults,
}
use atomhub.Auth.{
  Crypto, nonce_size, hash_downstream_token, token_of, sealed, decrypt_downstream_token,
}
use atomhub.Auth.Tokens.{Inverts, decrypt-sealed}
use atomhub.Store.Rows.{update_where, exists_where, find-update_where}
use atomhub.Store.Logs.{has_id}
use atomhub.Store.DownstreamKeys.{
  is_open, get, scan_downstream_key, or_client_not_found, replace_token, require_rows, update_id,
  regenerate,
}
use atomhub.Store.DownstreamKeys.Creation.{clients, IsSpaceless, generated, encrypted, get-clients}
use atomhub.Store.DownstreamKeys.Renewal.{
  retoken, has_hash_elsewhere, OnlyClient, Renewed, found-exists_where, find_renewed, find_closed,
}

-- the read at the beginning
found_client :
    (s : Server) (id : ℕ)
    → Outcome
        (λ e t. clients t ≡ clients s)
        (λ key t.
          (row : DownstreamKey) × (find? (has_id id) (clients s) ≡ some row)
          × (key ≡ scan_downstream_key row)
          × (clients t ≡ clients s))
        (get id)
        s
unfolding get or_client_not_found
found_client s id =
    Outcome-bind
      (Outcome-query _ (λ fs. refl) (λ fs. read (find? (has_id id) (clients s)) refl refl))
  where
    read :
        {t : Server} (o : Option DownstreamKey)
        → find? (has_id id) (clients s) ≡ o
        → clients t ≡ clients s
        → Outcome
            (λ e u. clients u ≡ clients s)
            (λ key u.
              (row : DownstreamKey) × (find? (has_id id) (clients s) ≡ some row)
              × (key ≡ scan_downstream_key row)
              × (clients u ≡ clients s))
            (or_client_not_found o)
            t
    read none e q = Outcome-fail q
    read (some row) e q = Outcome-pure (row, e, refl, q)

other_client :
    (id : ℕ) (change : DownstreamKey → DownstreamKey) (s t : Server)
    → ((x : DownstreamKey) → (change x).id ≡ x.id)
    → clients t ≡ update_where (has_id id) change (clients s)
    → OnlyClient id s t
other_client id change s t keeps e j differs =
    ap (find? (has_id j)) e
    ∙ find-update_where (λ (r : DownstreamKey). r.id) id j change (clients s) keeps
    ∙ ground (arith, differs)

module _ (crypto : Crypto) (secret : Text) (laws : Inverts crypto) (spaceless : IsSpaceless crypto)
    (id : ℕ) (s : Server) where
  abbrev new_row : Text → Text → ℕ → DownstreamKey → DownstreamKey
  new_row bytes nonce time =
      retoken (token_of crypto bytes) (sealed crypto secret (token_of crypto bytes).0 nonce) time

  renewed :
      (t : Server) (before : DownstreamKey) (bytes nonce : Text) (time : ℕ)
      → length nonce ≡ nonce_size
      → find? (has_id id) (clients s) ≡ some before
      → exists_where (has_hash_elsewhere (token_of crypto bytes).2 id) (clients s) ≡ false
      → clients t ≡ update_where (has_id id) (new_row bytes nonce time) (clients s)
      → Renewed crypto secret id (token_of crypto bytes).0 s t
  unfolding token_of sealed scan_downstream_key is_space
  renewed t before bytes nonce time h found fresh changed =
      let token = (token_of crypto bytes).0 in
      let hash = (token_of crypto bytes).2 in
      let change = new_row bytes nonce time in
      let trimmed : trim_space token ≡ token =
        trim_space_spaceless token (refl, (refl, (refl, (refl, (refl, spaceless bytes))))) in
      record {
        before = before;
        row = change before;
        found = found;
        same = (refl, refl, refl);
        stored =
            ap (find? (has_id id)) changed
            ∙ find-update_where (λ (r : DownstreamKey). r.id) id id change (clients s) (λ r. refl)
            ∙ ground (arith, found);
        opens = λ on.
            ap (λ (tok : Text). find? (is_open (hash_downstream_token crypto tok)) (clients t))
              trimmed
            ∙ ap (find? (is_open hash)) changed
            ∙ find_renewed id change hash (clients s) before (λ x. list_eq_refl hash) (λ x. refl)
                fresh found on;
        revealed =
            ap (decrypt_downstream_token crypto secret)
              (trim_space_spaceless (sealed crypto secret token nonce) (spaceless _))
            ∙ decrypt-sealed crypto laws secret token nonce h;
        closed = λ old other alone.
            ap (find? (is_open old)) changed
            ∙ find_closed id change old (clients s)
                (λ x.
                  ap (λ (tok : Text). list_eq (hash_downstream_token crypto tok) old) (sym trimmed)
                  ∙ other)
                alone;
        others = other_client id change s t (λ x. refl) changed;
      }

  same-OnlyClient : (t : Server) → clients t ≡ clients s → OnlyClient id s t
  same-OnlyClient t e j differs = ap (find? (has_id j)) e

  -- the statement, where the hash is no other client's
  replace_fresh :
      (token : Text × Text × Text) (c : Text) (time : ℕ) (t : Tables)
      → exists_where (has_id id) t.downstream_keys ≡ true
      → exists_where (has_hash_elsewhere token.2 id) t.downstream_keys ≡ false
      → replace_token id token c time t ≡ some (update_id id (retoken token c time) t)
  unfolding replace_token
  replace_fresh token c time t e f = rw (e, f) refl

  replace_taken :
      (token : Text × Text × Text) (c : Text) (time : ℕ) (t : Tables)
      → exists_where (has_id id) t.downstream_keys ≡ true
      → exists_where (has_hash_elsewhere token.2 id) t.downstream_keys ≡ true
      → replace_token id token c time t ≡ none
  unfolding replace_token
  replace_taken token c time t e f = rw (e, f) refl

  -- what follows the statement
  read_back :
      (before : DownstreamKey) (bytes nonce : Text) (time key_id : ℕ) (t : Server)
      → length nonce ≡ nonce_size
      → find? (has_id id) (clients s) ≡ some before
      → exists_where (has_hash_elsewhere (token_of crypto bytes).2 id) (clients s) ≡ false
      → clients t ≡ update_where (has_id id) (new_row bytes nonce time) (clients s)
      → Outcome
          (λ e u. OnlyClient id s u)
          (λ (v : DownstreamKey × Text) u. Renewed crypto secret id v.1 s u)
          (do
            require_rows true
            refreshed ← get key_id
            pure (refreshed, (token_of crypto bytes).0))
          t
  unfolding require_rows
  read_back before bytes nonce time key_id t h found fresh changed =
      let kept =
        λ (u : Server)
            (e : clients u ≡ update_where (has_id id) (new_row bytes nonce time) (clients s)).
          other_client id (new_row bytes nonce time) s u (λ x. refl) e in
      Outcome-bind (
        Outcome-bind {m = driver_call} (
          Outcome-driver_call (λ fs. kept (with_faults fs t) changed)
            (λ fs. Outcome-pure (
              Outcome-seq
                (Outcome-mono (get-clients crypto secret _ key_id (with_faults fs t) changed)
                  (λ e u q. kept u q) (λ v u q. q))
                λ key u q. Outcome-pure (renewed u before bytes nonce time h found fresh q)))))

  replaced :
      (before : DownstreamKey) (bytes nonce : Text) (key_id : ℕ) (t : Server)
      → length nonce ≡ nonce_size
      → find? (has_id id) (clients s) ≡ some before
      → clients t ≡ clients s
      → Outcome
          (λ e u. OnlyClient id s u)
          (λ (v : DownstreamKey × Text) u. Renewed crypto secret id v.1 s u)
          (do
            time ← now
            affected ← exec (
                replace_token id
                  (token_of crypto bytes)
                  (sealed crypto secret (token_of crypto bytes).0 nonce)
                  time)
            require_rows affected
            refreshed ← get key_id
            pure (refreshed, (token_of crypto bytes).0))
          t
  replaced before bytes nonce key_id t h found same =
      let there =
        ap (exists_where (has_id id)) same
        ∙ found-exists_where (has_id id) (clients s) before found in
      let hash = (token_of crypto bytes).2 in
      Outcome-bind (
        Outcome-now λ rs.
          elim (Bool-cases (exists_where (has_hash_elsewhere hash id) (clients t))) [
            | inl e ↦ Outcome-bind (
                Outcome-refused _ (replace_taken (token_of crypto bytes) _ _ t.tables there e)
                  (λ fs. same-OnlyClient t same) (λ fs. same-OnlyClient t same))
            | inr e ↦ Outcome-bind (
                Outcome-exec _ (exists_where (has_id id) (clients t)) _
                  (replace_fresh (token_of crypto bytes) _ _ t.tables there e)
                  (λ fs. same-OnlyClient t same)
                  (λ fs. rw there (
                    read_back before bytes nonce (next_reading t) key_id _ h found
                      (ap (exists_where (has_hash_elsewhere hash id)) (sym same) ∙ e)
                      (ap (update_where (has_id id) (new_row bytes nonce (next_reading t))) same))))
          ])

  -- A client that Regenerate succeeds for has a new token, which opens its row, if it is enabled, and
  -- which the row gives back; a token with another hash opens nothing any more, where no other client
  -- has that hash; its name, whether it is enabled and its requests are kept, and every other client
  -- reads as before, also where Regenerate fails, which it does where there is no such client. The
  -- library's decoding and decryption invert its encoding and encryption, and an encoding has no white
  -- space.
  pub regenerate-Renewed :
      Outcome
        (λ e t. OnlyClient id s t)
        (λ v t. Renewed crypto secret id v.1 s t)
        (regenerate crypto secret id)
        s
  unfolding regenerate
  regenerate-Renewed =
      Outcome-seq (Outcome-mono (found_client s id) (λ e t q. same-OnlyClient t q) (λ v t q. q))
        λ key t f.
          Outcome-seq
            (Outcome-mono (generated crypto secret (clients s) t f.3) (λ e u q. same-OnlyClient u q)
              (λ v u q. q))
            λ token u g.
              Outcome-seq
                (Outcome-mono (encrypted crypto secret (clients s) token.0 u g.2)
                  (λ e w q. same-OnlyClient w q) (λ v w q. q))
                λ c w k. rw (k.2, g.1) (replaced f.0 g.0 k.0 key.id w k.1 f.1 k.3)
