-- ===== src/Store/DownstreamKeys/Creation.antt =====
-- A client that `Create` of internal/store/downstream_keys.go made: its token opens its row, and its
-- row gives the token back.
use atomhub.Prelude.{
  ℕ, ◌+◌, ◌≡◌, refl, ◌∙◌, ap, sym, ◌⊎◌, inl, inr, Bool, true, false, List, [], ◌∷◌, ◌++◌, Option,
  none, some, ◌==◌, find?, list_eq_refl, Bool-cases, length, All, ==_iff,
}
use atomhub.Text.{Text, is_empty, is_space, trim_space}
use atomhub.Text.Trim.{trim_space_spaceless}
use atomhub.Types.{DownstreamKey, ok}
use atomhub.Server.{M, Server, Tables}
use atomhub.Server.Outcome.{
  Outcome, Outcome-bind, Outcome-seq, Outcome-query, Outcome-exec, Outcome-refused, Outcome-mono,
  Outcome-now, Outcome-pure, Outcome-fail, Outcome-driver_call, next_reading,
}
use atomhub.Auth.{
  Crypto, read_random, nonce_size, hash_downstream_token, token_of, sealed,
  generate_downstream_token, encrypt_downstream_token, decrypt_downstream_token,
}
use atomhub.Auth.Tokens.{Inverts, decrypt-sealed}
use atomhub.Store.Rows.{exists_where}
use atomhub.Store.Logs.{has_id}
use atomhub.Store.DownstreamKeys.{
  has_hash, is_open, new_client, insert_client, store_client, get, scan_downstream_key,
  or_client_not_found, create_named, create,
}

-- The clients of the state.
abbrev pub clients : Server → List DownstreamKey
clients s = s.tables.downstream_keys

-- The rule for the random source: the clients are untouched, and a success has the length asked for.
Outcome-read_random :
    (s₀ : List DownstreamKey) (n : ℕ) (s : Server)
    → clients s ≡ s₀
    → Outcome
        (λ e t. clients t ≡ s₀)
        (λ bytes t. (length bytes ≡ n) × (clients t ≡ s₀))
        (read_random n)
        s
unfolding read_random
Outcome-read_random s₀ n s h = read s.random
  where
    read :
        (rs : List Text)
        → Outcome
            (λ e t. clients t ≡ s₀)
            (λ bytes t. (length bytes ≡ n) × (clients t ≡ s₀))
            (read_random n)
            (record s { random = rs })
    read [] = record { holds = h }
    read (bytes ∷ rs) = elim (Bool-cases (length bytes == n)) [
      | inl e ↦ record { holds = rw e ((==_iff (length bytes) n).0 e, h) }
      | inr e ↦ record { holds = rw e h }
    ]

-- The clients of before, at most with one more at the end.
abbrev pub Grown : Server → Server → Type 0
Grown s t = (clients t ≡ clients s) ⊎ ((row : DownstreamKey) × (clients t ≡ clients s ++ row ∷ []))

-- base64 for urls has no white space.
abbrev pub IsSpaceless : Crypto → Type 0
IsSpaceless crypto = (t : Text) → All (λ c. is_space c ≡ false) (crypto.encode t)

-- A new row at the end, which the token opens if the client is enabled, and which gives the token back.
pub record Made (crypto : Crypto) (secret : Text) (enabled : Bool) (token : Text) (s t : Server)
    : Type 0 where
  pub row : DownstreamKey
  pub stored : clients t ≡ clients s ++ row ∷ []
  pub opens :
      enabled ≡ true
      → find? (is_open (hash_downstream_token crypto (trim_space token))) (clients t) ≡ some row
  pub revealed :
      decrypt_downstream_token crypto secret (scan_downstream_key row).encrypted_token ≡ ok token

-- the tables with one more client
abbrev added : (ℕ → DownstreamKey) → Tables → Tables
added row t = record t {
  downstream_keys = t.downstream_keys ++ row (t.sequences.downstream_keys + 1) ∷ [];
  sequences = record t.sequences { downstream_keys = t.sequences.downstream_keys + 1 };
}

insert_fresh :
    (row : ℕ → DownstreamKey) (hash : Text) (t : Tables)
    → exists_where (has_hash hash) t.downstream_keys ≡ false
    → insert_client row hash t ≡ some (t.sequences.downstream_keys + 1, added row t)
unfolding insert_client
insert_fresh row hash t e = rw e refl

find_last :
    (h : Text) (xs : List DownstreamKey) (x : DownstreamKey)
    → exists_where (has_hash h) xs ≡ false
    → is_open h x ≡ true
    → find? (is_open h) (xs ++ x ∷ []) ≡ some x
unfolding exists_where
find_last h [] x e k = rw k refl
find_last h (y ∷ xs) x e k = elim (Bool-cases (has_hash h y)) [
  | inl g ↦ let never : true ≡ false = rw g at e in cc
  | inr g ↦ rw g (find_last h xs x (rw g at e) k)
]

module _ (crypto : Crypto) (secret : Text) where
  pub generated :
      (s₀ : List DownstreamKey) (s : Server)
      → clients s ≡ s₀
      → Outcome
          (λ e t. clients t ≡ s₀)
          (λ token t. (bytes : Text) × (token ≡ token_of crypto bytes) × (clients t ≡ s₀))
          (generate_downstream_token crypto)
          s
  unfolding generate_downstream_token
  generated s₀ s h =
      Outcome-seq (Outcome-read_random s₀ 24 s h) λ bytes t g. Outcome-pure (bytes, refl, g.1)

  pub encrypted :
      (s₀ : List DownstreamKey) (token : Text) (s : Server)
      → clients s ≡ s₀
      → Outcome
          (λ e t. clients t ≡ s₀)
          (λ c t.
            (nonce : Text) × (length nonce ≡ nonce_size)
            × (c ≡ sealed crypto secret token nonce)
            × (clients t ≡ s₀))
          (encrypt_downstream_token crypto secret token)
          s
  unfolding encrypt_downstream_token
  encrypted s₀ token s h =
      Outcome-seq (Outcome-read_random s₀ nonce_size s h)
        λ nonce t g. Outcome-pure (nonce, g.0, refl, g.1)

  -- the read at the end changes no client
  pub get-clients :
      (s₀ : List DownstreamKey) (id : ℕ) (s : Server)
      → clients s ≡ s₀
      → Outcome (λ e t. clients t ≡ s₀) (λ key t. clients t ≡ s₀) (get id) s
  unfolding get
  get-clients s₀ id s h =
      Outcome-bind (Outcome-query _ (λ fs. h) (λ fs. read (find? (has_id id) (clients s)) h))
    where
      read :
          {t : Server} (o : Option DownstreamKey)
          → clients t ≡ s₀
          → Outcome (λ e t. clients t ≡ s₀) (λ key t. clients t ≡ s₀) (or_client_not_found o) t
      read none e = Outcome-fail e
      read (some row) e = Outcome-pure e

  module _ (laws : Inverts crypto) (spaceless : IsSpaceless crypto) where
    -- the row of a token is what `Made` says
    made :
        (s t : Server) (name bytes nonce : Text) (enabled : Bool) (time id : ℕ)
        → length nonce ≡ nonce_size
        → exists_where (has_hash (token_of crypto bytes).2) (clients s) ≡ false
        → clients t
          ≡ clients s
            ++ new_client name
                (token_of crypto bytes)
                (sealed crypto secret (token_of crypto bytes).0 nonce)
                enabled
                time
                id
              ∷ []
        → Made crypto secret enabled (token_of crypto bytes).0 s t
    unfolding token_of sealed scan_downstream_key is_space
    made s t name bytes nonce enabled time id h fresh stored =
        let token = (token_of crypto bytes).0 in
        let hash = (token_of crypto bytes).2 in
        let trimmed : trim_space token ≡ token =
          trim_space_spaceless token (refl, (refl, (refl, (refl, (refl, spaceless bytes))))) in
        let row =
          new_client name (token_of crypto bytes) (sealed crypto secret token nonce) enabled time
            id in
        record {
          row = row;
          stored = stored;
          opens = λ on.
              ap (λ (tok : Text). find? (is_open (hash_downstream_token crypto tok)) (clients t))
                trimmed
              ∙ ap (find? (is_open hash)) stored
              ∙ find_last hash (clients s) row fresh (rw (list_eq_refl hash, on) refl);
          revealed =
              ap (decrypt_downstream_token crypto secret)
                (trim_space_spaceless (sealed crypto secret token nonce) (spaceless _))
              ∙ decrypt-sealed crypto laws secret token nonce h;
        }

    stored :
        (s t : Server) (name bytes nonce : Text) (enabled : Bool)
        → length nonce ≡ nonce_size
        → clients t ≡ clients s
        → Outcome
            (λ e t. Grown s t)
            (λ v t. Made crypto secret enabled v.1 s t)
            (store_client crypto secret name enabled
              (token_of crypto bytes)
              (sealed crypto secret (token_of crypto bytes).0 nonce))
            t
    unfolding store_client insert_client
    stored s t name bytes nonce enabled h same = Outcome-bind (
        Outcome-now λ rs.
          elim (Bool-cases (exists_where (has_hash (token_of crypto bytes).2) (clients t))) [
            | inl e ↦ Outcome-bind (Outcome-refused _ (rw e refl) (λ fs. inl same) (λ fs. inl same))
            | inr e ↦
                let time = next_reading t in
                let id = t.tables.sequences.downstream_keys + 1 in
                let row =
                  new_client name (token_of crypto bytes)
                    (sealed crypto secret (token_of crypto bytes).0 nonce) enabled time in
                let grown = ap (λ (l : List DownstreamKey). l ++ row id ∷ []) same in
                let fresh = ap (exists_where (has_hash (token_of crypto bytes).2)) (sym same) ∙ e in
                Outcome-bind (
                  Outcome-exec _ id (added row t.tables) (insert_fresh row _ t.tables e)
                    (λ fs. inl same)
                    (λ fs. Outcome-bind (
                      Outcome-driver_call (λ gs. inr (row id, grown))
                        (λ gs.
                          Outcome-seq
                            (Outcome-mono (get-clients (clients s ++ row id ∷ []) id _ grown)
                              (λ x u q. inr (row id, q)) (λ v u q. q))
                            λ key u q.
                              Outcome-pure (made s u name bytes nonce enabled time id h fresh q)))))
          ])

    -- A client that is created is stored behind the others, with a token that opens it, if it is
    -- enabled, and that is given back by the row. The name may not be blank. A failure, also one after the
    -- insertion, leaves the clients as they were, or with one more at the end.
    pub create-Made :
        (key : DownstreamKey) (s : Server)
        → Outcome
            (λ e t. Grown s t)
            (λ v t.
              Made crypto secret key.enabled v.1 s t × (is_empty (trim_space key.name) ≡ false))
            (create crypto secret key)
            s
    unfolding create create_named
    create-Made key s = elim (Bool-cases (is_empty (trim_space key.name))) [
      | inl e ↦ rw e (Outcome-fail (inl refl))
      | inr e ↦ rw e (
          Outcome-seq (early (generated (clients s) s refl)) λ token t g.
            Outcome-seq (early (encrypted (clients s) token.0 t g.2)) λ c t' k.
              rw (k.2, g.1)
                (Outcome-mono (stored s t' (trim_space key.name) g.0 k.0 key.enabled k.1 k.3)
                  (λ x u q. q) (λ v u q. (q, refl))))
    ]
      where
        early :
            {A : Type 0} {Q : A → Server → Type 0} {m : M A} {t : Server}
            → Outcome (λ e u. clients u ≡ clients s) Q m t
            → Outcome (λ e u. Grown s u) Q m t
        early h = Outcome-mono h (λ x u q. inl q) (λ v u q. q)
