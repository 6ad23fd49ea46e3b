-- ===== src/Store/DownstreamKeys/Sound.antt =====
-- The operations of internal/store/downstream_keys.go keep the tables sound.
use atomhub.Prelude.{
  ℕ, refl, Bool, true, false, if◌then◌else◌, ◌==◌, length, Option, none, some, List, [], ◌∷◌,
}
use atomhub.Text.{Text, is_empty, trim_space}
use atomhub.Types.{DownstreamKey, downstream_key_not_found, message}
use atomhub.Server.Invariant.{
  Maintains, Maintains-bind, Maintains-pure, Maintains-fail, Maintains-lift, Maintains-if,
  Maintains-query, Maintains-exec, Maintains-change, Maintains-driver_call, Maintains-now,
}
use atomhub.Server.{Server}
use atomhub.Auth.{
  Crypto, read_random, nonce_size, generate_downstream_token, encrypt_downstream_token,
}
use atomhub.Store.Sound.{IsSound}
use atomhub.Store.Sound.Statements.{
  insert_client-IsSound, update_client-IsSound, delete_client-IsSound, replace_token-IsSound,
}
use atomhub.Store.DownstreamKeys.{
  name_required, or_client_not_found, get, require_rows, update_row, update, delete, list,
  store_client, create_named, create, reveal_token, reveal, regenerate,
}

or_client_not_found-Maintains :
    (o : Option DownstreamKey) → Maintains IsSound (or_client_not_found o)
unfolding or_client_not_found
or_client_not_found-Maintains none = Maintains-fail _
or_client_not_found-Maintains (some row) = Maintains-pure _

pub get-Maintains : (id : ℕ) → Maintains IsSound (get id)
unfolding get
get-Maintains id = Maintains-bind (Maintains-query _) (λ o. or_client_not_found-Maintains o)

require_rows-Maintains : (b : Bool) → Maintains IsSound (require_rows b)
unfolding require_rows
require_rows-Maintains b =
    Maintains-bind Maintains-driver_call (λ u. Maintains-if b (Maintains-pure _) (Maintains-fail _))

update_row-Maintains :
    (id : ℕ) (name : Text) (enabled : Bool) → Maintains IsSound (update_row id name enabled)
unfolding update_row
update_row-Maintains id name enabled = Maintains-bind Maintains-now (λ time.
    Maintains-bind
      (Maintains-change _ (λ t s. update_client-IsSound s id _ (λ r. refl) (λ r. refl)))
      (λ b. Maintains-bind (require_rows-Maintains b) (λ u. get-Maintains id)))

pub update-Maintains : (key : DownstreamKey) → Maintains IsSound (update key)
unfolding update
update-Maintains key = Maintains-if (key.id == 0) (Maintains-fail downstream_key_not_found) (
    Maintains-if (is_empty (trim_space key.name)) (Maintains-fail (message name_required))
      (update_row-Maintains key.id (trim_space key.name) key.enabled))

pub delete-Maintains : (id : ℕ) → Maintains IsSound (delete id)
unfolding delete
delete-Maintains id =
    Maintains-bind (Maintains-change _ (λ t s. delete_client-IsSound s id))
      (λ b. require_rows-Maintains b)

pub list-Maintains : Maintains IsSound list
unfolding list
list-Maintains = Maintains-query _

either-IsSound :
    {A : Type 0} (b : Bool) (x y : A × Server)
    → IsSound x.1.tables
    → IsSound y.1.tables
    → IsSound (if b then x else y).1.tables
either-IsSound true x y h k = h
either-IsSound false x y h k = k

read_random-Maintains : (n : ℕ) → Maintains IsSound (read_random n)
unfolding read_random
read_random-Maintains n = record { at = λ s h. read s h s.random }
  where
    read :
        (s : Server)
        → IsSound s.tables
        → (l : List Text) → IsSound (read_random n (record s { random = l })).1.tables
    read s h [] = h
    read s h (bytes ∷ rest) = either-IsSound (length bytes == n) _ _ h h

module _ (crypto : Crypto) (secret : Text) where
  generate_downstream_token-Maintains : Maintains IsSound (generate_downstream_token crypto)
  unfolding generate_downstream_token
  generate_downstream_token-Maintains =
      Maintains-bind (read_random-Maintains 24) (λ bytes. Maintains-pure _)

  encrypt_downstream_token-Maintains :
      (token : Text) → Maintains IsSound (encrypt_downstream_token crypto secret token)
  unfolding encrypt_downstream_token
  encrypt_downstream_token-Maintains token =
      Maintains-bind (read_random-Maintains nonce_size) (λ nonce. Maintains-pure _)

  store_client-Maintains :
      (name : Text) (enabled : Bool) (token : Text × Text × Text) (encrypted : Text)
      → Maintains IsSound (store_client crypto secret name enabled token encrypted)
  unfolding store_client
  store_client-Maintains name enabled token encrypted = Maintains-bind Maintains-now (λ time.
      Maintains-bind
        (Maintains-exec _
          (λ t id next e s. insert_client-IsSound s _ token.2 id next (λ j. refl) (λ j. refl) e))
        (λ id.
          Maintains-bind Maintains-driver_call
            (λ u. Maintains-bind (get-Maintains id) (λ created. Maintains-pure _))))

  create_named-Maintains :
      (name : Text) (enabled : Bool) → Maintains IsSound (create_named crypto secret name enabled)
  unfolding create_named
  create_named-Maintains name enabled = Maintains-bind generate_downstream_token-Maintains (λ token.
      Maintains-bind (encrypt_downstream_token-Maintains token.0)
        (λ encrypted. store_client-Maintains name enabled token encrypted))

  pub create-Maintains : (key : DownstreamKey) → Maintains IsSound (create crypto secret key)
  unfolding create
  create-Maintains key = Maintains-if _ (Maintains-fail _) (create_named-Maintains _ _)

  pub reveal-Maintains : (id : ℕ) → Maintains IsSound (reveal crypto secret id)
  unfolding reveal reveal_token
  reveal-Maintains id =
      Maintains-bind (get-Maintains id)
        (λ key. Maintains-if _ (Maintains-fail _) (Maintains-lift _))

  pub regenerate-Maintains : (id : ℕ) → Maintains IsSound (regenerate crypto secret id)
  unfolding regenerate
  regenerate-Maintains id = Maintains-bind (get-Maintains id) (λ existing.
      Maintains-bind generate_downstream_token-Maintains (λ token.
        Maintains-bind (encrypt_downstream_token-Maintains token.0) (λ encrypted.
          Maintains-bind Maintains-now (λ time.
            Maintains-bind
              (Maintains-exec _
                (λ t b next e s. replace_token-IsSound s id token encrypted time b next e))
              (λ b. Maintains-bind (require_rows-Maintains b) (λ u.
                Maintains-bind (get-Maintains existing.id) (λ refreshed. Maintains-pure _)))))))
