-- ===== src/Auth.antt =====
-- The tokens of downstream clients: internal/auth/downstream.go. SHA-256, hexadecimal and base64
-- texts and AES-GCM are the standard library's; bytes and the texts of ASCII are both lists of
-- numbers here.
pub mod Tokens
pub mod Session
use atomhub.Prelude.{
  ℕ, zero, suc, Bool, List, [], ◌∷◌, ◌++◌, ltb, ◌==◌, if◌then◌else◌, length, take,
}
use atomhub.Text.{Text, codes}
use atomhub.Types.{Error, message, Result, ok, err}
use atomhub.Server.{Server, M, ◌>>=◌, pure, fail}

-- `seal` and `open_sealed` take the key, the nonce and the text.
pub record Crypto : Type 0 where
  pub sha256 : Text → Text
  pub hex : Text → Text
  pub encode : Text → Text
  pub decode : Text → Result Text
  pub seal : Text → Text → Text → Text
  pub open_sealed : Text → Text → Text → Result Text

-- rand.Read: the next random bytes; anything but the length asked for is an error.
unfoldable pub read_random : ℕ → M Text
read_random n s = elim s.random [
  | [] ↦ (err (message (codes "read random")), s)
  | bytes ∷ rest ↦
      if length bytes == n
      then (ok bytes, record s { random = rest })
      else (err (message (codes "read random")), record s { random = rest })
]

-- `payload[n:]`
abbrev pub drop : ℕ → Text → Text
drop zero t = t
drop (suc n) [] = []
drop (suc n) (c ∷ t) = drop n t

abbrev pub nonce_size : ℕ
nonce_size = 12

module _ (crypto : Crypto) where
  unfoldable pub hash_downstream_token : Text → Text
  hash_downstream_token token = crypto.hex (crypto.sha256 token)

  derive_downstream_secret : Text → Text
  derive_downstream_secret secret = crypto.sha256 secret

  -- the token, its prefix and its hash
  unfoldable pub token_of : Text → Text × Text × Text
  token_of random_bytes =
      let token = codes "atom_" ++ crypto.encode random_bytes in
      (token, (if ltb 14 (length token) then take 14 token else token), hash_downstream_token token)

  unfoldable pub generate_downstream_token : M (Text × Text × Text)
  generate_downstream_token = do random_bytes ← read_random 24; pure (token_of random_bytes)

  unfoldable pub sealed : Text → Text → Text → Text
  unfolding derive_downstream_secret
  sealed secret token nonce =
      crypto.encode (nonce ++ crypto.seal (derive_downstream_secret secret) nonce token)

  unfoldable pub encrypt_downstream_token : Text → Text → M Text
  encrypt_downstream_token secret token = do
    nonce ← read_random nonce_size
    pure (sealed secret token nonce)

  open_payload : Text → Text → Result Text
  unfolding derive_downstream_secret
  open_payload secret payload =
      if ltb (length payload) nonce_size
      then err (message (codes "encrypted token payload too short"))
      else crypto.open_sealed (derive_downstream_secret secret) (take nonce_size payload)
          (drop nonce_size payload)

  pub decrypt_downstream_token : Text → Text → Result Text
  unfolding open_payload
  decrypt_downstream_token secret encrypted = elim (crypto.decode encrypted) [
    | err e ↦ err e
    | ok payload ↦ open_payload secret payload
  ]
