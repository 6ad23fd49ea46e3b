-- ===== src/Auth/Tokens.antt =====
-- A token that internal/auth/downstream.go encrypted is decrypted to itself.
use atomhub.Prelude.{
  ℕ, ◌≡◌, refl, ◌∙◌, ap, sym, false, [], ◌∷◌, ◌++◌, arith, ltb, length, length-append, take,
}
use atomhub.Text.{Text}
use atomhub.Types.{ok}
use atomhub.Auth.{
  Crypto, drop, nonce_size, sealed, derive_downstream_secret, open_payload,
  decrypt_downstream_token,
}

take-append : (xs ys : Text) → take (length xs) (xs ++ ys) ≡ xs
take-append [] ys = refl
take-append (x ∷ xs) ys = ap (◌∷◌ x) (take-append xs ys)

drop-append : (xs ys : Text) → drop (length xs) (xs ++ ys) ≡ ys
drop-append [] ys = refl
drop-append (x ∷ xs) ys = drop-append xs ys

-- What the standard library promises: `DecodeString` gives back what `EncodeToString` was given, and
-- `Open` what `Seal` was given, under the same key and nonce.
pub record Inverts (crypto : Crypto) : Type 0 where
  pub decode : (t : Text) → crypto.decode (crypto.encode t) ≡ ok t
  pub open_sealed :
      (key nonce t : Text) → crypto.open_sealed key nonce (crypto.seal key nonce t) ≡ ok t

-- A token encrypted with a secret and any nonce of 12 bytes is decrypted with the same secret to the
-- token.
pub decrypt-sealed :
    (crypto : Crypto)
    → Inverts crypto
    → (secret token nonce : Text) → length nonce ≡ nonce_size
    → decrypt_downstream_token crypto secret (sealed crypto secret token nonce) ≡ ok token
unfolding decrypt_downstream_token sealed open_payload derive_downstream_secret
decrypt-sealed crypto laws secret token nonce h =
    let body = crypto.seal (crypto.sha256 secret) nonce token in
    let long : ltb (length (nonce ++ body)) nonce_size ≡ false =
      ground (arith, h, length-append nonce body) in
    rw
      (
        laws.decode (nonce ++ body),
        sealed,
        decrypt_downstream_token,
        open_payload,
        long,
        ap (λ (n : ℕ). take n (nonce ++ body)) (sym h) ∙ take-append nonce body,
        ap (λ (n : ℕ). drop n (nonce ++ body)) (sym h) ∙ drop-append nonce body,
        laws.open_sealed (crypto.sha256 secret) nonce token,
      )
      refl
