-- ===== src/Gateway/Access/Examples.antt =====
-- Access to the downstream API of the sample server, with a hash that changes nothing.
use atomhub.Prelude.{◌≡◌, refl}
use atomhub.Text.{codes, trim_space}
use atomhub.Types.{ok}
use atomhub.Server.Outcome.{Untouched}
use atomhub.Auth.{Crypto, sealed, decrypt_downstream_token}
use atomhub.Auth.Tokens.{Inverts, decrypt-sealed}
use atomhub.Samples.{sample}
use atomhub.Gateway.Access.{bearer_token, require_gateway_access}
use atomhub.Gateway.Access.Admission.{Decided, require_gateway_access-Decided}

abbrev crypto : Crypto
crypto = record {
  sha256 = λ t. t;
  hex = λ t. t;
  encode = λ t. t;
  decode = λ t. ok t;
  seal = λ key nonce t. t;
  open_sealed = λ key nonce t. ok t;
}

crypto-Inverts : Inverts crypto
crypto-Inverts = record { decode = λ t. refl; open_sealed = λ key nonce t. refl }

decrypt-sealed_example :
    decrypt_downstream_token crypto
      (codes "key")
      (sealed crypto (codes "key") (codes "atom_x") (codes "123456789012"))
    ≡ ok (codes "atom_x")
decrypt-sealed_example =
    decrypt-sealed crypto crypto-Inverts (codes "key") (codes "atom_x") (codes "123456789012") refl

require_gateway_access-Decided_example :
    let r =
      require_gateway_access crypto (codes "key") (codes "root") (codes "Bearer hash") sample in
    Decided crypto
      (codes "key")
      (codes "root")
      (bearer_token (trim_space (codes "Bearer hash")))
      sample
      r.0
    × Untouched sample r.1
require_gateway_access-Decided_example =
    require_gateway_access-Decided crypto (codes "key") (codes "root") (codes "Bearer hash") sample
