-- ===== src/Store/DownstreamKeys/Examples.antt =====
-- A client created on the sample server, with an encoding that moves every character past the spaces.
use atomhub.Prelude.{ℕ, ◌+◌, ◌-◌, ◌≡◌, refl, ap, true, false, [], ◌∷◌, arith, map}
use atomhub.Text.{Text, codes, is_empty, is_space, trim_space}
use atomhub.Types.{ok}
use atomhub.Server.{Server}
use atomhub.Server.Outcome.{Outcome}
use atomhub.Auth.{Crypto}
use atomhub.Auth.Tokens.{Inverts}
use atomhub.Samples.{sample, client_one}
use atomhub.Store.DownstreamKeys.{create, regenerate}
use atomhub.Store.DownstreamKeys.Creation.{Grown, IsSpaceless, Made, create-Made}
use atomhub.Store.DownstreamKeys.Renewal.{OnlyClient, Renewed}
use atomhub.Store.DownstreamKeys.Renewal.Regenerate.{regenerate-Renewed}

abbrev up : Text → Text
up t = map (λ (c : ℕ). c + 0x3001) t

abbrev down : Text → Text
down t = map (λ (c : ℕ). c - 0x3001) t

down-up : (t : Text) → down (up t) ≡ t
down-up [] = refl
down-up (c ∷ t) = ground (arith, down-up t)

abbrev crypto : Crypto
crypto = record {
  sha256 = λ t. t;
  hex = λ t. t;
  encode = up;
  decode = λ t. ok (down t);
  seal = λ key nonce t. t;
  open_sealed = λ key nonce t. ok t;
}

crypto-Inverts : Inverts crypto
crypto-Inverts = record { decode = λ t. ap ok (down-up t); open_sealed = λ key nonce t. refl }

high_is_space : (c : ℕ) → is_space (c + 0x3001) ≡ false
unfolding is_space
high_is_space c = ground arith

crypto-IsSpaceless : IsSpaceless crypto
crypto-IsSpaceless [] = tt
crypto-IsSpaceless (c ∷ t) = (high_is_space c, crypto-IsSpaceless t)

abbrev seeded : Server
seeded = record sample { random = codes "abcdefghijklmnopqrstuvwx" ∷ codes "0123456789ab" ∷ [] }

create-Made_example :
    Outcome
      (λ e t. Grown seeded t)
      (λ v t.
        Made crypto (codes "key") true v.1 seeded t
        × (is_empty (trim_space (codes "team")) ≡ false))
      (create crypto (codes "key") client_one)
      seeded
create-Made_example =
    create-Made crypto (codes "key") crypto-Inverts crypto-IsSpaceless client_one seeded

regenerate-Renewed_example :
    Outcome
      (λ e t. OnlyClient 1 seeded t)
      (λ v t. Renewed crypto (codes "key") 1 v.1 seeded t)
      (regenerate crypto (codes "key") 1)
      seeded
regenerate-Renewed_example =
    regenerate-Renewed crypto (codes "key") crypto-Inverts crypto-IsSpaceless 1 seeded
