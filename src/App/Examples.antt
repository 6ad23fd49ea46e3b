-- ===== src/App/Examples.antt =====
-- The program started on an empty database and on the sample server.
use atomhub.Prelude.{
  ℕ, ◌≡◌, ◌≢◌, refl, sym, ◌∙◌, list_eq_iff, ◌⊎◌, true, false, [], ◌∷◌, some, arith, list_eq,
}
use atomhub.Prelude.Int.{pos}
use atomhub.Text.{Text, codes, trim_space, cut, equal_fold}
use atomhub.Types.{ok}
use atomhub.Server.{empty_server, driver_call, exec}
use atomhub.Server.Outcome.{Outcome, Untouched}
use atomhub.Config.{Config}
use atomhub.Samples.{sample, client_one}
use atomhub.Auth.{hash_downstream_token}
use atomhub.Store.Rows.{exists_where}
use atomhub.Store.Sound.{IsSound}
use atomhub.Store.DownstreamKeys
use atomhub.Store.DownstreamKeys.Lookup.{open_row}
use atomhub.Gateway.Access.{bearer_token}
use atomhub.App.{Startup, restarted, new}
use atomhub.App.Samples.{program, request}
use atomhub.App.Routes.{get, post, Request, refused, serve}
use atomhub.App.Ready.{Ready, new-Ready}
use atomhub.App.Reach.{here, next, start, handle, Reach-IsSound}
use atomhub.App.Revocation.{serve-Revoked}

abbrev startup : Startup
startup = record { opened = ok tt; hash_password = λ t. ok t }

abbrev config : Config
config = record {
  http_addr = codes ":8080";
  db_path = codes "atomhub.db";
  session_secret = codes "secret";
  session_ttl = pos 5;
  admin_username = codes "admin";
  admin_password = codes "pass";
  gateway_token = codes "root";
  downstream_key_secret = codes "key";
}

new-Ready_example :
    Outcome
      (λ e t. Untouched (restarted sample) t)
      (λ u t. Ready startup config sample t)
      (new startup config)
      sample
new-Ready_example = new-Ready startup config sample

abbrev list_of_keys : Request
list_of_keys = request get (codes "admin" ∷ codes "keys" ∷ [])

Reach-IsSound_example :
    IsSound (serve program list_of_keys (new startup config empty_server).1).1.tables
Reach-IsSound_example =
    Reach-IsSound program (serve program list_of_keys (new startup config empty_server).1).1
      (next (next here (start startup config empty_server)) (handle list_of_keys _))

sample-IsSound : IsSound sample.tables
unfolding exists_where
sample-IsSound = record {
  keys = omega arith;
  models = (refl, tt);
  states = (refl, tt);
  clients = omega arith;
  hashes = (refl, tt);
  logs = omega arith;
  admins = tt;
}

-- the client's token as the bearer token; the sample's hash changes nothing
abbrev chat_request : Request
chat_request = record (request post (codes "v1" ∷ codes "chat" ∷ codes "completions" ∷ [])) {
  authorization = codes "Bearer hash";
}

opened :
    open_row program.crypto program.downstream_key_secret (codes "hash") sample ≡ some client_one
unfolding hash_downstream_token trim_space list_eq
opened = refl

deleted : (DownstreamKeys.delete 1 sample).0 ≡ ok tt
unfolding DownstreamKeys.delete driver_call exec exists_where
deleted = refl

tokens_differ : list_eq (codes "hash") (codes "root") ≡ false
unfolding list_eq
tokens_differ = refl

other_token : codes "hash" ≢ codes "root"
other_token e =
    let never : true ≡ false =
      sym ((list_eq_iff (codes "hash") (codes "root")).1 e) ∙ tokens_differ in
    cc

bearer : bearer_token (trim_space (codes "Bearer hash")) ≡ some (codes "hash")
unfolding bearer_token trim_space cut equal_fold
bearer = refl

serve-Revoked_example :
    let t = (DownstreamKeys.delete 1 sample).1 in
    (status : ℕ) × (text : Text) × ((serve program chat_request t).0 ≡ refused status text)
    × ((status ≡ 401) ⊎ (status ≡ 500))
    × Untouched t (serve program chat_request t).1
serve-Revoked_example =
    serve-Revoked program sample sample (codes "hash") client_one chat_request (codes "chat")
      (codes "completions" ∷ []) sample-IsSound here opened deleted other_token refl bearer
