-- ===== src/App/Samples.antt =====
-- A program whose upstreams refuse every call, and requests to it, for the examples.
use atomhub.Prelude.{false, ℕ, ◌+◌, ◌-◌, List, [], ◌∷◌, none, some, map, list_eq}
use atomhub.Text.{Text, codes}
use atomhub.Types.{message, Result, ok, err}
use atomhub.App.Routes.{Method, Request, Program}

abbrev up : Text → Text
up t = map (λ (c : ℕ). c + 47) t

abbrev down : Text → Text
down t = map (λ (c : ℕ). c - 47) t

abbrev pub program : Program
program = record {
  signing = record { sign = λ t. t; encode = up; decode = λ t. some (down t) };
  session_ttl = 86400000000000;
  verify = list_eq;
  crypto = record {
    sha256 = λ t. t;
    hex = λ t. t;
    encode = λ t. t;
    decode = λ t. ok t;
    seal = λ key nonce t. t;
    open_sealed = λ key nonce t. ok t;
  };
  downstream_key_secret = codes "key";
  gateway_token = codes "root";
  providers = record {
    openai = some (λ key. ok (codes "gpt" ∷ []));
    anthropic = none;
    gemini = none;
  };
  external = record {
    join_url = λ base path. ok base;
    with_key = λ url key. ok url;
    post_openai = λ url auth req. err (message (codes "refused"));
    post_anthropic = λ url key payload. err (message (codes "refused"));
    post_gemini = λ url payload. err (message (codes "refused"));
    stream_openai = λ url auth req. err (message (codes "refused"));
    chunk_usage = λ payload. ok none;
    encode_chunk = λ chunk. codes "{}";
    new_uuid = codes "id";
  };
  is_file = λ path. false;
}

abbrev no_body : {A : Type 0} → Result A
no_body = err (message (codes "EOF"))

-- a request without a cookie, a token or a body
abbrev pub request : Method → List Text → Request
request method path = record {
  method = method;
  path = path;
  cookie = none;
  authorization = [];
  model_query = [];
  limit_query = [];
  login = no_body;
  key = no_body;
  key_update = no_body;
  client = no_body;
  client_update = no_body;
  chat = no_body;
  breaks = [];
}
