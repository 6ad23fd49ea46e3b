-- ===== src/Config.antt =====
-- The configuration from the environment: internal/config/config.go. `lookup` is os.Getenv, and
-- `parse_duration` time.ParseDuration, which gives nanoseconds.
pub mod Valid
mod Examples
use atomhub.Prelude.{
  ℕ, Bool, true, false, ◌||◌, not, List, [], ◌∷◌, ◌++◌, Option, none, some, if◌then◌else◌,
}
use atomhub.Prelude.Int.{ℤ, pos, ltb_ℤ}
use atomhub.Text.{Text, codes, is_empty, trim_space}
use atomhub.Types.{Error, error_text, message, Result, ok, err}

pub record Config : Type 0 where
  pub http_addr : Text
  pub db_path : Text
  pub session_secret : Text
  pub session_ttl : ℤ
  pub admin_username : Text
  pub admin_password : Text
  pub gateway_token : Text
  pub downstream_key_secret : Text

unfoldable pub default_if_empty : Text → Text → Text
default_if_empty v fallback = if is_empty (trim_space v) then fallback else trim_space v

abbrev is_blank : Text → Bool
is_blank t = is_empty (trim_space t)

-- the first of the tests that is true, with its message
first_of : List (Bool × Text) → Option Text
first_of [] = none
first_of ((failed, text) ∷ rest) = let later = first_of rest in if failed then some text else later

-- The tests of `Validate` with their messages. `filepath.Dir` is never empty, so the last test of the
-- code does not fail.
abbrev pub tests_of : Config → List (Bool × Text)
tests_of c =
    (is_blank c.http_addr, codes "http addr is required")
    ∷ (is_blank c.db_path, codes "db path is required")
    ∷ (is_blank c.session_secret, codes "session secret is required")
    ∷ (not (ltb_ℤ (pos 0) c.session_ttl), codes "session ttl must be positive")
    ∷ (is_blank c.admin_username, codes "admin username is required")
    ∷ (is_blank c.admin_password, codes "admin password is required")
    ∷ (is_blank c.gateway_token, codes "gateway token is required")
    ∷ (is_blank c.downstream_key_secret, codes "downstream key secret is required")
    ∷ []

-- Validate: the message of what is wrong
unfoldable pub validate : Config → Option Text
unfolding first_of
validate c = first_of (tests_of c)

abbrev pub day : ℤ
day = pos 86400000000000

module _ (lookup : Text → Text) (parse_duration : Text → Result ℤ) where
  read_ttl : Result ℤ
  read_ttl =
      let raw = trim_space (lookup (codes "ATOMHUB_SESSION_TTL")) in
      if is_empty raw then ok day else parse_duration raw

  abbrev or_default : Text → Text → Text
  or_default name fallback = default_if_empty (lookup name) fallback

  unfoldable pub config_of : ℤ → Config
  config_of ttl = record {
    http_addr = or_default (codes "ATOMHUB_HTTP_ADDR") (codes ":8080");
    db_path = or_default (codes "ATOMHUB_DB_PATH") (codes "./data/atomhub.db");
    session_secret = or_default (codes "ATOMHUB_SESSION_SECRET") (codes "atomhub-dev-secret");
    session_ttl = ttl;
    admin_username = or_default (codes "ATOMHUB_ADMIN_USERNAME") (codes "admin");
    admin_password = or_default (codes "ATOMHUB_ADMIN_PASSWORD") (codes "admin");
    gateway_token = or_default (codes "ATOMHUB_GATEWAY_TOKEN") (codes "atomhub-local-token");
    downstream_key_secret = trim_space (lookup (codes "ATOMHUB_DOWNSTREAM_KEY_SECRET"));
  }

  checked : Config → Option Text → Result Config
  checked c none = ok c
  checked c (some text) = err (message text)

  with_ttl : Result ℤ → Result Config
  unfolding checked
  with_ttl (err e) = err (message (codes "parse ATOMHUB_SESSION_TTL: " ++ error_text e))
  with_ttl (ok ttl) = checked (config_of ttl) (validate (config_of ttl))

  pub load : Result Config
  unfolding with_ttl read_ttl
  load = with_ttl read_ttl
