-- ===== src/Admin/Answers.antt =====
-- What the handlers of internal/app/handlers_admin.go share: an error is answered with a status, and
-- nothing else is done.
pub mod Sound
use atomhub.Prelude.{ℕ}
use atomhub.Text.{Text}
use atomhub.Types.{Error, key_not_found, downstream_key_not_found, error_text, Result, ok, err}
use atomhub.Server.{Server}

-- A handler: what it writes, and the state it leaves.
abbrev pub Handler : Type 0 → Type 0
Handler R = Server → R × Server

module _ {R : Type 0} (refused : ℕ → Text → R) where
  -- a call whose error is answered with a status, and what follows it
  unfoldable pub or_refuse :
      {A : Type 0} → (Error → ℕ) → (A → Handler R) → Result A × Server → R × Server
  or_refuse status k (err e, s) = (refused (status e) (error_text e), s)
  or_refuse status k (ok a, s) = k a s

unfoldable pub always_500 : Error → ℕ
always_500 e = 500

unfoldable pub client_status : Error → ℕ
client_status downstream_key_not_found = 404
client_status e = 500
