-- ===== src/Server/Wrapped.antt =====
-- Errors that a caller puts a text before: fmt.Errorf("…: %w", err).
use atomhub.Prelude.{◌≡◌, refl, ◌++◌}
use atomhub.Text.{Text}
use atomhub.Types.{error_text, message, Result, ok, err}
use atomhub.Server.{Server, Tables, M, lift}
use atomhub.Server.Outcome.{Outcome, Holds}
use atomhub.Server.Invariant.{Maintains}

unfoldable pub wrapped : {A : Type 0} → Text → Result A → Result A
wrapped prefix (ok a) = ok a
wrapped prefix (err e) = err (message (prefix ++ error_text e))

-- a call whose error is wrapped
unfoldable pub wrap : {A : Type 0} → Text → M A → M A
unfolding wrapped
wrap prefix m s = (wrapped prefix (m s).0, (m s).1)

pub wrap-Maintains :
    {A : Type 0} {P : Tables → Type 0} (prefix : Text) (m : M A)
    → Maintains P m
    → Maintains P (wrap prefix m)
unfolding wrap
wrap-Maintains prefix m k = record { at = k.at }

module _ {A : Type 0} (C : Server → Type 0) where
  Holds-wrapped :
      (prefix : Text) (Q : A → Server → Type 0) (r : Result A × Server)
      → Holds (λ e t. C t) Q r
      → Holds (λ e t. C t) Q (wrapped prefix r.0, r.1)
  unfolding wrapped
  Holds-wrapped prefix Q (ok a, t) h = h
  Holds-wrapped prefix Q (err e, t) h = h

  -- a wrapped error fails where the error does
  pub Outcome-wrap :
      (prefix : Text) (Q : A → Server → Type 0) (m : M A) (s : Server)
      → Outcome (λ e t. C t) Q m s
      → Outcome (λ e t. C t) Q (wrap prefix m) s
  unfolding wrap
  Outcome-wrap prefix Q m s h = record { holds = Holds-wrapped prefix Q (m s) h.holds }

  pub Outcome-lift :
      (r : Result A) (s : Server) → C s → Outcome (λ e t. C t) (λ a t. (r ≡ ok a) × C t) (lift r) s
  unfolding lift
  Outcome-lift (ok a) s h = record { holds = (refl, h) }
  Outcome-lift (err e) s h = record { holds = h }
