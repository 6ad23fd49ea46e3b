-- ===== src/Server/Keeps.antt =====
-- What a call keeps: a property of the state, and in particular the parts of it that are not its
-- business.
use atomhub.Prelude.{ℕ, ◌≡◌, [], ◌∷◌}
use atomhub.Types.{Error, Result, ok, err}
use atomhub.Server.{Server, M, continue, ◌>>=◌, pure, fail, lift, now}
use atomhub.Server.Outcome.{Outcome, Holds}

-- Every run from a state with the property ends in one, whether the call succeeds or not.
pub record Keeps {A : Type 0} (P : Server → Type 0) (m : M A) : Type 0 where
  pub at : (s : Server) → P s → P (m s).1

module _ {P : Server → Type 0} where
  pub Keeps-pure : {A : Type 0} (a : A) → Keeps P (pure a)
  Keeps-pure a = record { at = λ s h. h }

  pub Keeps-fail : {A : Type 0} (e : Error) → Keeps P (fail {A = A} e)
  Keeps-fail e = record { at = λ s h. h }

  pub Keeps-lift : {A : Type 0} (r : Result A) → Keeps P (lift r)
  unfolding lift
  Keeps-lift r = record { at = λ s h. h }

  continue-keeps :
      {A B : Type 0} (f : A → M B)
      → ((a : A) → Keeps P (f a))
      → (r : Result A × Server) → P r.1
      → P (continue f r).1
  continue-keeps f k (ok a, s) h = (k a).at s h
  continue-keeps f k (err e, s) h = h

  pub Keeps-bind :
      {A B : Type 0} {m : M A} {f : A → M B}
      → Keeps P m
      → ((a : A) → Keeps P (f a))
      → Keeps P (m >>= f)
  Keeps-bind {m = m} {f = f} k l = record { at = λ s h. continue-keeps f l (m s) (k.at s h) }

-- The state without the clock.
abbrev pub unclocked : Server → Server
unclocked s = record s { clock = 0; readings = [] }

-- Nothing but the clock differs from the state given.
abbrev pub IsTimed : Server → Server → Type 0
IsTimed s t = unclocked t ≡ unclocked s

pub Keeps-now : (s₀ : Server) → Keeps (IsTimed s₀) now
unfolding now
Keeps-now s₀ = record {
  at = λ s h.
      elim s.readings
        as (λ l.
          let r : Result ℕ × Server = elim l [
            | [] ↦ (ok s.clock, s)
            | t ∷ ts ↦ (ok t, record s { clock = t; readings = ts })
          ] in
          IsTimed s₀ r.1) [ [] ↦ h | t ∷ ts ↦ h ];
}

Holds-same :
    {A : Type 0} (C : Server → Type 0) (r : Result A × Server)
    → Holds (λ e t. C t) (λ v t. C t) r
    → C r.1
Holds-same C (ok a, t) h = h
Holds-same C (err e, t) h = h

-- What holds after a call on success and on failure holds after it.
pub after :
    {A : Type 0} (C : Server → Type 0) (m : M A) (s : Server)
    → Outcome (λ e t. C t) (λ v t. C t) m s
    → C (m s).1
after C m s h = Holds-same C (m s) h.holds
