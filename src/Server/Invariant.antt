-- ===== src/Server/Invariant.antt =====
-- What a call keeps of the tables: a rule for each effect of `Server`. In a property of the tables
-- the clock, the faults and the rest of the memory have no part.
use atomhub.Prelude.{ℕ, ◌≡◌, refl, Bool, true, false, [], ◌∷◌, Option, none, some, if◌then◌else◌}
use atomhub.Types.{Error, database, Result, ok, err}
use atomhub.Server.{
  Server, Tables, M, ◌>>=◌, continue, pure, fail, lift, driver_call, next_fault, query,
  run_statement, exec, roll_back, transaction, now, ignore,
}

-- Every run from tables with the property ends in such tables, whether the call succeeds or not.
pub record Maintains {A : Type 0} (P : Tables → Type 0) (m : M A) : Type 0 where
  pub at : (s : Server) → P s.tables → P (m s).1.tables

roll_back-maintains :
    {A : Type 0} (P : Tables → Type 0) (before : Tables) (r : Result A × Server)
    → P before
    → P r.1.tables
    → P (roll_back before r).1.tables
unfolding roll_back
roll_back-maintains P before (ok a, s) b h = h
roll_back-maintains P before (err e, s) b h = b

module _ {P : Tables → Type 0} where
  pub Maintains-pure : {A : Type 0} (a : A) → Maintains P (pure a)
  Maintains-pure a = record { at = λ s h. h }

  pub Maintains-fail : {A : Type 0} (e : Error) → Maintains P (fail {A = A} e)
  Maintains-fail e = record { at = λ s h. h }

  pub Maintains-lift : {A : Type 0} (r : Result A) → Maintains P (lift r)
  unfolding lift
  Maintains-lift r = record { at = λ s h. h }

  continue-maintains :
      {A B : Type 0} (f : A → M B)
      → ((a : A) → Maintains P (f a))
      → (r : Result A × Server) → P r.1.tables
      → P (continue f r).1.tables
  continue-maintains f k (ok a, s) h = (k a).at s h
  continue-maintains f k (err e, s) h = h

  pub Maintains-bind :
      {A B : Type 0} {m : M A} {f : A → M B}
      → Maintains P m
      → ((a : A) → Maintains P (f a))
      → Maintains P (m >>= f)
  Maintains-bind {m = m} {f = f} k l = record {
    at = λ s h. continue-maintains f l (m s) (k.at s h);
  }

  -- a call that is the one or the other
  pub Maintains-if :
      {A : Type 0} (b : Bool) {m n : M A}
      → Maintains P m
      → Maintains P n
      → Maintains P (if b then m else n)
  Maintains-if true k l = k
  Maintains-if false k l = l

  pub Maintains-driver_call : Maintains P driver_call
  unfolding driver_call
  Maintains-driver_call = record {
    at = λ s h.
        elim (next_fault s.faults).0
          as (λ b.
            let r : Result (Unit {0}) × Server = elim b [
              | true ↦ (err database, record s { faults = (next_fault s.faults).1 })
              | false ↦ (ok tt, record s { faults = (next_fault s.faults).1 })
            ] in
            P r.1.tables) [ true ↦ h | false ↦ h ];
  }

  pub Maintains-query : {A : Type 0} (f : Tables → A) → Maintains P (query f)
  unfolding query
  Maintains-query f =
      Maintains-bind {m = driver_call} Maintains-driver_call (λ u. record { at = λ s h. h })

  run_statement-maintains :
      {A : Type 0} (o : Option (A × Tables)) (s : Server)
      → ((a : A) (next : Tables) → o ≡ some (a, next) → P next)
      → P s.tables
      → P (run_statement o s).1.tables
  unfolding run_statement
  run_statement-maintains none s k h = h
  run_statement-maintains (some (a, next)) s k h = k a next refl

  -- a statement that may break a constraint
  pub Maintains-exec :
      {A : Type 0} (f : Tables → Option (A × Tables))
      → ((t : Tables) (a : A) (next : Tables) → f t ≡ some (a, next) → P t → P next)
      → Maintains P (exec f)
  unfolding exec
  Maintains-exec f k = Maintains-bind {m = driver_call} Maintains-driver_call (λ u. record {
    at = λ s h. run_statement-maintains (f s.tables) s (λ a next e. k s.tables a next e h) h;
  })

  -- a statement without a constraint
  pub Maintains-change :
      {A : Type 0} (f : Tables → A × Tables)
      → ((t : Tables) → P t → P (f t).1)
      → Maintains P (exec (λ t. some (f t)))
  unfolding exec run_statement
  Maintains-change f k =
      Maintains-bind {m = driver_call} Maintains-driver_call
        (λ u. record { at = λ s h. k s.tables h })

  pub Maintains-transaction :
      {A : Type 0} (body : M A) → Maintains P body → Maintains P (transaction body)
  unfolding transaction
  Maintains-transaction body k = Maintains-bind {m = driver_call} Maintains-driver_call (λ u.
      record {
        at = λ s h. roll_back-maintains P s.tables _ h (
            (Maintains-bind k (λ a.
                Maintains-bind {m = driver_call} Maintains-driver_call (λ u. Maintains-pure a))).at
              s h);
      })

  pub Maintains-now : Maintains P now
  unfolding now
  Maintains-now = record {
    at = λ s h.
        elim s.readings
          as (λ l.
            let r : Result ℕ × Server = elim l [
              | [] ↦ (ok s.clock, s)
              | t ∷ ts ↦ (ok t, record s { clock = t; readings = ts })
            ] in
            P r.1.tables) [ [] ↦ h | t ∷ ts ↦ h ];
  }

  pub Maintains-ignore : {A : Type 0} {m : M A} → Maintains P m → Maintains P (ignore m)
  Maintains-ignore k = record { at = k.at }
