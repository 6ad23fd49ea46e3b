-- ===== src/Server/Outcome.antt =====
-- What a call leaves behind, on success and on failure, and a rule for each effect of `Server`.
-- A rule for a call of the database says nothing of `faults` but that they are some list.
use atomhub.Prelude.{none, ℕ, ◌≡◌, refl, Bool, true, false, List, [], ◌∷◌, Option, some}
use atomhub.Types.{Error, database, Result, ok, err, constraint}
use atomhub.Server.{
  Server, Tables, M, continue, ◌>>=◌, pure, fail, driver_call, next_fault, query, run_statement,
  exec, roll_back, transaction, now,
}

abbrev pub Holds :
    {A : Type 0} → (Error → Server → Type 0) → (A → Server → Type 0) → Result A × Server → Type 0
Holds E Q (ok a, t) = Q a t
Holds E Q (err e, t) = E e t

-- `Q` holds of the value and the state of a success, `E` of the error and the state of a failure.
pub record Outcome {A : Type 0} (E : Error → Server → Type 0) (Q : A → Server → Type 0) (m : M A)
    (s : Server) : Type 0 where
  pub holds : Holds E Q (m s)

abbrev pub with_faults : List Bool → Server → Server
with_faults fs s = record s { faults = fs }

-- What the clock shows when it is read next, and the state after that.
abbrev pub next_reading : Server → ℕ
next_reading s = elim s.readings [ [] ↦ s.clock | t ∷ ts ↦ t ]

abbrev pub with_clock : ℕ → List ℕ → Server → Server
with_clock c rs s = record s { clock = c; readings = rs }

Holds-continue :
    {A B : Type 0} (E : Error → Server → Type 0) (Q : B → Server → Type 0) (f : A → M B)
    (r : Result A × Server)
    → Holds E (λ a t. Outcome E Q (f a) t) r
    → Holds E Q (continue f r)
Holds-continue E Q f (ok a, t) h = h.holds
Holds-continue E Q f (err e, t) h = h

module _ {E : Error → Server → Type 0} where
  pub Outcome-bind :
      {A B : Type 0} {Q : B → Server → Type 0} {m : M A} {f : A → M B} {s : Server}
      → Outcome E (λ a t. Outcome E Q (f a) t) m s
      → Outcome E Q (m >>= f) s
  Outcome-bind {Q = Q} {m = m} {f = f} {s = s} h = record {
    holds = Holds-continue E Q f (m s) h.holds;
  }

  pub Outcome-pure :
      {A : Type 0} {Q : A → Server → Type 0} {a : A} {s : Server} → Q a s → Outcome E Q (pure a) s
  Outcome-pure h = record { holds = h }

  pub Outcome-fail :
      {A : Type 0} {Q : A → Server → Type 0} {e : Error} {s : Server}
      → E e s
      → Outcome E Q (fail e) s
  Outcome-fail h = record { holds = h }

  pub Outcome-driver_call :
      {Q : Unit {0} → Server → Type 0} {s : Server}
      → ((fs : List Bool) → E database (with_faults fs s))
      → ((fs : List Bool) → Q tt (with_faults fs s))
      → Outcome E Q driver_call s
  unfolding driver_call
  Outcome-driver_call {Q = Q} {s = s} e q = record {
    holds =
        (elim (next_fault s.faults).0
          as (λ b. Holds E Q (elim b [
            | true ↦ (err database, record s { faults = (next_fault s.faults).1 })
            | false ↦ (ok tt, record s { faults = (next_fault s.faults).1 })
          ])) [ true ↦ e _ | false ↦ q _ ]);
  }

  pub Outcome-query :
      {A : Type 0} {Q : A → Server → Type 0} {s : Server} (f : Tables → A)
      → ((fs : List Bool) → E database (with_faults fs s))
      → ((fs : List Bool) → Q (f s.tables) (with_faults fs s))
      → Outcome E Q (query f) s
  unfolding query
  Outcome-query {s = s} f e q =
      Outcome-bind {m = driver_call} (Outcome-driver_call {s = s} e (λ fs. record { holds = q fs }))

  -- `next` is what the statement does to the tables, if its constraints hold.
  pub Outcome-exec :
      {A : Type 0} {Q : A → Server → Type 0} {s : Server} (f : Tables → Option (A × Tables)) (a : A)
      (next : Tables)
      → f s.tables ≡ some (a, next)
      → ((fs : List Bool) → E database (with_faults fs s))
      → ((fs : List Bool) → Q a (record s { tables = next; faults = fs }))
      → Outcome E Q (exec f) s
  unfolding exec
  Outcome-exec {s = s} f a next made e q =
      Outcome-bind {m = driver_call}
        (Outcome-driver_call {s = s} e (λ fs. record { holds = rw (made, run_statement) (q fs) }))

  -- A statement whose constraint does not hold.
  pub Outcome-refused :
      {A : Type 0} {Q : A → Server → Type 0} {s : Server} (f : Tables → Option (A × Tables))
      → f s.tables ≡ none
      → ((fs : List Bool) → E database (with_faults fs s))
      → ((fs : List Bool) → E constraint (with_faults fs s))
      → Outcome E Q (exec f) s
  unfolding exec
  Outcome-refused {s = s} f refused e q =
      Outcome-bind {m = driver_call} (
        Outcome-driver_call {s = s} e (λ fs. record { holds = rw (refused, run_statement) (q fs) }))

  pub Outcome-now :
      {Q : ℕ → Server → Type 0} {s : Server}
      → ((rs : List ℕ) → Q (next_reading s) (with_clock (next_reading s) rs s))
      → Outcome E Q now s
  unfolding now
  Outcome-now {Q = Q} {s = s} q = record {
    holds =
        (elim s.readings
            as (λ l.
              ((rs : List ℕ)
                → Q (elim l [ [] ↦ s.clock | t ∷ ts ↦ t ])
                    (with_clock (elim l [ [] ↦ s.clock | t ∷ ts ↦ t ]) rs s))
              → Holds E Q (elim l [
                | [] ↦ (ok s.clock, s)
                | t ∷ ts ↦ (ok t, record s { clock = t; readings = ts })
              ])) [ [] ↦ λ k. k s.readings | t ∷ ts ↦ λ k. k ts ])
          q;
  }

Holds-mono :
    {A : Type 0} {E F : Error → Server → Type 0} {Q R : A → Server → Type 0} (r : Result A × Server)
    → ((e : Error) (t : Server) → E e t → F e t)
    → ((a : A) (t : Server) → Q a t → R a t)
    → Holds E Q r
    → Holds F R r
Holds-mono (ok a, t) f g h = g a t h
Holds-mono (err e, t) f g h = f e t h

pub Outcome-mono :
    {A : Type 0} {E F : Error → Server → Type 0} {Q R : A → Server → Type 0} {m : M A} {s : Server}
    → Outcome E Q m s
    → ((e : Error) (t : Server) → E e t → F e t)
    → ((a : A) (t : Server) → Q a t → R a t)
    → Outcome F R m s
Outcome-mono {E = E} {F = F} {Q = Q} {R = R} {m = m} {s = s} h f g = record {
  holds = Holds-mono (m s) f g h.holds;
}

Holds-both :
    {A : Type 0} (E F : Error → Server → Type 0) (Q R : A → Server → Type 0) (r : Result A × Server)
    → Holds E Q r
    → Holds F R r
    → Holds (λ e t. E e t × F e t) (λ a t. Q a t × R a t) r
Holds-both E F Q R (ok a, t) h k = (h, k)
Holds-both E F Q R (err e, t) h k = (h, k)

-- Two things that hold of one run.
pub Outcome-both :
    {A : Type 0} {E F : Error → Server → Type 0} {Q R : A → Server → Type 0} {m : M A} {s : Server}
    → Outcome E Q m s
    → Outcome F R m s
    → Outcome (λ e t. E e t × F e t) (λ a t. Q a t × R a t) m s
Outcome-both {E = E} {F = F} {Q = Q} {R = R} {m = m} {s = s} h k = record {
  holds = Holds-both E F Q R (m s) h.holds k.holds;
}

Holds-result :
    {A : Type 0} (r p : Result A × Server)
    → r ≡ p
    → Holds (λ e t. r ≡ (err e, t)) (λ a t. r ≡ (ok a, t)) p
Holds-result r (ok a, t) h = h
Holds-result r (err e, t) h = h

-- The run itself.
pub Outcome-result :
    {A : Type 0} (m : M A) (s : Server)
    → Outcome (λ e t. m s ≡ (err e, t)) (λ a t. m s ≡ (ok a, t)) m s
Outcome-result m s = record { holds = Holds-result (m s) (m s) refl }

-- A call that fails only where a call of the database does.
abbrev pub FailsByDatabase : {A : Type 0} → M A → Server → Type 0
FailsByDatabase m s = Outcome (λ e t. e ≡ database) (λ a t. Unit {0}) m s

-- The second call runs from wherever the first may succeed.
pub Outcome-seq :
    {A B : Type 0} {E : Error → Server → Type 0} {R : A → Server → Type 0} {Q : B → Server → Type 0}
    {m : M A} {f : A → M B} {s : Server}
    → Outcome E R m s
    → ((a : A) (t : Server) → R a t → Outcome E Q (f a) t)
    → Outcome E Q (m >>= f) s
Outcome-seq h k = Outcome-bind (Outcome-mono h (λ e t x. x) k)

Holds-roll_back :
    {A : Type 0} (E : Error → Server → Type 0) (Q : A → Server → Type 0) (before : Tables)
    (r : Result A × Server)
    → Holds (λ e t. E e (record t { tables = before })) Q r
    → Holds E Q (roll_back before r)
unfolding roll_back
Holds-roll_back E Q before (ok a, t) h = h
Holds-roll_back E Q before (err e, t) h = h

-- A transaction that fails, in its body or at its ends, has the tables of its beginning.
pub Outcome-transaction :
    {A : Type 0} {E : Error → Server → Type 0} {Q : A → Server → Type 0} {s : Server} (body : M A)
    → ((fs : List Bool) → E database (with_faults fs s))
    → ((fs : List Bool)
        → Outcome
            (λ e t. E e (record t { tables = s.tables }))
            (λ a t.
              ((gs : List Bool) → E database (record t { tables = s.tables; faults = gs }))
              × ((gs : List Bool) → Q a (with_faults gs t)))
            body
            (with_faults fs s))
    → Outcome E Q (transaction body) s
unfolding transaction
Outcome-transaction {E = E} {Q = Q} {s = s} body e q = Outcome-bind {m = driver_call} (
    Outcome-driver_call {s = s} e (λ fs. record {
      holds = Holds-roll_back E Q s.tables _ (
          (Outcome-seq (q fs) (λ a t h.
            Outcome-bind {m = driver_call}
              (Outcome-driver_call {s = t} h.0 (λ gs. Outcome-pure (h.1 gs))))).holds);
    }))

-- The parts of the state that are not tables: two calls of the database leave them alike.
pub record SameMemory (s t : Server) : Type 0 where
  pub inflight : t.inflight ≡ s.inflight
  pub keys_by_model : t.keys_by_model ≡ s.keys_by_model

-- The tables are those given, and the rest of the state is as it was.
pub record Leaves (next : Tables) (s t : Server) : Type 0 where
  pub tables : t.tables ≡ next
  pub memory : SameMemory s t

-- Nothing is changed but the clock, the faults to come, the random bytes and, in a start, the schema.
abbrev pub Untouched : Server → Server → Type 0
Untouched s t = Leaves s.tables s t

pub Untouched-refl : (s : Server) → Untouched s s
Untouched-refl s = record {
  tables = refl;
  memory = record { inflight = refl; keys_by_model = refl };
}

pub Untouched-with_faults : {s : Server} {fs : List Bool} → Untouched s (with_faults fs s)
Untouched-with_faults = record {
  tables = refl;
  memory = record { inflight = refl; keys_by_model = refl };
}
