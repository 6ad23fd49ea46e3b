-- ===== src/Store/Keys/Registers.antt =====
-- What it means that an operation of internal/store/keys.go does what the map of its keys says, and the
-- reads and changes of rows that they are made of.
use mathlib.Core.Option
use mathlib.Core.Path.{fun_ext, subst}
use atomhub.Prelude.{
  ℕ, ◌≡◌, refl, ◌∙◌, sym, ◌⊎◌, ap, inl, inr, Bool, true, false, List, Option, none, some, arith,
  find?, Option-cases,
}
use atomhub.Types.{UpstreamKey, Error, database, key_not_found}
use atomhub.Server.{Server, driver_call, query}
use atomhub.Server.Outcome.{
  Outcome, Outcome-bind, Outcome-mono, Outcome-query, Outcome-pure, Outcome-fail,
  Outcome-driver_call,
}
use atomhub.Store.Rows.{update_where, exists_where}
use atomhub.Store.Keys.{has_id, or_key_not_found, get, require_rows}
use atomhub.Store.Keys.Registry.{Registry, Operation, put, registered, registry_of, view}
use atomhub.Store.Keys.Lookup.{find-exists_where, exists-found, view-update_where}

-- The operation did what the map says, at some time and with some id that no key had.
pub record Registers (op : Operation) (s : Server) (answer : Option UpstreamKey) (t : Server)
    : Type 0 where
  pub time : ℕ
  pub id : ℕ
  pub new : view s id ≡ none
  pub does : registered op time id (view s) ≡ some (answer, view t)

-- What a failure can be: the map is as it was, or there is no such key in it, or only the answer was
-- lost.
pub data Fails (op : Operation) (s : Server) : Error → Server → Type 0 where
  unchanged : {t : Server} → view t ≡ view s → Fails op s database t
  refused :
      {t : Server}
      → view t ≡ view s
      → ((time id : ℕ) → registered op time id (view s) ≡ none)
      → Fails op s key_not_found t
  unanswered :
      {t : Server} {answer : Option UpstreamKey} → Registers op s answer t → Fails op s database t

put_same :
    (k : ℕ) (value : Option UpstreamKey) (registry : Registry)
    → registry k ≡ value
    → put k value registry ≡ registry
put_same k value registry h = fun_ext (λ j. ground arith)

-- The row of a key was changed.
pub record Changed (k : ℕ) (f : UpstreamKey → UpstreamKey) (s t : Server) : Type 0 where
  pub before : UpstreamKey
  pub found : view s k ≡ some before
  pub after : view t ≡ put k (some (f before)) (view s)

pub data Hindered (k : ℕ) (f : UpstreamKey → UpstreamKey) (s : Server)
    : Error → Server → Type 0 where
  before_it : {t : Server} → view t ≡ view s → Hindered k f s database t
  missing : {t : Server} → view t ≡ view s → view s k ≡ none → Hindered k f s key_not_found t
  after_it : {t : Server} → Changed k f s t → Hindered k f s database t

module _ (k : ℕ) (f : UpstreamKey → UpstreamKey) (keep : (r : UpstreamKey) → (f r).id ≡ r.id)
    (s : Server) where
  pub require_rows-Changed :
      (b : Bool) (t : Server)
      → exists_where (has_id k) s.tables.upstream_keys ≡ b
      → t.tables.upstream_keys ≡ update_where (has_id k) f s.tables.upstream_keys
      → Outcome (Hindered k f s) (λ u v. Changed k f s v) (require_rows b) t
  unfolding require_rows
  require_rows-Changed true t e h =
      let (row, found) = exists-found (has_id k) s.tables.upstream_keys e in
      let changed : (fs : List Bool) → Changed k f s (record t { faults = fs }) = λ fs. record {
        before = row;
        found = found;
        after =
            ap registry_of h
            ∙ view-update_where k f s.tables.upstream_keys keep
            ∙ ap (λ (x : Option UpstreamKey). put k (Option.map f x) (view s)) found;
      } in
      Outcome-bind {m = driver_call}
        (Outcome-driver_call (λ fs. after_it (changed fs)) (λ fs. Outcome-pure (changed fs)))
  require_rows-Changed false t e h =
      let none_there = find-exists_where (has_id k) s.tables.upstream_keys e in
      let same : view t ≡ view s =
        ap registry_of h
        ∙ view-update_where k f s.tables.upstream_keys keep
        ∙ ap (λ (x : Option UpstreamKey). put k (Option.map f x) (view s)) none_there
        ∙ put_same k none (view s) none_there in
      Outcome-bind {m = driver_call}
        (Outcome-driver_call (λ fs. before_it same) (λ fs. Outcome-fail (missing same none_there)))

-- A lookup changes nothing.
pub get-Looks :
    (k : ℕ) (s : Server)
    → Outcome
        (λ e t. (view t ≡ view s) × ((e ≡ database) ⊎ ((e ≡ key_not_found) × (view s k ≡ none))))
        (λ key t. (view t ≡ view s) × (view s k ≡ some key))
        (get k)
        s
unfolding get or_key_not_found
get-Looks k s = Outcome-bind {m = query (λ t. find? (has_id k) t.upstream_keys)} (
    Outcome-query {s = s} (λ t. find? (has_id k) t.upstream_keys) (λ fs. (refl, inl refl))
      (λ fs. elim (Option-cases (view s k)) [
        | inl e ↦ rw (e, or_key_not_found) (Outcome-fail (refl, inr (refl, refl)))
        | inr (key, e) ↦ rw (e, or_key_not_found) (Outcome-pure (refl, refl))
      ]))

-- The same answer where the map is the same.
Registers-same :
    {op : Operation} {s t u : Server} {answer : Option UpstreamKey}
    → Registers op s answer t
    → view u ≡ view t
    → Registers op s answer u
Registers-same {op = op} {s = s} {t = t} {u = u} {answer = answer} r h = record {
  time = r.time;
  id = r.id;
  new = r.new;
  does = r.does ∙ ap (λ (v : Registry). some (answer, v)) (sym h);
}

-- The lookup behind a write finds what was written.
pub get-Registers :
    (op : Operation) (k : ℕ) (row : UpstreamKey) (s t : Server)
    → Registers op s (some row) t
    → view t k ≡ some row
    → Outcome (Fails op s) (λ key u. Registers op s (some key) u) (get k) t
get-Registers op k row s t r written_there = Outcome-mono (get-Looks k t) failed done
  where
    failed :
        (e : Error) (u : Server)
        → (view u ≡ view t) × ((e ≡ database) ⊎ ((e ≡ key_not_found) × (view t k ≡ none)))
        → Fails op s e u
    failed e u (same, inl it) =
        subst (λ (x : Error). Fails op s x u) (sym it) (unanswered (Registers-same r same))
    failed e u (same, inr (it, absent)) = cc

    done :
        (key : UpstreamKey) (u : Server)
        → (view u ≡ view t) × (view t k ≡ some key)
        → Registers op s (some key) u
    done key u (same, found) =
        let it : row ≡ key = cc in
        subst (λ (x : UpstreamKey). Registers op s (some x) u) it (Registers-same r same)
