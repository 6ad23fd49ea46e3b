-- ===== src/Store/Keys/Refinement.antt =====
-- Each operation of internal/store/keys.go does to the rows what a map from ids to keys would.
mod Writes
use mathlib.Core.Option
use mathlib.Core.Path.{fun_ext, subst}
use atomhub.Prelude.{
  ℕ, zero, ◌+◌, ◌≤◌, ◌<◌, ◌≡◌, refl, ◌∙◌, sym, ◌⊎◌, ap, inl, inr, Bool, true, false, List, [], ◌∷◌,
  ◌++◌, Option, none, some, arith, ◌==◌, if◌then◌else◌, find?, Bool-cases, Option-cases,
}
use atomhub.Types.{UpstreamKey, Error, database, key_not_found}
use atomhub.Server.{Server, Tables, M, ◌>>=◌, ◌>>◌, pure, fail, driver_call, query, exec}
use atomhub.Server.Outcome.{
  Outcome, Outcome-bind, Outcome-seq, Outcome-mono, Outcome-query, Outcome-exec, Outcome-now,
  Outcome-pure, Outcome-fail, Outcome-driver_call, Untouched, next_reading,
}
use atomhub.Store.Rows.{update_where, exists_where}
use atomhub.Store.Sound.{IsSound}
use atomhub.Store.Keys.{
  has_id, or_key_not_found, get, create, insert_key, require_rows, written, update_id, update_row,
  update, set_enabled, delete,
}
use atomhub.Store.Keys.Deletion.{Gone, IsStored, Refused, delete-Gone}
use atomhub.Store.Keys.Registry.{
  Registry, Operation, look_up, add, change, enable, remove, perform, put, new_key, switched,
  on_key, registered, registry_of, view,
}
use atomhub.Store.Keys.Lookup.{
  find_above, find_below, find-append, find-rows_of, first_of, find-exists_where, exists-found,
  view-update_where,
}
use atomhub.Store.Keys.Registers.{
  Registers, Fails, unchanged, refused, unanswered, Changed, Hindered, before_it, missing, after_it,
  require_rows-Changed, get-Looks, get-Registers,
}
use atomhub.Store.Keys.Refinement.Writes.{
  next_id, next_id_new, create-Registers, set_enabled-Registers, update-Registers,
}

module _ (s : Server) (sound : IsSound s.tables) where
  removed : (k : ℕ) (t : Server) → Gone k s t → view t ≡ put k none (view s)
  removed k t g = fun_ext (λ j.
      let there = find-rows_of (λ (r : UpstreamKey). r.id) j s.tables.upstream_keys in
      find-rows_of (λ (r : UpstreamKey). r.id) j t.tables.upstream_keys
      ∙ ap first_of (g.keys j)
      ∙ ground (arith, there))

  -- a failure that leaves the map
  nothing_done :
      (op : Operation) (k : ℕ) (e : Error) (t : Server)
      → (view s k ≡ none → (time id : ℕ) → registered op time id (view s) ≡ none)
      → view t ≡ view s
      → (e ≡ database) ⊎ ((e ≡ key_not_found) × (view s k ≡ none))
      → Fails op s e t
  nothing_done op k e t n same (inl it) =
      subst (λ (x : Error). Fails op s x t) (sym it) (unchanged same)
  nothing_done op k e t n same (inr (it, absent)) =
      subst (λ (x : Error). Fails op s x t) (sym it) (refused same (n absent))

  delete-Registers :
      (k : ℕ) → Outcome (Fails (remove k) s) (λ u t. Registers (remove k) s none t) (delete k) s
  unfolding registered on_key
  delete-Registers k = Outcome-mono (delete-Gone k s) failed done
    where
      failed : (e : Error) (t : Server) → Untouched s t × Refused k s e → Fails (remove k) s e t
      failed e t (u, why) =
          nothing_done (remove k) k e t (λ h time id. ap (Option.map _) h)
            (ap (λ (x : Tables). registry_of x.upstream_keys) u.tables) (known why)
        where
          known : Refused k s e → (e ≡ database) ⊎ ((e ≡ key_not_found) × (view s k ≡ none))
          known (inl it) = inl it
          known (inr (it, absent)) =
              inr (it, find-exists_where (has_id k) s.tables.upstream_keys absent)

      done : (u : Unit {0}) (t : Server) → IsStored k s × Gone k s t → Registers (remove k) s none t
      done u t (stored, gone) =
          let no_key : Option UpstreamKey = none in
          let (row, found) = exists-found (has_id k) s.tables.upstream_keys stored in
          record {
            time = 0;
            id = next_id s sound;
            new = next_id_new s sound;
            does =
                ap (Option.map (λ (row : UpstreamKey). (no_key, put k none (view s)))) found
                ∙ ap (λ (v : Registry). some (no_key, v)) (sym (removed k t gone));
          }

  look_up-Registers :
      (k : ℕ)
      → Outcome (Fails (look_up k) s) (λ key t. Registers (look_up k) s (some key) t) (get k) s
  unfolding registered
  look_up-Registers k =
      Outcome-mono (get-Looks k s)
        (λ e t
            (h : (view t ≡ view s) × ((e ≡ database) ⊎ ((e ≡ key_not_found) × (view s k ≡ none)))).
          nothing_done (look_up k) k e t (λ absent time id. ap (Option.map _) absent) h.0 h.1)
        (λ key t (h : (view t ≡ view s) × (view s k ≡ some key)). record {
          time = 0;
          id = next_id s sound;
          new = next_id_new s sound;
          does =
              ap (Option.map (λ (key : UpstreamKey). (some key, view s))) h.1
              ∙ ap (λ (v : Registry). some (some key, v)) (sym h.0);
        })

  answered :
      {A : Type 0} (op : Operation) (m : M A) (answer : A → Option UpstreamKey)
      → Outcome (Fails op s) (λ a t. Registers op s (answer a) t) m s
      → Outcome (Fails op s) (Registers op s) (do a ← m; pure (answer a)) s
  answered op m answer h = Outcome-seq h (λ a t r. Outcome-pure r)

-- From a state with sound tables every operation of the store of upstream keys does what it would do
-- to a map from ids to keys: it answers with the key of the id, if it returns one, and changes the map
-- at that id alone, for a new key at an id that no key had. One that fails with no such key leaves the
-- map; one that fails in the database leaves the map or has done it all, with only the answer lost.
pub perform-Registers :
    (op : Operation) (s : Server)
    → IsSound s.tables
    → Outcome (Fails op s) (Registers op s) (perform op) s
unfolding perform
perform-Registers (look_up k) s sound =
    answered s sound _ (get k) some (look_up-Registers s sound k)
perform-Registers (add key) s sound =
    answered s sound _ (create key) some (create-Registers s sound key)
perform-Registers (change key) s sound =
    answered s sound _ (update key) some (update-Registers s sound key)
perform-Registers (enable k enabled) s sound =
    answered s sound _ (set_enabled k enabled) (λ u. none) (set_enabled-Registers s sound k enabled)
perform-Registers (remove k) s sound =
    answered s sound _ (delete k) (λ u. none) (delete-Registers s sound k)
