-- ===== src/Store/Keys/Refinement/Writes.antt =====
-- `Create`, `Update` and `SetEnabled` of internal/store/keys.go on the map of the keys.
use mathlib.Core.Option
use mathlib.Core.Path.{fun_ext}
use atomhub.Prelude.{
  ℕ, ◌+◌, ◌≡◌, refl, ◌∙◌, sym, ap, inl, inr, Bool, [], ◌∷◌, ◌++◌, Option, none, some, arith, ◌==◌,
  Bool-cases,
}
use atomhub.Types.{UpstreamKey, Error}
use atomhub.Server.{Server, driver_call}
use atomhub.Server.Outcome.{
  Outcome, Outcome-bind, Outcome-seq, Outcome-mono, Outcome-exec, Outcome-now, Outcome-fail,
  Outcome-driver_call, next_reading,
}
use atomhub.Store.Sound.{IsSound}
use atomhub.Store.Keys.{create, insert_key, written, update_row, update, set_enabled}
use atomhub.Store.Keys.Registry.{
  Registry, Operation, add, change, enable, put, new_key, switched, on_key, registered, registry_of,
  view,
}
use atomhub.Store.Keys.Lookup.{find_above, find_below, find-append}
use atomhub.Store.Keys.Registers.{
  Registers, Fails, unchanged, refused, unanswered, Changed, Hindered, before_it, missing, after_it,
  require_rows-Changed, get-Registers,
}

module _ (s : Server) (sound : IsSound s.tables) where
  pub next_id : ℕ
  next_id = s.tables.sequences.upstream_keys + 1

  pub next_id_new : view s next_id ≡ none
  unfolding next_id
  next_id_new =
      find_above (λ (r : UpstreamKey). r.id) 0 s.tables.upstream_keys
        s.tables.sequences.upstream_keys next_id sound.keys (omega arith)

  inserted :
      (key : UpstreamKey) (time : ℕ)
      → registry_of (s.tables.upstream_keys ++ new_key next_id time key ∷ [])
        ≡ put next_id (some (new_key next_id time key)) (view s)
  inserted key time = fun_ext (λ j.
      find-append (λ (r : UpstreamKey). r.id) s.tables.upstream_keys (new_key next_id time key) j
        next_id_new)

  inserted_there :
      (key : UpstreamKey) (time : ℕ)
      → registry_of (s.tables.upstream_keys ++ new_key next_id time key ∷ []) next_id
        ≡ some (new_key next_id time key)
  inserted_there key time = ap (λ (v : Registry). v next_id) (inserted key time) ∙ (ground arith)

  pub create-Registers :
      (key : UpstreamKey)
      → Outcome (Fails (add key) s) (λ made t. Registers (add key) s (some made) t) (create key) s
  unfolding create insert_key registered next_id
  create-Registers key = Outcome-bind (
      Outcome-now (λ rs.
        let time = next_reading s in
        let row = new_key next_id time key in
        let done : (t : Server)
            → t.tables.upstream_keys ≡ s.tables.upstream_keys ++ row ∷ []
            → Registers (add key) s (some row) t =
          λ t h. record {
            time = time;
            id = next_id;
            new = next_id_new;
            does =
                ap (λ (v : Registry). some (some row, v))
                  (sym (inserted key time) ∙ ap registry_of (sym h));
          } in
        Outcome-bind (
          Outcome-exec _ _ _ refl (λ fs. unchanged refl)
            (λ fs. Outcome-bind {m = driver_call} (
              Outcome-driver_call (λ gs. unanswered (done _ refl))
                (λ gs.
                  get-Registers (add key) next_id row s _ (done _ refl)
                    (inserted_there key time)))))))

  Changed-Registers :
      (op : Operation) (k : ℕ) (f : UpstreamKey → UpstreamKey) (time : ℕ)
      (answer : UpstreamKey → Option UpstreamKey) (t : Server) (c : Changed k f s t)
      → registered op time next_id (view s) ≡ on_key k (λ row. (answer row, some (f row))) (view s)
      → Registers op s (answer c.before) t
  unfolding on_key
  Changed-Registers op k f time answer t c h = record {
    time = time;
    id = next_id;
    new = next_id_new;
    does =
        h
        ∙ ap (Option.map (λ (row : UpstreamKey). (answer row, put k (some (f row)) (view s))))
            c.found
        ∙ ap (λ (v : Registry). some (answer c.before, v)) (sym c.after);
  }

  Hindered-Fails :
      (op : Operation) (k : ℕ) (f : UpstreamKey → UpstreamKey) (time : ℕ)
      (answer : UpstreamKey → Option UpstreamKey)
      → ((time id : ℕ) → view s k ≡ none → registered op time id (view s) ≡ none)
      → registered op time next_id (view s) ≡ on_key k (λ row. (answer row, some (f row))) (view s)
      → (e : Error) (t : Server) → Hindered k f s e t
      → Fails op s e t
  Hindered-Fails op k f time answer n h e t (before_it same) = unchanged same
  Hindered-Fails op k f time answer n h e t (missing same absent) =
      refused same (λ time id. n time id absent)
  Hindered-Fails op k f time answer n h e t (after_it c) =
      unanswered (Changed-Registers op k f time answer t c h)

  pub set_enabled-Registers :
      (k : ℕ) (enabled : Bool)
      → Outcome
          (Fails (enable k enabled) s)
          (λ u t. Registers (enable k enabled) s none t)
          (set_enabled k enabled)
          s
  unfolding set_enabled registered on_key
  set_enabled-Registers k enabled =
      let op = enable k enabled in
      let none_there : (time id : ℕ) → view s k ≡ none → registered op time id (view s) ≡ none =
        λ time id h. ap (Option.map _) h in
      Outcome-bind (
        Outcome-now (λ rs.
          let f = switched enabled (next_reading s) in
          Outcome-bind (
            Outcome-exec _ _ _ refl (λ fs. unchanged refl)
              (λ fs.
                Outcome-mono (require_rows-Changed k f (λ r. refl) s _ _ refl refl)
                  (Hindered-Fails op k f (next_reading s) (λ row. none) none_there refl)
                  (λ u t c. Changed-Registers op k f (next_reading s) (λ row. none) t c refl)))))

  update_row-Registers :
      (key : UpstreamKey)
      → Outcome
          (Fails (change key) s)
          (λ made t. Registers (change key) s (some made) t)
          (update_row key)
          s
  unfolding update_row registered on_key
  update_row-Registers key =
      let op = change key in
      let none_there : (time id : ℕ)
          → view s key.id ≡ none
          → registered op time id (view s) ≡ none =
        λ time id h. ap (Option.map _) h in
      Outcome-bind (
        Outcome-now (λ rs.
          let time = next_reading s in
          let f = written key time in
          let answer : UpstreamKey → Option UpstreamKey = λ row. some (f row) in
          Outcome-bind (
            Outcome-exec _ _ _ refl (λ fs. unchanged refl)
              (λ fs.
                Outcome-seq
                  (Outcome-mono
                    (require_rows-Changed key.id f (λ r. unfold written in refl) s _ _ refl refl)
                    (Hindered-Fails op key.id f time answer none_there refl) (λ u t c. c))
                  (λ u t c.
                    get-Registers op key.id (f c.before) s t
                      (Changed-Registers op key.id f time answer t c refl)
                      (ap (λ (v : Registry). v key.id) c.after ∙ (ground arith)))))))

  pub update-Registers :
      (key : UpstreamKey)
      → Outcome
          (Fails (change key) s)
          (λ made t. Registers (change key) s (some made) t)
          (update key)
          s
  unfolding update registered on_key
  update-Registers key = elim (Bool-cases (key.id == 0)) [
    | inl e ↦
        let absent : view s key.id ≡ none =
          find_below (λ (r : UpstreamKey). r.id) 0 s.tables.upstream_keys _ key.id sound.keys
            (ground (arith, e)) in
        rw e (Outcome-fail (refused refl (λ time id. ap (Option.map _) absent)))
    | inr e ↦ rw e (update_row-Registers key)
  ]
