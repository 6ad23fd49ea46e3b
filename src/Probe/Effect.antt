-- ===== src/Probe/Effect.antt =====
-- What `ProbeKey` of internal/probe/service.go does to the models, the health of the key and the
-- catalog.
use atomhub.Prelude.{
  ℕ, ◌+◌, ◌≡◌, refl, ◌∙◌, ap, ap₂, Bool, true, false, not, ◌&&◌, ◌||◌, List, [], ◌∷◌, ◌++◌, Option,
  none, some, arith, if◌then◌else◌, elem, any, list_eq_iff, ◌==◌,
}
use atomhub.Prelude.Sort.{sort-perm}
use atomhub.Text.{Text, is_empty}
use atomhub.Text.Order.{text_ltb, sort_texts}
use atomhub.Text.Unique.{
  contains, contains_trimmed, contains-perm, contains-unique_ordered, unique_ordered,
}
use atomhub.Types.{UpstreamKey, KeyModel, Error, unsupported_provider, Result, ok, err}
use atomhub.Server.{Server, Tables}
use atomhub.Server.Outcome.{Outcome, Outcome-seq, Outcome-mono, Leaves, next_reading}
use atomhub.Server.Keeps.{after}
use atomhub.Store.Rows.{delete_where}
use atomhub.Store.Models.{unique_non_empty, is_model, delete_models}
use atomhub.Store.Models.Replacement.{rows_for, with_models, replace_for_key-Leaves}
use atomhub.Store.State.{mark_probe_failure, record_failure}
use atomhub.Store.State.Failure.{
  state_of, Changed, without_states, record_failure-Failed, mark_probe_success-Changed, probed,
}
use atomhub.Store.State.View.{read_row}
use atomhub.Catalog.{keys_for_model, is_enabled}
use atomhub.Catalog.Lookup.{Indexes, rebuild-Indexes}
use atomhub.Probe.{ListModels, Providers, provider_for, apply_answer, probe_with, probe_key}

any-append :
    {A : Type 0} (f : A → Bool) (xs ys : List A) → any f (xs ++ ys) ≡ (any f xs || any f ys)
any-append f [] ys = refl
any-append f (x ∷ xs) ys = ground (arith, any-append f xs ys)

any-rows_for :
    (m : Text) (id k n time : ℕ) (ms : List Text)
    → any (is_model id m) (rows_for n k time ms) ≡ ((k == id) && contains m ms)
unfolding rows_for
any-rows_for m id k n time [] = ground arith
any-rows_for m id k n time (x ∷ ms) =
    ground (arith, any-rows_for m id k (n + 1) time ms, list_eq_iff x m, list_eq_iff m x)

any-deleted :
    (m : Text) (id k : ℕ) (rows : List KeyModel)
    → any (is_model id m) (delete_where (λ (r : KeyModel). r.key_id == k) rows)
      ≡ (if k == id then false else any (is_model id m) rows)
unfolding delete_where
any-deleted m id k [] = ground arith
any-deleted m id k (r ∷ rows) = ground (arith, any-deleted m id k rows)

-- the models that a key supports after the replacement
any-replaced :
    (m : Text) (id k time : ℕ) (ms : List Text) (t : Tables)
    → any (is_model id m) (with_models k time ms (delete_models k t)).key_models
      ≡ (if k == id then contains m ms else any (is_model id m) t.key_models)
unfolding delete_models
any-replaced m id k time ms t =
    any-append (is_model id m) (delete_where (λ (r : KeyModel). r.key_id == k) t.key_models)
      (rows_for t.sequences.key_models k time ms)
    ∙ ground
        (arith, any-deleted m id k t.key_models, any-rows_for m id k t.sequences.key_models time ms)

contains-unique_non_empty :
    (m : Text) (models : List Text)
    → contains m (unique_non_empty models) ≡ (not (is_empty m) && contains_trimmed m models)
unfolding unique_non_empty sort_texts
contains-unique_non_empty m models =
    contains-perm m (sort-perm text_ltb (unique_ordered models)) ∙ contains-unique_ordered models m

-- The catalog and the counters are as they were.
pub record SameCatalog (s t : Server) : Type 0 where
  pub keys_by_model : t.keys_by_model ≡ s.keys_by_model
  pub inflight : t.inflight ≡ s.inflight

-- After a probe of `k` that found `models`: the key supports the models found, trimmed, and no other,
-- every other key supports what its rows say, and `k` is healthy.
pub record Probed (k : ℕ) (models : List Text) (s t : Server) : Type 0 where
  pub supports :
      (m : Text) (id : ℕ)
      → elem id (keys_for_model m t) ≡ (
          is_enabled s.tables.upstream_keys id
          && (if k == id
              then not (is_empty m) && contains_trimmed m models
              else any (is_model id m) s.tables.key_models))
  pub health : (time : ℕ) × (state_of k t ≡ probed time (state_of k s))
  pub inflight : t.inflight ≡ s.inflight

-- What the provider's client answers.
answer_by : UpstreamKey → Option ListModels → Result (List Text)
answer_by key none = err (unsupported_provider key.provider)
answer_by key (some list_models) = list_models key

pub answer_of : Providers → UpstreamKey → Result (List Text)
unfolding answer_by
answer_of p key = answer_by key (provider_for p key.provider)

-- A failing probe.
pub record Unprobed (answer : Result (List Text)) (s : Server) (e : Error) (t : Server)
    : Type 0 where
  pub catalog : SameCatalog s t
  pub models : (x : Error) → answer ≡ err x → (e ≡ x) × (t.tables.key_models ≡ s.tables.key_models)

same_models :
    (s t : Server) → without_states t ≡ without_states s → t.tables.key_models ≡ s.tables.key_models
same_models s t h = ap (λ (r : Server). r.tables.key_models) h

-- The three steps after an answer of a provider, each from the state that the one before it left.
probed_after :
    (k : ℕ) (models : List Text) (time : ℕ) (s t u v : Server)
    → Leaves (with_models k time (unique_non_empty models) (delete_models k s.tables)) s t
    → Changed t k (probed (next_reading t)) u
    → Indexes u v
    → Probed k models s v
unfolding delete_models
probed_after k models time s t u v h c i = record {
  supports = λ m id.
      i.supports m id
      ∙ ap₂ ◌&&◌
          (ap (λ (l : List UpstreamKey). is_enabled l id)
            (ap (λ (r : Server). r.tables.upstream_keys) c.1
              ∙ ap (λ (r : Tables). r.upstream_keys) h.tables))
          (ap (any (is_model id m))
              (same_models t u c.1 ∙ ap (λ (r : Tables). r.key_models) h.tables)
            ∙ any-replaced m id k time (unique_non_empty models) s.tables
            ∙ ap (λ (b : Bool). if k == id then b else any (is_model id m) s.tables.key_models)
                (contains-unique_non_empty m models));
  health = (
    next_reading t,
    ap (λ (r : Tables). read_row k r.key_state) i.tables
        ∙ c.0 k
        ∙ ground arith
        ∙ ap (λ (r : Tables). probed (next_reading t) (read_row k r.key_state)) h.tables,
  );
  inflight = i.inflight ∙ ap (λ (r : Server). r.inflight) c.1 ∙ h.memory.inflight;
}

apply_answer-Probed :
    (k : ℕ) (models : List Text) (s : Server)
    → Outcome (λ e t. SameCatalog s t) (λ u t. Probed k models s t) (apply_answer k (ok models)) s
unfolding apply_answer
apply_answer-Probed k models s =
    Outcome-seq
      (Outcome-mono (replace_for_key-Leaves k models s)
        (λ e t h. record {
          keys_by_model = h.1.memory.keys_by_model;
          inflight = h.1.memory.inflight;
        })
        (λ v t h. h))
      λ u t h.
        Outcome-seq
          (Outcome-mono (mark_probe_success-Changed k t)
            (λ e t' q. record {
              keys_by_model = ap (λ (r : Server). r.keys_by_model) q.rest ∙ h.memory.keys_by_model;
              inflight = ap (λ (r : Server). r.inflight) q.rest ∙ h.memory.inflight;
            })
            (λ v t' c. c))
          λ v t' c.
            Outcome-mono (rebuild-Indexes t')
              (λ e t'' x. record {
                keys_by_model =
                    x.1.memory.keys_by_model
                    ∙ ap (λ (r : Server). r.keys_by_model) c.1
                    ∙ h.memory.keys_by_model;
                inflight =
                    x.1.memory.inflight ∙ ap (λ (r : Server). r.inflight) c.1 ∙ h.memory.inflight;
              })
              (λ w t'' i. probed_after k models (next_reading s) s t t' t'' h c i)

abbrev KeepsAll : Server → Server → Type 0
KeepsAll s t = SameCatalog s t × (t.tables.key_models ≡ s.tables.key_models)

failing-KeepsAll : (k : ℕ) (e : Error) (s : Server) → KeepsAll s (mark_probe_failure k e s).1
unfolding mark_probe_failure
failing-KeepsAll k e s = after (KeepsAll s) (record_failure true k e) s (
    Outcome-mono (record_failure-Failed true k e s) (λ x t q. kept t q.rest)
      (λ v t c. kept t c.1.1))
  where
    kept : (t : Server) → without_states t ≡ without_states s → KeepsAll s t
    kept t h = (
      record {
        keys_by_model = ap (λ (r : Server). r.keys_by_model) h;
        inflight = ap (λ (r : Server). r.inflight) h;
      },
      same_models s t h,
    )

apply_answer-Unprobed :
    (k : ℕ) (answer : Result (List Text)) (s : Server)
    → Outcome
        (λ e t. Unprobed answer s e t)
        (λ u t. (models : List Text) × (answer ≡ ok models) × Probed k models s t)
        (apply_answer k answer)
        s
unfolding apply_answer
apply_answer-Unprobed k (ok models) s =
    Outcome-mono (apply_answer-Probed k models s)
      (λ e t h. record { catalog = h; models = λ x never. cc }) (λ v t h. (models, refl, h))
apply_answer-Unprobed k (err e) s = record {
  holds = record {
    catalog = (failing-KeepsAll k e s).0;
    models = λ x h. (cc, (failing-KeepsAll k e s).1);
  };
}

probe_with-Probed :
    (key : UpstreamKey) (o : Option ListModels) (s : Server)
    → Outcome
        (λ e t. Unprobed (answer_by key o) s e t)
        (λ u t. (models : List Text) × (answer_by key o ≡ ok models) × Probed key.id models s t)
        (probe_with key o)
        s
unfolding probe_with answer_by apply_answer
probe_with-Probed key none s =
    apply_answer-Unprobed key.id (err (unsupported_provider key.provider)) s
probe_with-Probed key (some list_models) s = apply_answer-Unprobed key.id (list_models key) s

-- A probe of a key, whatever the provider answers and whichever database call fails. If it succeeds,
-- the provider answered with models, and the catalog lists the key, if it is enabled, for exactly
-- those of them that are not blank, trimmed, and every other enabled key for its own rows; the key is
-- healthy. If it fails, the catalog and the counters are as they were; if the provider did, so are the
-- rows of the models, and the error is the provider's.
pub probe_key-Probed :
    (p : Providers) (key : UpstreamKey) (s : Server)
    → Outcome
        (λ e t. Unprobed (answer_of p key) s e t)
        (λ u t. (models : List Text) × (answer_of p key ≡ ok models) × Probed key.id models s t)
        (probe_key p key)
        s
unfolding probe_key answer_of
probe_key-Probed p key s = probe_with-Probed key (provider_for p key.provider) s
