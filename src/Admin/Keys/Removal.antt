-- ===== src/Admin/Keys/Removal.antt =====
-- `handleDeleteKey` of internal/app/handlers_admin.go.
use atomhub.Prelude.{
  ℕ, ◌≡◌, refl, ◌∙◌, ap, ◌⊎◌, inl, inr, false, List, [], ◌∷◌, arith, ◌==◌, elem, filter, Bool-cases,
}
use atomhub.Text.{Text}
use atomhub.Types.{UpstreamKey, Error, database, Result, ok, err}
use atomhub.Server.{Server, Tables}
use atomhub.Server.Outcome.{Holds, Untouched}
use atomhub.Store.Keys
use atomhub.Store.Keys.Deletion.{
  keys_of, models_of, states_of, logs_of, Gone, Refused, IsStored, delete-Gone,
}
use atomhub.Catalog.{rebuild, keys_for_model, is_enabled}
use atomhub.Catalog.Lookup.{Indexes, rebuild-Indexes}
use atomhub.Admin.Keys.{Reply, refused, no_content, attempt, not_found_or_server_error, delete_id}

-- After the deletion the catalog has the key for no model; where the rebuild that follows the deletion
-- fails, on the state that the deletion left, it is the one of before.
abbrev pub IsForgotten : ℕ → Server → Server → Type 0
IsForgotten k s t =
    (((rebuild (Keys.delete k s).1).0 ≡ err database) × (t.keys_by_model ≡ s.keys_by_model))
    ⊎ ((m : Text) → elem k (keys_for_model m t) ≡ false)

-- The key has no row left in any table.
pub record Removed (k : ℕ) (s t : Server) : Type 0 where
  pub keys : keys_of k t ≡ []
  pub models : models_of k t ≡ []
  pub states : states_of k t ≡ []
  pub logs : logs_of k t ≡ []
  pub catalog : IsForgotten k s t

no_row-is_enabled :
    (k : ℕ) (keys : List UpstreamKey)
    → filter (λ (r : UpstreamKey). r.id == k) keys ≡ []
    → is_enabled keys k ≡ false
no_row-is_enabled k [] h = refl
no_row-is_enabled k (key ∷ keys) h = elim (Bool-cases (key.id == k)) [
  | inl e ↦ let never : key ∷ filter (λ (r : UpstreamKey). r.id == k) keys ≡ [] = rw e at h in cc
  | inr e ↦ ground (arith, e, no_row-is_enabled k keys (rw e at h))
]

-- what the rebuild leaves, as far as the key goes
rebuilt :
    (k : ℕ) (s t : Server) (r : Result (Unit {0}) × Server)
    → (Keys.delete k s).1 ≡ t
    → rebuild t ≡ r
    → Gone k s t
    → Holds (λ e v. (e ≡ database) × Untouched t v) (λ u v. Indexes t v) r
    → Removed k s r.1
rebuilt k s t (err e, v) it run g (h, q) = record {
  keys =
      ap (λ (x : Tables). filter (λ (r : UpstreamKey). r.id == k) x.upstream_keys) q.tables
      ∙ g.keys k
      ∙ ground arith;
  models =
      ap (λ (x : Tables). filter (λ r. r.key_id == k) x.key_models) q.tables
      ∙ g.models k
      ∙ ground arith;
  states =
      ap (λ (x : Tables). filter (λ r. r.key_id == k) x.key_state) q.tables
      ∙ g.states k
      ∙ ground arith;
  logs =
      ap (λ (x : Tables). filter (λ r. r.key_id == k) x.request_logs) q.tables
      ∙ g.logs k
      ∙ ground arith;
  catalog = inl (
    ap (λ (x : Server). (rebuild x).0) it
        ∙ ap (λ (x : Result (Unit {0}) × Server). x.0) run
        ∙ ap (λ (x : Error). err x) h,
    q.memory.keys_by_model ∙ g.memory.keys_by_model,
  );
}
rebuilt k s t (ok u, v) it run g i = record {
  keys =
      ap (λ (x : Tables). filter (λ (r : UpstreamKey). r.id == k) x.upstream_keys) i.tables
      ∙ g.keys k
      ∙ ground arith;
  models =
      ap (λ (x : Tables). filter (λ r. r.key_id == k) x.key_models) i.tables
      ∙ g.models k
      ∙ ground arith;
  states =
      ap (λ (x : Tables). filter (λ r. r.key_id == k) x.key_state) i.tables
      ∙ g.states k
      ∙ ground arith;
  logs =
      ap (λ (x : Tables). filter (λ r. r.key_id == k) x.request_logs) i.tables
      ∙ g.logs k
      ∙ ground arith;
  catalog = inr (λ m.
      let gone = no_row-is_enabled k t.tables.upstream_keys (g.keys k ∙ ground arith) in
      i.supports m k ∙ rw gone refl);
}

-- Either the answer, or the refusal of a deletion.
abbrev pub Deleted : ℕ → Server → Reply × Server → Type 0
Deleted k s r =
    ((r.0 ≡ no_content) × Removed k s r.1)
    ⊎ ((status : ℕ) × (text : Text) × (r.0 ≡ refused status text) × Untouched s r.1)

answered :
    (k : ℕ) (s : Server) (r : Result (Unit {0}) × Server)
    → Keys.delete k s ≡ r
    → Holds (λ e t. Untouched s t × Refused k s e) (λ u t. IsStored k s × Gone k s t) r
    → Deleted k s (attempt not_found_or_server_error (λ u t. (no_content, (rebuild t).1)) r)
unfolding attempt
answered k s (err e, t) run (q, why) = inr (_, _, refl, q)
answered k s (ok u, t) run (stored, g) = inl (
  refl,
  rebuilt k s t (rebuild t) (ap (λ (x : Result (Unit {0}) × Server). x.1) run) refl g
      (rebuild-Indexes t).holds,
)

-- A deletion that answers 204 leaves no row of the key in any table, and a catalog that has the key
-- for no model; only where the rebuild failed is the catalog the one of before. A deletion that
-- answers anything else leaves every table, the counters and the catalog as they were.
pub delete_id-Deleted : (k : ℕ) (s : Server) → Deleted k s (delete_id k s)
unfolding delete_id
delete_id-Deleted k s = answered k s (Keys.delete k s) refl (delete-Gone k s).holds
