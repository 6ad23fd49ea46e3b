-- ===== src/Catalog/Lookup.antt =====
-- `Rebuild` and `KeysForModel` of internal/catalog/catalog.go.
use mathlib.Core.List.{Permᴰ}
use mathlib.Core.List.Permᴰ as Perms
use atomhub.Prelude.{
  ℕ, ◌<◌, ◌≡◌, refl, ◌∙◌, ap, ap₂, inl, inr, Bool, true, false, ◌&&◌, ◌||◌, List, [], ◌∷◌, ◌++◌,
  map, arith, ltb, ◌==◌, ==_iff, list_eq, list_eq_iff, elem, any, All, Bool-cases,
}
use atomhub.Prelude.Sort.{sort, sort-perm, IsSorted, sort-IsSorted}
use atomhub.Text.{Text}
use atomhub.Types.{UpstreamKey, KeyModel, database}
use atomhub.Server.{Server}
use atomhub.Server.Outcome.{Untouched-with_faults, Outcome, Outcome-bind, Outcome-query, Untouched}
use atomhub.Store.Keys
use atomhub.Store.Models
use atomhub.Store.Models.{is_model}
use atomhub.Catalog.{
  Index, ids_for, append_id, add_entry, is_enabled, collect, sort_ids, index_of, rebuild,
  keys_for_model,
}

any-perm {ℓ} : {A : Type ℓ} (p : A → Bool) {xs ys : List A} → Permᴰ xs ys → any p xs ≡ any p ys
any-perm p Permᴰ.nil = refl
any-perm p (Permᴰ.cons {a = a} {b = b} {l₁ = l} {l₂ = m} e q) = rw e (rw (any-perm p q) refl)
any-perm p (Permᴰ.swap {a = a} {b = b} {a' = a'} {b' = b'} {l = l} e f) = rw (e, f) (ground arith)
any-perm p (Permᴰ.trans q r) = any-perm p q ∙ any-perm p r

elem-perm : (a : ℕ) {xs ys : List ℕ} → Permᴰ xs ys → elem a xs ≡ elem a ys
elem-perm a Permᴰ.nil = refl
elem-perm a (Permᴰ.cons {a = x} {b = y} {l₁ = l} {l₂ = m} e q) = ground (arith, elem-perm a q)
elem-perm a (Permᴰ.swap {a = x} {b = y} {a' = x'} {b' = y'} {l = l} e f) = ground arith
elem-perm a (Permᴰ.trans q r) = elem-perm a q ∙ elem-perm a r

elem-append : (a b : ℕ) (xs : List ℕ) → elem a (xs ++ b ∷ []) ≡ (elem a xs || (b == a))
elem-append a b [] = ground arith
elem-append a b (x ∷ xs) = ground (arith, elem-append a b xs)

elem-append_id : (a b : ℕ) (ids : List ℕ) → elem a (append_id ids b) ≡ (elem a ids || (b == a))
unfolding append_id
elem-append_id a b ids = ground (arith, elem-append a b ids)

-- One entry more in the index.
elem-add_entry :
    (m model : Text) (a b : ℕ) (next : Index)
    → elem a (ids_for m (add_entry model b next))
      ≡ (elem a (ids_for m next) || (list_eq model m && (b == a)))
unfolding add_entry
elem-add_entry m model a b [] = ground (arith, elem-append_id a b [])
elem-add_entry m model a b ((n, ids) ∷ rest) = ground (
  arith,
  elem-append_id a b ids,
  elem-add_entry m model a b rest,
  list_eq_iff n model,
  list_eq_iff n m,
  list_eq_iff model m,
)

elem-collect :
    (m : Text) (a : ℕ) (keys : List UpstreamKey) (next : Index) (entries : List KeyModel)
    → elem a (ids_for m (collect keys next entries))
      ≡ (elem a (ids_for m next) || (is_enabled keys a && any (is_model a m) entries))
unfolding collect
elem-collect m a keys next [] = ground arith
elem-collect m a keys next (e ∷ es) = elim (Bool-cases (is_enabled keys e.key_id)) [
  | inl on ↦ rw on (
      ground (
        arith,
        elem-collect m a keys (add_entry e.model e.key_id next) es,
        elem-add_entry m e.model a e.key_id next,
        ==_iff e.key_id a,
        here e on,
      ))
  | inr off ↦ rw off (ground (arith, elem-collect m a keys next es, ==_iff e.key_id a, there e off))
]
  where
    here :
        (e : KeyModel)
        → is_enabled keys e.key_id ≡ true
        → (e.key_id == a) ≡ true
        → is_enabled keys a ≡ true
    here e on same = rw (← (==_iff e.key_id a).0 same) on

    there :
        (e : KeyModel)
        → is_enabled keys e.key_id ≡ false
        → (e.key_id == a) ≡ true
        → is_enabled keys a ≡ false
    there e off same = rw (← (==_iff e.key_id a).0 same) off

ids_for-sort_ids :
    (m : Text) (index : Index) → ids_for m (map sort_ids index) ≡ sort ltb (ids_for m index)
unfolding sort_ids sort
ids_for-sort_ids m [] = refl
ids_for-sort_ids m ((n, ids) ∷ rest) = elim (Bool-cases (list_eq n m)) [
  | inl e ↦ rw e refl
  | inr e ↦ rw e (ids_for-sort_ids m rest)
]

elem-index_of :
    (m : Text) (a : ℕ) (keys : List UpstreamKey) (models : List KeyModel)
    → elem a (ids_for m (index_of keys models)) ≡ (is_enabled keys a && any (is_model a m) models)
unfolding index_of
elem-index_of m a keys models =
    ap (elem a) (ids_for-sort_ids m (collect keys [] models))
    ∙ elem-perm a (sort-perm ltb (ids_for m (collect keys [] models)))
    ∙ elem-collect m a keys [] models

-- Each id once.
abbrev IsUniqueIds : List ℕ → Type 0
IsUniqueIds [] = Unit {0}
IsUniqueIds (x ∷ xs) = (elem x xs ≡ false) × IsUniqueIds xs

-- Each id is below the next.
abbrev pub IsAscending : List ℕ → Type 0
IsAscending [] = Unit {0}
IsAscending (x ∷ xs) = All (λ y. x < y) xs × IsAscending xs

append_id-IsUniqueIds : (ids : List ℕ) (b : ℕ) → IsUniqueIds ids → IsUniqueIds (append_id ids b)
unfolding append_id
append_id-IsUniqueIds ids b u = elim (Bool-cases (elem b ids)) [
  | inl e ↦ rw e u
  | inr e ↦ rw e (at_end ids u e)
]
  where
    at_end : (xs : List ℕ) → IsUniqueIds xs → elem b xs ≡ false → IsUniqueIds (xs ++ b ∷ [])
    at_end [] v n = (refl, tt)
    at_end (x ∷ xs) v n = (ground (arith, elem-append x b xs), at_end xs v.1 (ground arith))

abbrev AllUnique : Index → Type 0
AllUnique = All (λ entry. IsUniqueIds entry.1)

add_entry-AllUnique :
    (model : Text) (b : ℕ) (next : Index) → AllUnique next → AllUnique (add_entry model b next)
unfolding add_entry
add_entry-AllUnique model b [] u = (append_id-IsUniqueIds [] b tt, tt)
add_entry-AllUnique model b ((n, ids) ∷ rest) u = elim (Bool-cases (list_eq n model)) [
  | inl e ↦ rw e (append_id-IsUniqueIds ids b u.0, u.1)
  | inr e ↦ rw e (u.0, add_entry-AllUnique model b rest u.1)
]

collect-AllUnique :
    (keys : List UpstreamKey) (next : Index) (entries : List KeyModel)
    → AllUnique next
    → AllUnique (collect keys next entries)
unfolding collect
collect-AllUnique keys next [] u = u
collect-AllUnique keys next (e ∷ es) u = elim (Bool-cases (is_enabled keys e.key_id)) [
  | inl on ↦ rw on (
      collect-AllUnique keys (add_entry e.model e.key_id next) es
        (add_entry-AllUnique e.model e.key_id next u))
  | inr off ↦ rw off (collect-AllUnique keys next es u)
]

AllUnique-ids_for : (m : Text) (index : Index) → AllUnique index → IsUniqueIds (ids_for m index)
AllUnique-ids_for m [] u = tt
AllUnique-ids_for m ((n, ids) ∷ rest) u = elim (Bool-cases (list_eq n m)) [
  | inl e ↦ rw e u.0
  | inr e ↦ rw e (AllUnique-ids_for m rest u.1)
]

IsUniqueIds-perm : {xs ys : List ℕ} → Permᴰ xs ys → IsUniqueIds xs → IsUniqueIds ys
IsUniqueIds-perm Permᴰ.nil u = tt
IsUniqueIds-perm (Permᴰ.cons {a = a} {b = b} {l₁ = l} {l₂ = m} e p) u =
    (ground (arith, elem-perm a p), IsUniqueIds-perm p u.1)
IsUniqueIds-perm (Permᴰ.swap {a = a} {b = b} {a' = a'} {b' = b'} {l = l} e f) u =
    (ground arith, (ground arith, u.1.1))
IsUniqueIds-perm (Permᴰ.trans p q) u = IsUniqueIds-perm q (IsUniqueIds-perm p u)

All-above :
    (x : ℕ) (ys : List ℕ) → All (λ y. ltb y x ≡ false) ys → elem x ys ≡ false → All (λ y. x < y) ys
All-above x [] h n = tt
All-above x (y ∷ ys) h n = (ground (arith, h.0), All-above x ys h.1 (ground arith))

sorted-IsAscending : (xs : List ℕ) → IsSorted ltb xs → IsUniqueIds xs → IsAscending xs
sorted-IsAscending [] s u = tt
sorted-IsAscending (x ∷ xs) s u = (All-above x xs s.0 u.0, sorted-IsAscending xs s.1 u.1)

ltb_asym : (x y : ℕ) → ltb x y ≡ true → ltb y x ≡ false
ltb_asym x y h = ground arith

ltb_weak : (x y z : ℕ) → ltb y x ≡ false → ltb z y ≡ false → ltb z x ≡ false
ltb_weak x y z h k = ground arith

ids_for-IsAscending :
    (m : Text) (keys : List UpstreamKey) (models : List KeyModel)
    → IsAscending (ids_for m (index_of keys models))
unfolding index_of
ids_for-IsAscending m keys models = rw ids_for-sort_ids (
    sorted-IsAscending _ (sort-IsSorted ltb ltb_asym ltb_weak (ids_for m (collect keys [] models)))
      (IsUniqueIds-perm (Perms.symm (sort-perm ltb (ids_for m (collect keys [] models))))
        (AllUnique-ids_for m _ (collect-AllUnique keys [] models tt))))

-- The catalog answers for a model: the ids of the enabled keys that have a row for it.
pub record Indexes (s t : Server) : Type 0 where
  pub supports :
      (m : Text) (id : ℕ)
      → elem id (keys_for_model m t)
        ≡ (is_enabled s.tables.upstream_keys id && any (is_model id m) s.tables.key_models)
  pub ascending : (m : Text) → IsAscending (keys_for_model m t)
  pub tables : t.tables ≡ s.tables
  pub inflight : t.inflight ≡ s.inflight

-- After a rebuild the catalog lists for a model exactly the ids of the enabled keys with a row for
-- it, ascending and each once. If a query fails, the catalog is as it was. The tables and the
-- counters are never changed.
pub rebuild-Indexes :
    (s : Server) → Outcome (λ e t. (e ≡ database) × Untouched s t) (λ u t. Indexes s t) rebuild s
unfolding rebuild Keys.list Models.list_all keys_for_model
rebuild-Indexes s = Outcome-bind (
    Outcome-query _ (λ fs. (refl, Untouched-with_faults))
      λ fs. Outcome-bind (
        Outcome-query _ (λ gs. (refl, Untouched-with_faults))
          λ gs. record {
            holds = record {
              supports = λ m id.
                  elem-index_of m id (sort Keys.lower_id s.tables.upstream_keys)
                    (sort Models.by_model_and_key s.tables.key_models)
                  ∙ ap₂ ◌&&◌
                      (any-perm (λ (key : UpstreamKey). key.enabled && (key.id == id))
                        (sort-perm Keys.lower_id s.tables.upstream_keys))
                      (any-perm (is_model id m)
                        (sort-perm Models.by_model_and_key s.tables.key_models));
              ascending = λ m.
                  ids_for-IsAscending m (sort Keys.lower_id s.tables.upstream_keys)
                    (sort Models.by_model_and_key s.tables.key_models);
              tables = refl;
              inflight = refl;
            };
          }))
