-- ===== src/Store/Sound/Tokens.antt =====
-- A client's new token keeps the hashes distinct: the ids ascend, so that one row at most is changed.
use atomhub.Prelude.{
  ℕ, ◌≤◌, ◌≡◌, refl, ◌∙◌, ap, inl, inr, Bool, true, false, List, [], ◌∷◌, arith, Bool-cases,
  list_eq, list_eq_iff, ◌==◌,
}
use atomhub.Text.{Text}
use atomhub.Types.{DownstreamKey}
use atomhub.Store.Rows.{update_where, exists_where}
use atomhub.Store.Logs.{has_id}
use atomhub.Store.DownstreamKeys.Renewal.{has_hash_elsewhere}
use atomhub.Store.DownstreamKeys.{has_hash}
use atomhub.Store.Sound.{Ascends, IsDistinct, same_hash}

list_eq_sym : (s t : Text) → list_eq s t ≡ false → list_eq t s ≡ false
list_eq_sym s t h = ground (arith, list_eq_iff s t, list_eq_iff t s)

abbrev id_of : DownstreamKey → ℕ
id_of r = r.id

exists_where-tail {ℓ} :
    {A : Type ℓ} (p : A → Bool) (x : A) (rows : List A)
    → exists_where p (x ∷ rows) ≡ false
    → exists_where p rows ≡ false
unfolding exists_where
exists_where-tail p x rows h = elim (Bool-cases (p x)) [
  | inl e ↦ let never : true ≡ false = rw e at h in cc
  | inr e ↦ rw e at h
]

module _ (id : ℕ) (change : DownstreamKey → DownstreamKey) where
  pub update_where_none :
      (rows : List DownstreamKey)
      → exists_where (has_id id) rows ≡ false
      → update_where (has_id id) change rows ≡ rows
  unfolding exists_where update_where
  update_where_none [] h = refl
  update_where_none (x ∷ rows) h = elim (Bool-cases (x.id == id)) [
    | inl e ↦ let never : true ≡ false = rw e at h in cc
    | inr e ↦ rw e (ap (◌∷◌ x) (update_where_none rows (rw e at h)))
  ]

-- the rows above an id do not have it
above-exists_where :
    (id low high : ℕ) (rows : List DownstreamKey)
    → id ≤ low
    → Ascends id_of low rows high
    → exists_where (has_id id) rows ≡ false
unfolding exists_where
above-exists_where id low high [] b h = refl
above-exists_where id low high (x ∷ rows) b h =
    let other : (x.id == id) ≡ false = ground (arith, h.0) in
    rw other (above-exists_where id x.id high rows (omega (arith, b, h.0)) h.1)

-- no row above the id has the hash, where none elsewhere has it
elsewhere-exists_where :
    (id : ℕ) (hash : Text) (rows : List DownstreamKey)
    → exists_where (has_id id) rows ≡ false
    → exists_where (has_hash_elsewhere hash id) rows ≡ false
    → exists_where (λ (r : DownstreamKey). list_eq hash r.token_hash) rows ≡ false
unfolding exists_where
elsewhere-exists_where id hash [] n h = refl
elsewhere-exists_where id hash (x ∷ rows) n h = elim (Bool-cases (x.id == id)) [
  | inl e ↦ let never : true ≡ false = rw e at n in cc
  | inr e ↦ elim (Bool-cases (has_hash hash x)) [
    | inl k ↦ let never : true ≡ false = rw (k, e) at h in cc
    | inr k ↦
        rw (list_eq_sym x.token_hash hash k)
          (elsewhere-exists_where id hash rows (rw e at n) (rw k at h))
  ]
]

module _ (id : ℕ) (hash : Text) (change : DownstreamKey → DownstreamKey)
    (its_hash : (r : DownstreamKey) → (change r).token_hash ≡ hash) where
  changed-exists_where :
      (p : DownstreamKey → Bool) (rows : List DownstreamKey)
      → ((r : DownstreamKey) → p (change r) ≡ false)
      → exists_where p rows ≡ false
      → exists_where p (update_where (has_id id) change rows) ≡ false
  unfolding exists_where update_where
  changed-exists_where p [] n h = refl
  changed-exists_where p (x ∷ rows) n h = elim (Bool-cases (p x)) [
    | inl k ↦ let never : true ≡ false = rw k at h in cc
    | inr k ↦
        let rest = changed-exists_where p rows n (rw k at h) in
        elim (Bool-cases (x.id == id)) [
          | inl e ↦ rw (e, exists_where, n x) rest
          | inr e ↦ rw (e, exists_where, k) rest
        ]
  ]

  pub renewed-IsDistinct :
      (low : ℕ) (rows : List DownstreamKey) (high : ℕ)
      → Ascends id_of low rows high
      → exists_where (has_hash_elsewhere hash id) rows ≡ false
      → IsDistinct same_hash rows
      → IsDistinct same_hash (update_where (has_id id) change rows)
  unfolding update_where exists_where
  renewed-IsDistinct low [] high a h d = tt
  renewed-IsDistinct low (x ∷ rows) high a h d = elim (Bool-cases (x.id == id)) [
    | inl e ↦
        let above = above-exists_where id x.id high rows (ground (arith, e)) a.1 in
        let rest = update_where_none id change rows above in
        let fresh = elsewhere-exists_where id hash rows above (exists_where-tail _ x rows h) in
        rw (e, rest) (rw (its_hash x) fresh, d.1)
    | inr e ↦ elim (Bool-cases (has_hash hash x)) [
      | inl k ↦ let never : true ≡ false = rw (k, e) at h in cc
      | inr k ↦ rw e (
        changed-exists_where (same_hash x) rows (λ r. ap (list_eq x.token_hash) (its_hash r) ∙ k)
            d.0,
        renewed-IsDistinct x.id rows high a.1 (rw k at h) d.1,
      )
    ]
  ]
