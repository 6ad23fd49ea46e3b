-- ===== src/Store/Sound/Rules.antt =====
-- How statements on one table keep the order of a column and the distinctness of the rows.
use atomhub.Prelude.{
  ℕ, ◌+◌, ◌≤◌, ◌≡◌, refl, inl, inr, Bool, true, false, List, [], ◌∷◌, ◌++◌, arith, Bool-cases,
}
use atomhub.Store.Rows.{update_where, delete_where, exists_where}
use atomhub.Store.Sound.{Ascends, IsDistinct}

module _ {ℓ} {A : Type ℓ} where
  pub Ascends-append :
      (column : A → ℕ) (low : ℕ) (rows : List A) (high : ℕ) (r : A)
      → Ascends column low rows high
      → column r ≡ high + 1
      → Ascends column low (rows ++ r ∷ []) (high + 1)
  Ascends-append column low [] high r h e = (omega (arith, h, e), omega (arith, e))
  Ascends-append column low (x ∷ rows) high r h e =
      (h.0, Ascends-append column (column x) rows high r h.1 e)

  pub Ascends-update_where :
      (column : A → ℕ) (test : A → Bool) (change : A → A) (low : ℕ) (rows : List A) (high : ℕ)
      → ((r : A) → column (change r) ≡ column r)
      → Ascends column low rows high
      → Ascends column low (update_where test change rows) high
  unfolding update_where
  Ascends-update_where column test change low [] high keep h = h
  Ascends-update_where column test change low (x ∷ rows) high keep h =
      let rest = Ascends-update_where column test change (column x) rows high keep h.1 in
      elim (Bool-cases (test x)) [ inl e ↦ rw (e, keep x) (h.0, rest) | inr e ↦ rw e (h.0, rest) ]

  Ascends-lower :
      (column : A → ℕ) (low high : ℕ) (rows : List A) (bottom : ℕ)
      → bottom ≤ low
      → Ascends column low rows high
      → Ascends column bottom rows high
  Ascends-lower column low high [] bottom b h = omega (arith, b, h)
  Ascends-lower column low high (x ∷ rows) bottom b h = (omega (arith, b, h.0), h.1)

  pub Ascends-delete_where :
      (column : A → ℕ) (test : A → Bool) (low : ℕ) (rows : List A) (high : ℕ)
      → Ascends column low rows high
      → Ascends column low (delete_where test rows) high
  unfolding delete_where
  Ascends-delete_where column test low [] high h = h
  Ascends-delete_where column test low (x ∷ rows) high h =
      let rest = Ascends-delete_where column test (column x) rows high h.1 in
      elim (Bool-cases (test x)) [
        | inl e ↦ rw e (Ascends-lower column (column x) high _ low (omega (arith, h.0)) rest)
        | inr e ↦ rw e (h.0, rest)
      ]

  exists_where-append :
      (p : A → Bool) (rows : List A) (r : A)
      → exists_where p rows ≡ false
      → p r ≡ false
      → exists_where p (rows ++ r ∷ []) ≡ false
  unfolding exists_where
  exists_where-append p [] r h e = rw e refl
  exists_where-append p (x ∷ rows) r h e = elim (Bool-cases (p x)) [
    | inl k ↦ let never : true ≡ false = rw k at h in cc
    | inr k ↦ rw k (exists_where-append p rows r (rw k at h) e)
  ]

  -- a new row that is the same as none
  pub IsDistinct-append :
      (same : A → A → Bool) (rows : List A) (r : A)
      → exists_where (λ x. same x r) rows ≡ false
      → IsDistinct same rows
      → IsDistinct same (rows ++ r ∷ [])
  unfolding exists_where
  IsDistinct-append same [] r new h = (refl, tt)
  IsDistinct-append same (x ∷ rows) r new h = elim (Bool-cases (same x r)) [
    | inl k ↦ let never : true ≡ false = rw k at new in cc
    | inr k ↦
        (exists_where-append (same x) rows r h.0 k, IsDistinct-append same rows r (rw k at new) h.1)
  ]

  exists_where-delete_where :
      (p test : A → Bool) (rows : List A)
      → exists_where p rows ≡ false
      → exists_where p (delete_where test rows) ≡ false
  unfolding exists_where delete_where
  exists_where-delete_where p test [] h = refl
  exists_where-delete_where p test (x ∷ rows) h = elim (Bool-cases (p x)) [
    | inl k ↦ let never : true ≡ false = rw k at h in cc
    | inr k ↦
        let rest = exists_where-delete_where p test rows (rw k at h) in
        elim (Bool-cases (test x)) [ inl e ↦ rw e rest | inr e ↦ rw (e, exists_where, k) rest ]
  ]

  pub IsDistinct-delete_where :
      (same : A → A → Bool) (test : A → Bool) (rows : List A)
      → IsDistinct same rows
      → IsDistinct same (delete_where test rows)
  unfolding delete_where
  IsDistinct-delete_where same test [] h = tt
  IsDistinct-delete_where same test (x ∷ rows) h =
      let rest = IsDistinct-delete_where same test rows h.1 in
      elim (Bool-cases (test x)) [
        | inl e ↦ rw e rest
        | inr e ↦ rw e (exists_where-delete_where (same x) test rows h.0, rest)
      ]

  exists_where-update_where :
      (p test : A → Bool) (change : A → A) (rows : List A)
      → ((r : A) → p (change r) ≡ p r)
      → exists_where p rows ≡ false
      → exists_where p (update_where test change rows) ≡ false
  unfolding exists_where update_where
  exists_where-update_where p test change [] keep h = refl
  exists_where-update_where p test change (x ∷ rows) keep h = elim (Bool-cases (p x)) [
    | inl k ↦ let never : true ≡ false = rw k at h in cc
    | inr k ↦
        let rest = exists_where-update_where p test change rows keep (rw k at h) in
        elim (Bool-cases (test x)) [
          | inl e ↦ rw (e, exists_where, keep x, k) rest
          | inr e ↦ rw (e, exists_where, k) rest
        ]
  ]

  exists_where-ext :
      (p q : A → Bool) (rows : List A)
      → ((r : A) → q r ≡ p r)
      → exists_where p rows ≡ false
      → exists_where q rows ≡ false
  unfolding exists_where
  exists_where-ext p q [] same h = refl
  exists_where-ext p q (x ∷ rows) same h = elim (Bool-cases (p x)) [
    | inl k ↦ let never : true ≡ false = rw k at h in cc
    | inr k ↦ rw (same x, k) (exists_where-ext p q rows same (rw k at h))
  ]

  -- a change of columns that the test of sameness does not read
  pub IsDistinct-update_where :
      (same : A → A → Bool) (test : A → Bool) (change : A → A) (rows : List A)
      → ((r x : A) → same r (change x) ≡ same r x)
      → ((r x : A) → same (change r) x ≡ same r x)
      → IsDistinct same rows
      → IsDistinct same (update_where test change rows)
  unfolding update_where
  IsDistinct-update_where same test change [] right left h = tt
  IsDistinct-update_where same test change (x ∷ rows) right left h =
      let rest = IsDistinct-update_where same test change rows right left h.1 in
      let other = exists_where-update_where (same x) test change rows (right x) h.0 in
      elim (Bool-cases (test x)) [
        | inl e ↦ rw e (
          exists_where-ext (same x) (same (change x)) (update_where test change rows) (left x)
              other,
          rest,
        )
        | inr e ↦ rw e (other, rest)
      ]
