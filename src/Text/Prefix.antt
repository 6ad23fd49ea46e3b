-- ===== src/Text/Prefix.antt =====
-- What `strip_prefix` finds.
use atomhub.Prelude.{
  ◌≡◌, ◌≢◌, refl, inl, inr, [], ◌∷◌, ◌++◌, none, some, arith, ◌==◌, ==_iff, Bool-cases,
}
use atomhub.Text.{Text, strip_prefix}

pub strip_prefix-some : (p s rest : Text) → strip_prefix p s ≡ some rest → s ≡ p ++ rest
unfolding strip_prefix
strip_prefix-some [] s rest h = cc
strip_prefix-some (c ∷ p) [] rest h = cc
strip_prefix-some (c ∷ p) (d ∷ s) rest h = elim (Bool-cases (c == d)) [
  | inl e ↦ let same = (==_iff c d).0 e in let later = strip_prefix-some p s rest (rw e at h) in cc
  | inr e ↦ let never : none ≡ some rest = rw e at h in cc
]

pub strip_prefix-append : (p rest : Text) → strip_prefix p (p ++ rest) ≡ some rest
unfolding strip_prefix
strip_prefix-append [] rest = refl
strip_prefix-append (c ∷ p) rest = ground (arith, strip_prefix-append p rest)

pub strip_prefix-none : (p s rest : Text) → strip_prefix p s ≡ none → s ≢ p ++ rest
strip_prefix-none p s rest h e = let found = strip_prefix-append p rest in cc
