-- ===== src/Text/Order.antt =====
-- The order of package sort's `Strings`: by bytes, which in UTF-8 is by code points.
use atomhub.Prelude.{◌≡◌, refl, Bool, true, false, ◌&&◌, ◌||◌, List, [], ◌∷◌, arith, ltb, ◌==◌}
use atomhub.Prelude.Sort.{sort, IsSorted, sort-IsSorted}
use atomhub.Text.{Text}

unfoldable pub text_ltb : Text → Text → Bool
text_ltb s [] = false
text_ltb [] (d ∷ t) = true
text_ltb (c ∷ s) (d ∷ t) = let rest = text_ltb s t in ltb c d || ((c == d) && rest)

pub text_ltb_asym : (s t : Text) → text_ltb s t ≡ true → text_ltb t s ≡ false
unfolding text_ltb
text_ltb_asym [] [] h = refl
text_ltb_asym (c ∷ s) [] h = cc
text_ltb_asym [] (d ∷ t) h = refl
text_ltb_asym (c ∷ s) (d ∷ t) h = ground (arith, text_ltb_asym s t)

pub text_ltb_weak :
    (s t u : Text) → text_ltb t s ≡ false → text_ltb u t ≡ false → text_ltb u s ≡ false
unfolding text_ltb
text_ltb_weak [] t u h k = refl
text_ltb_weak (c ∷ s) [] u h k = cc
text_ltb_weak (c ∷ s) (d ∷ t) [] h k = cc
text_ltb_weak (c ∷ s) (d ∷ t) (e ∷ u) h k = ground (arith, text_ltb_weak s t u)

-- sort.Strings
unfoldable pub sort_texts : List Text → List Text
sort_texts = sort text_ltb

pub sort_texts-IsSorted : (ts : List Text) → IsSorted text_ltb (sort_texts ts)
unfolding sort_texts
sort_texts-IsSorted = sort-IsSorted text_ltb text_ltb_asym text_ltb_weak
