-- ===== src/Text/Decimal.antt =====
-- Decimal digits: strconv.FormatInt and `%d` on numbers that are not negative.
use atomhub.Prelude.{
  ℕ, zero, suc, ◌+◌, ◌*◌, ◌-◌, ◌/◌, ◌%◌, ◌<◌, ◌≡◌, refl, ◌∙◌, true, false, ◌&&◌, [], ◌∷◌, ◌++◌,
  Option, none, some, arith, ltb, leb, if◌then◌else◌, elem, Bool-cases, inl, inr, ◌==◌,
}
use mathlib.Core.Option
use atomhub.Prelude.Int.{ℤ, pos, negsuc, half_word}
use atomhub.Text.{Text, codes}

-- On fuel above the number, which falls with each digit.
decimal_from : ℕ → ℕ → Text
decimal_from zero n = []
decimal_from (suc fuel) n =
    let rest = decimal_from fuel (n / 10) ++ (48 + n % 10) ∷ [] in
    if ltb n 10 then (48 + n) ∷ [] else rest

unfoldable pub decimal : ℕ → Text
unfolding decimal_from
decimal n = decimal_from (suc n) n

decimal_502 : decimal 502 ≡ codes "502"
unfolding decimal
decimal_502 = refl

-- strconv.ParseInt(s, 10, 64) on digits: the digits as a number, and `none` for anything else
unfoldable pub parse_digits : ℕ → Text → Option ℕ
parse_digits acc [] = some acc
parse_digits acc (c ∷ s) =
    if leb 48 c && leb c 57 then parse_digits (acc * 10 + (c - 48)) s else none

parse_digits-append :
    (acc n : ℕ) (s t : Text)
    → parse_digits acc s ≡ some n
    → parse_digits acc (s ++ t) ≡ parse_digits n t
unfolding parse_digits
parse_digits-append acc n [] t h = ground arith
parse_digits-append acc n (c ∷ s) t h = elim (Bool-cases (leb 48 c && leb c 57)) [
  | inl e ↦ rw e (parse_digits-append (acc * 10 + (c - 48)) n s t (rw e at h))
  | inr e ↦ ground arith
]

parse_digits-decimal_from : (fuel n : ℕ) → n < fuel → parse_digits 0 (decimal_from fuel n) ≡ some n
unfolding decimal_from parse_digits
parse_digits-decimal_from zero n h = ground arith
parse_digits-decimal_from (suc fuel) n h = elim (Bool-cases (ltb n 10)) [
  | inl e ↦ rw e (ground arith)
  | inr e ↦
      let smaller : n / 10 < fuel = ground (arith, e) in
      rw e (
        parse_digits-append 0 (n / 10) (decimal_from fuel (n / 10)) ((48 + n % 10) ∷ [])
          (parse_digits-decimal_from fuel (n / 10) smaller)
        ∙ ground arith)
]

-- The digits of a number are read back as the number.
pub parse_digits-decimal : (n : ℕ) → parse_digits 0 (decimal n) ≡ some n
unfolding decimal
parse_digits-decimal n = parse_digits-decimal_from (suc n) n (omega arith)

-- What is read as a number has nothing but digits.
pub digits_only :
    (sep acc n : ℕ) (s : Text)
    → parse_digits acc s ≡ some n
    → (leb 48 sep && leb sep 57) ≡ false
    → elem sep s ≡ false
unfolding parse_digits
digits_only sep acc n [] h k = refl
digits_only sep acc n (c ∷ s) h k = elim (Bool-cases (leb 48 c && leb c 57)) [
  | inl e ↦ let rest = digits_only sep (acc * 10 + (c - 48)) n s (rw e at h) k in ground arith
  | inr e ↦ ground arith
]

pub decimal_starts : (n : ℕ) → (c : ℕ) × (s : Text) × (decimal n ≡ c ∷ s)
unfolding decimal decimal_from
decimal_starts n = starts n (suc n) (omega arith)
  where
    starts : (n fuel : ℕ) → n < fuel → (c : ℕ) × (s : Text) × (decimal_from fuel n ≡ c ∷ s)
    starts n zero h = ground arith
    starts n (suc fuel) h = elim (Bool-cases (ltb n 10)) [
      | inl e ↦ (48 + n, [], rw e refl)
      | inr e ↦
          let smaller : n / 10 < fuel = ground (arith, e) in
          let (c, s, is) = starts (n / 10) fuel smaller in
          (c, s ++ (48 + n % 10) ∷ [], rw (e, is) refl)
    ]

negate : ℕ → ℤ
negate zero = pos 0
negate (suc n) = negsuc n

-- the value of digits below a bound, if there are any
below : ℕ → Text → Option ℕ
below bound [] = none
below bound (c ∷ s) = elim (parse_digits 0 (c ∷ s)) [
  | none ↦ none
  | some n ↦ if ltb n bound then some n else none
]

-- strconv.ParseInt(s, 10, 64)
unfoldable pub parse_int : Text → Option ℤ
unfolding below negate
parse_int [] = none
parse_int (c ∷ s) =
    if c == 45
    then Option.map negate (below (half_word + 1) s)
    else if c == 43
    then Option.map pos (below half_word s)
    else Option.map pos (below half_word (c ∷ s))

-- A number below 2^63 is read back from its digits.
pub parse_int-decimal : (n : ℕ) → n < half_word → parse_int (decimal n) ≡ some (pos n)
unfolding parse_int below
parse_int-decimal n h =
    let (c, s, is) = decimal_starts n in
    let digits : parse_digits 0 (c ∷ s) ≡ some n = rw⁻¹ is (parse_digits-decimal n) in
    let plus : elem 43 (c ∷ s) ≡ false = digits_only 43 0 n (c ∷ s) digits refl in
    let minus : elem 45 (c ∷ s) ≡ false = digits_only 45 0 n (c ∷ s) digits refl in
    rw is (signs c s n h digits plus minus)
  where
    signs :
        (c : ℕ) (s : Text) (n : ℕ)
        → n < half_word
        → parse_digits 0 (c ∷ s) ≡ some n
        → elem 43 (c ∷ s) ≡ false
        → elem 45 (c ∷ s) ≡ false
        → parse_int (c ∷ s) ≡ some (pos n)
    signs c s n h digits plus minus =
        let no_plus : (c == 43) ≡ false = ground arith in
        let no_minus : (c == 45) ≡ false = ground arith in
        let small : ltb n half_word ≡ true = ground arith in
        rw (no_minus, no_plus, below, digits, small) refl
