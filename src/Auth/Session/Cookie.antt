-- ===== src/Auth/Session/Cookie.antt =====
-- `Get` of internal/auth/session.go on the cookie that `Set` wrote.
use atomhub.Prelude.{
  ℕ, ◌+◌, ◌<◌, ◌≡◌, refl, ◌∙◌, false, none, some, arith, ltb, if◌then◌else◌, elem, Bool-cases, inl,
  inr, list_eq_refl,
}
use atomhub.Prelude.Int.{half_word}
use atomhub.Text.{Text, is_empty, trim_space}
use atomhub.Text.Decimal.{decimal, parse_int-decimal, parse_digits-decimal, digits_only}
use atomhub.Text.Split.{split, split_whole, split-append, split_more}
use atomhub.Auth.Session.{
  Signing, unix, token_of, payload_of, set_at, non_blank, unexpired, claims, verified, get_parts,
  get,
}

-- What the standard library promises of base64 for urls: decoding gives back what was encoded, and an
-- encoding has no dot.
pub record Encodes (signing : Signing) : Type 0 where
  pub decode : (t : Text) → signing.decode (signing.encode t) ≡ some t
  pub no_dot : (t : Text) → elem 46 (signing.encode t) ≡ false

-- A token is split and verified: its payload is what was signed.
get-token_of :
    (signing : Signing)
    → Encodes signing
    → (payload : Text) (later : ℕ)
    → get signing (some (token_of signing payload)) later ≡ claims signing later (split 124 payload)
unfolding get token_of get_parts verified
get-token_of signing laws payload later =
    let signed = signing.sign payload in
    rw
      (
        split-append 46 (signing.encode payload) (signing.encode signed) (laws.no_dot payload),
        split_whole 46 (signing.encode signed) (laws.no_dot signed),
        laws.decode payload,
        laws.decode signed,
        list_eq_refl signed,
      )
      refl

decimal_no_bar : (n : ℕ) → elem 124 (decimal n) ≡ false
decimal_no_bar n = digits_only 124 0 n (decimal n) (parse_digits-decimal n) refl

claims-payload_of :
    (signing : Signing) (username : Text) (exp later : ℕ)
    → is_empty (trim_space username) ≡ false
    → exp < half_word
    → claims signing later (split 124 (payload_of signing username exp)) ≡ (
        if elem 124 username
        then none
        else if ltb exp (unix later)
        then none
        else some (trim_space username))
unfolding claims unexpired non_blank
claims-payload_of signing username exp later named small = elim (Bool-cases (elem 124 username)) [
  | inl e ↦ let (a, b, c, parts, is) = split_more 124 username (decimal exp) e in rw (e, is) refl
  | inr e ↦
      rw
        (
          e,
          split-append 124 username (decimal exp) e,
          split_whole 124 (decimal exp) (decimal_no_bar exp),
          parse_int-decimal exp small,
        )
        (ground (arith, named))
]

-- The cookie that `Set` writes for a name that is not blank is accepted up to and including the second
-- it expires in, as the name without outer spaces; after that it is not. A name with a `|` in it is
-- never accepted.
pub get-set_at :
    (signing : Signing)
    → Encodes signing
    → (ttl : ℕ) (username : Text) (time later : ℕ) → is_empty (trim_space username) ≡ false
    → unix (time + ttl) < half_word
    → get signing (some (set_at signing ttl username time)) later ≡ (
        if elem 124 username
        then none
        else if ltb (unix (time + ttl)) (unix later)
        then none
        else some (trim_space username))
unfolding set_at
get-set_at signing laws ttl username time later named small =
    get-token_of signing laws (payload_of signing username (unix (time + ttl))) later
    ∙ claims-payload_of signing username (unix (time + ttl)) later named small
