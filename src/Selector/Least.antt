-- ===== src/Selector/Least.antt =====
-- `Select` of internal/selector/selector.go returns the available candidate with the fewest calls
-- in flight, the lowest id among equals, whatever the order of the candidates.
use mathlib.Core.List.{Permᴰ, Memᴰ}
use atomhub.Prelude.{
  ◌≤◌, ◌<◌, ◌≡◌, refl, ◌⊎◌, inl, inr, ap, ◌∙◌, sym, ◌↔◌, Bool-cases, true, false, List, [], ◌∷◌,
  Option, none, some, arith, All,
}
use atomhub.Types.{Error, ok, err, no_healthy_keys}
use atomhub.Selector.{Candidate, better, consider, scan, found, select}

consider_comm :
    (best : Option Candidate) (c d : Candidate)
    → consider (consider best c) d ≡ consider (consider best d) c
unfolding consider
consider_comm none c d = ground arith
consider_comm (some b) c d = ground arith

scan-perm :
    (best : Option Candidate) {cs ds : List Candidate} → Permᴰ cs ds → scan best cs ≡ scan best ds
unfolding scan
scan-perm best Permᴰ.nil = refl
scan-perm best (Permᴰ.cons {a = a} {b = b} {l₁ = l} {l₂ = m} e p) =
    scan-perm (consider best a) p ∙ ap (λ (c : Candidate). scan (consider best c) m) e
scan-perm best (Permᴰ.swap {a = a} {b = b} {a' = a'} {b' = b'} {l = l} e f) =
    ap (λ (c : Option Candidate). scan c l) (consider_comm best a b)
    ∙ ap (λ (c : Candidate). scan (consider (consider best c) a) l) f
    ∙ ap (λ (c : Candidate). scan (consider (consider best a') c) l) e
scan-perm best (Permᴰ.trans p q) = scan-perm best p ∙ scan-perm best q

-- The order of the candidates makes no difference to the choice.
pub select-perm : {cs ds : List Candidate} → Permᴰ cs ds → select cs ≡ select ds
unfolding select
select-perm p = ap found (scan-perm none p)

found-some : (o : Option Candidate) (b : Candidate) → found o ≡ ok b → o ≡ some b
unfolding found
found-some o b e = ground arith

-- `b` has fewer calls in flight than `c`, or as many and no higher id.
abbrev pub Precedes : Candidate → Candidate → Type 0
Precedes b c = (b.inflight < c.inflight) ⊎ ((b.inflight ≡ c.inflight) × (b.key_id ≤ c.key_id))

-- `b` precedes every candidate of the list that is not cooling down.
abbrev pub IsLeast : Candidate → List Candidate → Type 0
IsLeast b = All (λ c. c.cooling_down ≡ false → Precedes b c)

Precedes-trans : (a b c : Candidate) → Precedes a b → Precedes b c → Precedes a c
Precedes-trans a b c h k = ground arith

-- The best candidate after a round precedes the one before it, and the round's own.
consider_covers :
    (best : Option Candidate) (c : Candidate)
    → c.cooling_down ≡ false
    → (a : Candidate) × (consider best c ≡ some a) × Precedes a c
unfolding consider
consider_covers none c h = (c, ground arith, ground arith)
consider_covers (some b) c h = elim (Bool-cases (better c b)) [
  | inl e ↦ (c, ground arith, ground arith)
  | inr e ↦ (b, ground arith, ground arith)
]

consider_keeps : (b c : Candidate) → (a : Candidate) × (consider (some b) c ≡ some a) × Precedes a b
unfolding consider
consider_keeps b c = elim (Bool-cases c.cooling_down) [
  | inl e ↦ (b, ground arith, ground arith)
  | inr k ↦ elim (Bool-cases (better c b)) [
    | inl e ↦ (c, ground arith, ground arith)
    | inr e ↦ (b, ground arith, ground arith)
  ]
]

scan_first :
    (a : Candidate) (cs : List Candidate) (b : Candidate) → scan (some a) cs ≡ some b → Precedes b a
unfolding scan
scan_first a [] b e = ground arith
scan_first a (c ∷ cs) b e =
    let (m, is_m, m_first) = consider_keeps a c in
    Precedes-trans b m a
      (scan_first m cs b (ap (λ (o : Option Candidate). scan o cs) (sym is_m) ∙ e)) m_first

scan-IsLeast :
    (best : Option Candidate) (cs : List Candidate) (b : Candidate)
    → scan best cs ≡ some b
    → IsLeast b cs
unfolding scan
scan-IsLeast best [] b e = tt
scan-IsLeast best (c ∷ cs) b e = (
  λ available.
      let (m, is_m, m_first) = consider_covers best c available in
      Precedes-trans b m c
        (scan_first m cs b (ap (λ (o : Option Candidate). scan o cs) (sym is_m) ∙ e)) m_first,
  scan-IsLeast (consider best c) cs b e,
)

abbrev IsAvailable : Candidate → List Candidate → Type 0
IsAvailable b cs = Memᴰ b cs × (b.cooling_down ≡ false)

consider_source :
    (best : Option Candidate) (c b : Candidate)
    → consider best c ≡ some b
    → (best ≡ some b) ⊎ ((b ≡ c) × (b.cooling_down ≡ false))
unfolding consider
consider_source none c b e = ground arith
consider_source (some a) c b e = ground arith

scan_source :
    (best : Option Candidate) (cs : List Candidate) (b : Candidate)
    → scan best cs ≡ some b
    → (best ≡ some b) ⊎ IsAvailable b cs
unfolding scan
scan_source best [] b e = inl e
scan_source best (c ∷ cs) b e = elim (scan_source (consider best c) cs b e) [
  | inr (m, available) ↦ inr (Memᴰ.tail m, available)
  | inl now ↦ elim (consider_source best c b now) [
    | inl before ↦ inl before
    | inr (is_c, available) ↦ inr (Memᴰ.head is_c, available)
  ]
]

-- A successful choice is one of the candidates, is not cooling down, and has the fewest calls in
-- flight of those that are not; of those with as few it has the lowest id.
pub select-IsLeast :
    (cs : List Candidate) (b : Candidate)
    → select cs ≡ ok b
    → Memᴰ b cs × (b.cooling_down ≡ false) × IsLeast b cs
unfolding select
select-IsLeast cs b e =
    let r = found-some (scan none cs) b e in
    elim (scan_source none cs b r) [
      | inl never ↦ cc
      | inr (m, available) ↦ (m, available, scan-IsLeast none cs b r)
    ]

consider-eq-none :
    (best : Option Candidate) (c : Candidate)
    → (consider best c ≡ none) ↔ ((best ≡ none) × (c.cooling_down ≡ true))
unfolding consider
consider-eq-none none c = ground arith
consider-eq-none (some b) c = ground arith

scan-none :
    (best : Option Candidate) (cs : List Candidate)
    → (scan best cs ≡ none) ↔ ((best ≡ none) × All (λ c. c.cooling_down ≡ true) cs)
unfolding scan
scan-none best [] = (λ e. (e, tt), λ h. h.0)
scan-none best (c ∷ cs) =
    let rest = scan-none (consider best c) cs in
    let here = consider-eq-none best c in
    (
      λ e. ((here.0 (rest.0 e).0).0, ((here.0 (rest.0 e).0).1, (rest.0 e).1)),
      λ h. rest.1 (here.1 (h.0, h.1.0), h.1.1),
    )

found-none : (o : Option Candidate) → (found o ≡ err no_healthy_keys) ↔ (o ≡ none)
unfolding found
found-none o = ground arith

-- The choice fails, with ErrNoHealthyKeys, exactly when every candidate is cooling down.
pub select_fails_iff :
    (cs : List Candidate) → (select cs ≡ err no_healthy_keys) ↔ All (λ c. c.cooling_down ≡ true) cs
unfolding select
select_fails_iff cs =
    let fails = found-none (scan none cs) in
    let empty = scan-none none cs in
    (λ e. (empty.0 (fails.0 e)).1, λ h. fails.1 (empty.1 (refl, h)))

found_error : (o : Option Candidate) (e : Error) → found o ≡ err e → e ≡ no_healthy_keys
unfolding found
found_error none e h = cc
found_error (some b) e h = cc

-- the one error of `Select`
pub select_error : (cs : List Candidate) (e : Error) → select cs ≡ err e → e ≡ no_healthy_keys
unfolding select
select_error cs e h = found_error (scan none cs) e h
