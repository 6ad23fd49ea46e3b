-- ===== src/Gateway/Stream/Breaks.antt =====
-- Why the loop of `streamOpenAI` in internal/app/streaming.go ends with an error.
use mathlib.Core.List.{Memᴰ}
use atomhub.Prelude.{◌≡◌, refl, inl, inr, Bool, true, false, List, [], ◌∷◌, Option, none, some}
use atomhub.Text.{Text}
use atomhub.Types.{UsageTokens, Error, message, Result, ok, err}
use atomhub.Gateway.Api.{UsageMap}
use atomhub.Gateway.Stream.Relay.{Line-cases}
use atomhub.Gateway.Stream.{
  Sse, write_data, write_failed, done_marker, classify, Ended, write_done, after_write, with_chunk,
  relay,
}

-- The upstream's stream broke, or one of the writes to the client.
pub data Broke (failure : Option Text) (s : Sse) : Error → Type 0 where
  upstream : (e : Text) → failure ≡ some e → Broke failure s (message e)
  client : Memᴰ true s.breaks → Broke failure s write_failed

-- There is no error, or a break that is the reason.
abbrev pub Excused : Option Text → Sse → Option Error → Type 0
Excused failure s none = Unit {0}
Excused failure s (some e) = Broke failure s e

-- A write is the client's break or leaves fewer of them.
data Wrote (s : Sse) : Result (Unit {0}) × Sse → Type 0 where
  broken : {t : Sse} → Memᴰ true s.breaks → Wrote s (err write_failed, t)
  passed : {t : Sse} → (Memᴰ true t.breaks → Memᴰ true s.breaks) → Wrote s (ok tt, t)

write_data-Wrote : (p : Text) (s : Sse) → Wrote s (write_data p s)
unfolding write_data
write_data-Wrote p s = wrote s.breaks
  where
    wrote :
        (bs : List Bool)
        → Wrote (record s { breaks = bs }) (write_data p (record s { breaks = bs }))
    wrote [] = passed (λ m. m)
    wrote (true ∷ bs) = broken (Memᴰ.head refl)
    wrote (false ∷ bs) = passed (λ m. Memᴰ.tail m)

module _ (chunk_usage : Text → Result (Option UsageMap)) (failure : Option Text) where
  after_write-Excused :
      (u : UsageTokens) (s : Sse) (r : Result (Unit {0}) × Sse)
      → Wrote s r
      → Excused failure s (after_write u r).0.1
  after_write-Excused u s (ok v, t) w = tt
  after_write-Excused u s (err e, t) (broken m) = client m

  earlier :
      (s t : Sse) (o : Option Error)
      → (Memᴰ true t.breaks → Memᴰ true s.breaks)
      → Excused failure t o
      → Excused failure s o
  earlier s t none f h = tt
  earlier s t (some e) f (upstream x h) = upstream x h
  earlier s t (some e) f (client m) = client (f m)

  write_done-Excused : (u : UsageTokens) (s : Sse) → Excused failure s (write_done u s).0.1
  unfolding write_done
  write_done-Excused u s = after_write-Excused u s (write_data done_marker s) (write_data-Wrote _ s)

  -- a payload is written, and the rest of the lines follows
  after_payload :
      (u : UsageTokens) (s : Sse) (rest : Sse → Ended)
      → ((t : Sse) → Excused failure t (rest t).0.1)
      → (r : Result (Unit {0}) × Sse) → Wrote s r
      → Excused failure s
          (elim r.0 as (λ x. Ended) [ err e ↦ ((u, some e), r.1) | ok v ↦ rest r.1 ]).0.1
  after_payload u s rest later (err e, t) (broken m) = client m
  after_payload u s rest later (ok v, t) (passed f) = earlier s t (rest t).0.1 f (later t)

  -- An error is one of the two breaks.
  pub relay-Excused :
      (u : UsageTokens) (lines : List Text) (s : Sse)
      → Excused failure s (relay chunk_usage failure u lines s).0.1
  unfolding relay
  relay-Excused u [] s = at_end failure refl
    where
      at_end :
          (o : Option Text)
          → failure ≡ o
          → Excused failure s
              (elim o as (λ o. Ended) [
                | some e ↦ ((u, some (message e)), s)
                | none ↦ write_done u s
              ]).0.1
      at_end none e = write_done-Excused u s
      at_end (some x) e = upstream x e
  relay-Excused u (text ∷ lines) s = elim (Line-cases (classify text)) [
    | inl e ↦ rw (e, relay) (relay-Excused u lines s)
    | inr (inl e) ↦ rw (e, relay) (write_done-Excused u s)
    | inr (inr (p, e)) ↦
        rw (e, relay)
          (after_payload (with_chunk chunk_usage u p) s
            (relay chunk_usage failure (with_chunk chunk_usage u p) lines)
            (λ t. relay-Excused (with_chunk chunk_usage u p) lines t) (write_data p s)
            (write_data-Wrote p s))
  ]
