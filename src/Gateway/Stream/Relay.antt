-- ===== src/Gateway/Stream/Relay.antt =====
-- What a client gets of the stream of an OpenAI upstream: the loop of `streamOpenAI` in
-- internal/app/streaming.go.
use mathlib.Core.List.{append_assoc, append-nil}
use atomhub.Prelude.{
  ◌≡◌, refl, ◌∙◌, ap, sym, ◌⊎◌, inl, inr, Bool, true, false, List, [], ◌∷◌, ◌++◌, Option, none,
  some,
}
use atomhub.Text.{Text}
use atomhub.Types.{UsageTokens, Error, message, Result, ok, err}
use atomhub.Gateway.Api.{UsageMap}
use atomhub.Gateway.Stream.{
  Sse, write_data, done_marker, Line, skip, done, payload, classify, Ended, write_done, after_write,
  with_chunk, relay,
}

-- the payloads of the lines, up to the end marker
abbrev pub payloads : List Text → List Text
payloads [] = []
payloads (text ∷ lines) = elim (classify text) [
  | skip ↦ payloads lines
  | done ↦ []
  | payload p ↦ p ∷ payloads lines
]

-- the events of a whole stream
abbrev pub events : List Text → List Text
events lines = payloads lines ++ done_marker ∷ []

abbrev Written : Text → Sse → Result (Unit {0}) × Sse → Type 0
Written p s r =
    ((r.0 ≡ ok tt) × (r.1.sent ≡ s.sent ++ p ∷ []))
    ⊎ ((e : Error) × (r.0 ≡ err e) × (r.1.sent ≡ s.sent))

write_data-Written : (p : Text) (s : Sse) → Written p s (write_data p s)
unfolding write_data
write_data-Written p s = written s.breaks
  where
    written : (bs : List Bool) → Written p s (write_data p (record s { breaks = bs }))
    written [] = inl (refl, refl)
    written (true ∷ bs) = inr (_, refl, refl)
    written (false ∷ bs) = inl (refl, refl)

-- The client has what it had and then every event; there is no error, and the usage is the one given.
pub record Whole (u : UsageTokens) (all : List Text) (s : Sse) (r : Ended) : Type 0 where
  pub no_error : r.0.1 ≡ none
  pub usage : r.0.0 ≡ u
  pub sent : r.1.sent ≡ s.sent ++ all

-- There is an error, and the client has what it had and then the events before one that is missing.
pub record Cut (all : List Text) (s : Sse) (r : Ended) : Type 0 where
  pub error : Error
  pub is_error : r.0.1 ≡ some error
  pub got : List Text
  pub missing : Text
  pub rest : List Text
  pub sent : r.1.sent ≡ s.sent ++ got
  pub split : got ++ missing ∷ rest ≡ all

abbrev pub Relayed : UsageTokens → List Text → Sse → Ended → Type 0
Relayed u all s r = Whole u all s r ⊎ Cut all s r

after_write-Relayed :
    (u : UsageTokens) (p : Text) (s : Sse) (r : Result (Unit {0}) × Sse)
    → Written p s r
    → Relayed u (p ∷ []) s (after_write u r)
after_write-Relayed u p s (ok v, t) (inl (e, h)) =
    inl (record { no_error = refl; usage = refl; sent = h })
after_write-Relayed u p s (ok v, t) (inr (x, e, h)) = cc
after_write-Relayed u p s (err x, t) (inl (e, h)) = cc
after_write-Relayed u p s (err x, t) (inr (y, e, h)) = inr (record {
  error = x;
  is_error = refl;
  got = [];
  missing = p;
  rest = [];
  sent = h ∙ sym (append-nil s.sent);
  split = refl;
})

-- One more event in front.
later :
    (u : UsageTokens) (p : Text) (all : List Text) (s t : Sse) (r : Ended)
    → t.sent ≡ s.sent ++ p ∷ []
    → Relayed u all t r
    → Relayed u (p ∷ all) s r
later u p all s t r h (inl w) = inl (record {
  no_error = w.no_error;
  usage = w.usage;
  sent = w.sent ∙ ap (λ (l : List Text). l ++ all) h ∙ append_assoc s.sent (p ∷ []) all;
})
later u p all s t r h (inr c) = inr (record {
  error = c.error;
  is_error = c.is_error;
  got = p ∷ c.got;
  missing = c.missing;
  rest = c.rest;
  sent = c.sent ∙ ap (λ (l : List Text). l ++ c.got) h ∙ append_assoc s.sent (p ∷ []) c.got;
  split = ap (λ (l : List Text). p ∷ l) c.split;
})

pub Line-cases : (l : Line) → (l ≡ skip) ⊎ (l ≡ done) ⊎ ((p : Text) × (l ≡ payload p))
Line-cases skip = inl refl
Line-cases done = inr (inl refl)
Line-cases (payload p) = inr (inr (p, refl))

module _ (chunk_usage : Text → Result (Option UsageMap)) where
  -- the usage after the chunks among the payloads
  abbrev pub usage_after : UsageTokens → List Text → UsageTokens
  usage_after u [] = u
  usage_after u (p ∷ ps) = usage_after (with_chunk chunk_usage u p) ps

  write_done-Relayed : (u : UsageTokens) (s : Sse) → Relayed u (done_marker ∷ []) s (write_done u s)
  unfolding write_done
  write_done-Relayed u s =
      after_write-Relayed u done_marker s (write_data done_marker s)
        (write_data-Written done_marker s)

  -- the same in terms of what the loop takes for payloads and counts
  pub relay-Relayed :
      (failure : Option Text) (usage : UsageTokens) (lines : List Text) (s : Sse)
      → Relayed
          (usage_after usage (payloads lines))
          (events lines)
          s
          (relay chunk_usage failure usage lines s)
  unfolding relay
  relay-Relayed (some e) usage [] s = inr (record {
    error = message e;
    is_error = refl;
    got = [];
    missing = done_marker;
    rest = [];
    sent = sym (append-nil s.sent);
    split = refl;
  })
  relay-Relayed none usage [] s = write_done-Relayed usage s
  relay-Relayed failure usage (text ∷ lines) s = elim (Line-cases (classify text)) [
    | inl e ↦ rw (e, relay, payloads) (relay-Relayed failure usage lines s)
    | inr (inl e) ↦ rw (e, relay, payloads) (write_done-Relayed usage s)
    | inr (inr (p, e)) ↦
        rw (e, relay, payloads)
          (elim (write_data-Written p s) [
            | inl (w, h) ↦ rw w (
                later _ p (events lines) s (write_data p s).1 _ h
                  (relay-Relayed failure (with_chunk chunk_usage usage p) lines (write_data p s).1))
            | inr (x, w, h) ↦ rw w (
                inr (record {
                  error = x;
                  is_error = refl;
                  got = [];
                  missing = p;
                  rest = events lines;
                  sent = h ∙ sym (append-nil s.sent);
                  split = refl;
                }))
          ])
  ]
