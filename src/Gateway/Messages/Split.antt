-- ===== src/Gateway/Messages/Split.antt =====
-- `splitSystemMessages` of internal/app/handlers_gateway.go.
use atomhub.Prelude.{◌≡◌, refl, Bool, not, ◌&&◌, List, [], ◌∷◌, arith, map, filter}
use atomhub.Text.{Text, join}
use atomhub.Gateway.Api.{ChatMessage}
use atomhub.Gateway.Messages.{newline, is_blank, is_system, split_messages, split_system_messages}

abbrev pub has_text : ChatMessage → Bool
has_text msg = is_system msg && not (is_blank msg.content)

abbrev pub content_of : ChatMessage → Text
content_of msg = msg.content

split_messages-filter :
    (messages : List ChatMessage)
    → split_messages messages
      ≡ (map content_of (filter has_text messages), filter (λ msg. not (is_system msg)) messages)
unfolding split_messages
split_messages-filter [] = refl
split_messages-filter (msg ∷ rest) = rw (split_messages-filter rest) (ground arith)

-- The system text is the contents of the system messages that are not blank, joined by newlines; the
-- messages that are handed on are the others. Both keep their order.
split_system_messages-filter :
    (messages : List ChatMessage)
    → split_system_messages messages ≡ (
      join newline (map content_of (filter has_text messages)),
      filter (λ msg. not (is_system msg)) messages,
    )
unfolding split_system_messages
split_system_messages-filter messages = rw (split_messages-filter messages) refl
