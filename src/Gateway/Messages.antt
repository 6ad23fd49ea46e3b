-- ===== src/Gateway/Messages.antt =====
-- The helpers of internal/app/handlers_gateway.go that read requests and answers.
pub mod Split
use atomhub.Prelude.{
  ℕ, Bool, true, false, not, ◌&&◌, List, [], ◌∷◌, Option, none, some, if◌then◌else◌,
}
use atomhub.Prelude.Int.{ℤ, pos, ltb_ℤ}
use atomhub.Text.{Text, codes, is_empty, trim_space, equal_fold, join}
use atomhub.Gateway.Api.{ChatMessage}

abbrev pub newline : Text
newline = 10 ∷ []

abbrev pub is_blank : Text → Bool
is_blank s = is_empty (trim_space s)

abbrev pub is_system : ChatMessage → Bool
is_system msg = equal_fold msg.role (codes "system")

-- the texts of the system messages that are not blank, and the other messages, in order
unfoldable pub split_messages : List ChatMessage → List Text × List ChatMessage
split_messages [] = ([], [])
split_messages (msg ∷ rest) =
    let (parts, filtered) = split_messages rest in
    if is_system msg
    then ((if is_blank msg.content then parts else msg.content ∷ parts), filtered)
    else (parts, msg ∷ filtered)

unfoldable pub split_system_messages : List ChatMessage → Text × List ChatMessage
unfolding split_messages
split_system_messages messages =
    let (parts, filtered) = split_messages messages in (join newline parts, filtered)

unfoldable pub coalesce_max_tokens : Option ℤ → ℤ → ℤ
coalesce_max_tokens none fallback = fallback
coalesce_max_tokens (some v) fallback = if ltb_ℤ (pos 0) v then v else fallback

unfoldable pub default_string : Text → Text → Text
default_string v fallback = if is_blank v then fallback else trim_space v
