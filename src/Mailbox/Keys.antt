-- ===== src/Mailbox/Keys.antt =====
-- Mailbox keys (src/agent/mailbox.ts, isMailboxKey). The pattern
-- ^(?:qq_(?:group|private):\d+|(?:qq|feishu):[^:]+:(?:group|private):[^:]+)$ has no colon inside
-- its parts, so it is read on the parts between the colons.
use qq_bot_v.Prelude.{
  Bool, true, false, ◌&&◌, ◌||◌, not, ◌++◌, List, [], ◌∷◌, ◌==◌, nat_eq, Text, text, text_eq,
  is_empty, all_digits, starts_with, includes,
}

-- The parts between the colons; `part` holds the current one.
split_from : Text → Text → List Text
split_from part [] = part ∷ []
split_from part (c ∷ s) = elim (c == b':') [
  | true ↦ part ∷ split_from [] s
  | false ↦ split_from (part ++ c ∷ []) s
]

unfoldable pub split_colon : Text → List Text
unfolding split_from
split_colon s = split_from [] s

unfoldable pub is_key_of_parts : List Text → Bool
is_key_of_parts (head ∷ digits ∷ []) =
    (head == text "qq_group" || head == text "qq_private")
    && not (is_empty digits)
    && all_digits digits
is_key_of_parts (platform ∷ account ∷ kind ∷ external ∷ []) =
    (platform == text "qq" || platform == text "feishu")
    && not (is_empty account)
    && (kind == text "group" || kind == text "private")
    && not (is_empty external)
is_key_of_parts _ = false

unfoldable pub is_mailbox_key : Text → Bool
unfolding split_colon is_key_of_parts
is_mailbox_key s = is_key_of_parts (split_colon s)

-- `isPrivateMailbox` (src/agent/mailbox-handled.ts).
unfoldable pub is_private_mailbox : Text → Bool
is_private_mailbox mailbox =
    starts_with mailbox (text "qq_private:") || includes mailbox (text ":private:")
