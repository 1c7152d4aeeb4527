-- ===== src/Events/Conversation.antt =====
-- The keys of conversations (src/chat/conversation.ts), with `encodeURIComponent` of the language.
use qq_bot_v.Prelude.{
  ℕ, ◌+◌, ◌-◌, ◌*◌, ◌/◌, ◌%◌, Bool, ◌&&◌, ◌||◌, Option, none, some, [], ◌∷◌, ◌++◌, ltb, leb, nat_eq,
  Text, text, if◌then◌else◌, Result, ok, err, ◌>>=◌, has,
}
use qq_bot_v.Ledger.Runtime.{
  Platform, qq, feishu, ConversationKind, group, private, ConversationRef,
}

-- A lone surrogate is refused.
pub data UriError : Type 0 where
  malformed : UriError

abbrev between : ℕ → ℕ → ℕ → Bool
between low high c = leb low c && leb c high

abbrev is_unreserved : ℕ → Bool
is_unreserved c = between 65 90 c || between 97 122 c || between 48 57 c || has c (text "-_.!~*'()")

abbrev hex_upper : ℕ → ℕ
hex_upper d = if ltb d 10 then 48 + d else 55 + d

abbrev percent : ℕ → Text
percent byte = b'%' ∷ hex_upper (byte / 16) ∷ hex_upper (byte % 16) ∷ []

-- The bytes of UTF-8.
abbrev utf8_percent : ℕ → Text
utf8_percent point =
    if ltb point 0x80
    then percent point
    else if ltb point 0x800
    then percent (0xC0 + point / 64) ++ percent (0x80 + point % 64)
    else if ltb point 0x10000
    then percent (0xE0 + point / 4096)
      ++ percent (0x80 + point / 64 % 64)
      ++ percent (0x80 + point % 64)
    else percent (0xF0 + point / 262144)
      ++ percent (0x80 + point / 4096 % 64)
      ++ percent (0x80 + point / 64 % 64)
      ++ percent (0x80 + point % 64)

abbrev put_before : Text → Result UriError Text → Result UriError Text
put_before s (ok t) = ok (s ++ t)
put_before s (err e) = err e

abbrev is_high : ℕ → Bool
is_high c = between 0xD800 0xDBFF c

abbrev is_low : ℕ → Bool
is_low c = between 0xDC00 0xDFFF c

abbrev pair_percent : ℕ → ℕ → Text
pair_percent high low = utf8_percent (0x10000 + (high - 0xD800) * 1024 + (low - 0xDC00))

-- The text of a unit before that of the rest, where `high` is a high surrogate just before it.
abbrev put_unit : Option ℕ → ℕ → Result UriError Text → Result UriError Text
put_unit (some high) c rest =
    if is_low c then put_before (pair_percent high c) rest else err malformed
put_unit none c rest =
    if is_unreserved c
    then put_before (c ∷ []) rest
    else if is_low c
    then err malformed
    else if is_high c
    then rest
    else put_before (utf8_percent c) rest

abbrev opened_by : Option ℕ → ℕ → Option ℕ
opened_by (some high) c = none
opened_by none c = if is_high c then some c else none

encode_from : Option ℕ → Text → Result UriError Text
encode_from none [] = ok []
encode_from (some high) [] = err malformed
encode_from before (c ∷ s) = let rest = encode_from (opened_by before c) s in put_unit before c rest

unfoldable pub encode_uri_component : Text → Result UriError Text
unfolding encode_from
encode_uri_component s = encode_from none s

abbrev platform_text : Platform → Text
platform_text qq = text "qq"
platform_text feishu = text "feishu"

abbrev kind_text : ConversationKind → Text
kind_text group = text "group"
kind_text private = text "private"

unfoldable pub conversation_key : ConversationRef → Result UriError Text
unfolding encode_uri_component
conversation_key c = do
  account ← encode_uri_component c.account_id
  external ← encode_uri_component c.external_id
  ok (platform_text c.platform ++ b':' ∷ account ++ b':' ∷ kind_text c.kind ++ b':' ∷ external)

pub record ParticipantRef : Type 0 where
  pub platform : Platform
  pub account_id : Text
  pub external_id : Text

unfoldable pub participant_key : ParticipantRef → Result UriError Text
unfolding encode_uri_component
participant_key p = do
  account ← encode_uri_component p.account_id
  external ← encode_uri_component p.external_id
  ok (platform_text p.platform ++ b':' ∷ account ++ b':' ∷ external)
