-- ===== src/Events/Tests.antt =====
-- Tests of the keys of conversations.
use qq_bot_v.Prelude.{◌≡◌, refl, ◌∷◌, [], text, text_beq, ok, err}
use qq_bot_v.Ledger.Runtime.{feishu, group}
use qq_bot_v.Events.Conversation.{malformed, encode_uri_component, conversation_key}

encoded :
    (encode_uri_component (text "a b:é") ≡ ok (text "a%20b%3A%C3%A9"))
    × (encode_uri_component (0xD83D ∷ 0xDE00 ∷ []) ≡ ok (text "%F0%9F%98%80"))
    × (encode_uri_component (0xD83D ∷ []) ≡ err malformed)
    × (conversation_key (record {
      platform = feishu;
      account_id = text "a:1";
      kind = group;
      external_id = text "oc_5ad11d72b830411d72b836c20bc0d2d8";
    })
        ≡ ok (text "feishu:a%3A1:group:oc_5ad11d72b830411d72b836c20bc0d2d8"))
unfolding encode_uri_component conversation_key text_beq
encoded = (refl, refl, refl, refl)
