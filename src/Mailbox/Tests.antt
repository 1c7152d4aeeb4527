-- ===== src/Mailbox/Tests.antt =====
-- Tests of the mailbox keys.
use qq_bot_v.Prelude.{◌≡◌, refl, true, false, text, text_beq}
use qq_bot_v.Mailbox.Keys.{is_mailbox_key, is_private_mailbox}

keys :
    (is_mailbox_key (text "qq_group:12") ≡ true)
    × (is_mailbox_key (text "qq:a%3A:group:x") ≡ true)
    × (is_mailbox_key (text "qq_group:1x") ≡ false)
    × (is_mailbox_key (text "qq:a:b:group:x") ≡ false)
    × (is_private_mailbox (text "feishu:a:private:c") ≡ true)
unfolding is_mailbox_key is_private_mailbox text_beq
keys = (refl, refl, refl, refl, refl)
