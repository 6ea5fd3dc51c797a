-- ===== src/Ksock/Replies.antt =====
-- The list of requests that a replier has read and not yet replied to: kbus_reply_needed and
-- kbus_reply_now_sent of kbus/kbus_main.c.
use kbus.Prelude.{Bool, true, false, List, [], ◌∷◌, ltb, if◌then◌else◌, add_u32, sub_u32}
use kbus.Message.{MsgId, Msg, same_id}
use kbus.Ksock.Records.{Ksock, UnrepliedItem}

-- kbus_reply_needed
unfoldable pub reply_needed : Ksock → Msg → Ksock
reply_needed priv msg =
    let num = add_u32 priv.num_replies_unsent 1 in
    record priv {
      replies_unsent = item ∷ priv.replies_unsent;
      num_replies_unsent = num;
      max_replies_unsent = if ltb priv.max_replies_unsent num then num else priv.max_replies_unsent;
    }
  where
    item : UnrepliedItem
    item = record { id = msg.id; from = msg.from; name_len = msg.name_len; name_ref = msg.name_ref }

-- The list without its first entry for the id.
unfoldable pub remove_unreplied : MsgId → List UnrepliedItem → List UnrepliedItem
remove_unreplied id [] = []
remove_unreplied id (item ∷ rest) =
    if same_id item.id id then rest else item ∷ remove_unreplied id rest

unfoldable pub has_unreplied : MsgId → List UnrepliedItem → Bool
has_unreplied id [] = false
has_unreplied id (item ∷ rest) = if same_id item.id id then true else has_unreplied id rest

-- kbus_reply_now_sent: the Ksock, and whether it returns 0.
unfoldable pub reply_now_sent : Ksock → MsgId → Ksock × Bool
reply_now_sent priv id =
    if has_unreplied id priv.replies_unsent
    then (
      record priv {
        replies_unsent = remove_unreplied id priv.replies_unsent;
        num_replies_unsent = sub_u32 priv.num_replies_unsent 1;
      },
      true,
    )
    else (priv, false)
