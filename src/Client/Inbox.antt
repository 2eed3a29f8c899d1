-- ===== src/Client/Inbox.antt =====
-- A message on its way in: what a push does to the tables of the client.
use nova_chat.Prelude.{
  ◌+◌, ◌≡◌, refl, ap, ◌∙◌, Bool, true, false, Option, none, some, List, [], ◌∷◌, ◌++◌, arith,
}
use nova_chat.Prelude.Text.{Text, text_eq, text_eq_iff}
use mathlib.Core.Option
use nova_chat.Proto.{Wire, MessageInfo}
use nova_chat.Client.Db.Tables.{Conversation, select_one, update_where, exists_where}
use nova_chat.Client.Db.Tables.Rows.{select-update_same, select-update_other}
use nova_chat.Client.Db.Messages
use nova_chat.Client.Db.Messages.{has_id}
use nova_chat.Client.Db.Messages.Saved.{find_by_id-save}
use nova_chat.Client.Db.Conversations
use nova_chat.Client.Db.Conversations.{is_conversation}
use nova_chat.Client.App.{App, message_received}
use nova_chat.Client.ChatService.{take_push, refresh_conversations, from_info}

-- The row of a conversation after a push in it.
abbrev pub pushed : MessageInfo → Conversation → Conversation
pushed push r = record r {
  last_message_preview = push.content;
  last_message_time = push.timestamp_ms;
  unread_count = r.unread_count + 1;
}

apart :
    (owner conv_id other : Text) (r : Conversation)
    → text_eq conv_id other ≡ false
    → is_conversation owner conv_id r ≡ true
    → is_conversation owner other r ≡ false
apart owner conv_id other r n h = ground (
  arith,
  text_eq_iff r.conversation_id conv_id,
  text_eq_iff r.conversation_id other,
  text_eq_iff conv_id other,
)

-- The two updates of a push, one after the other.
abbrev described : MessageInfo → Conversation → Conversation
described push r = record r {
  last_message_preview = push.content;
  last_message_time = push.timestamp_ms;
}

abbrev counted : Conversation → Conversation
counted r = record r { unread_count = r.unread_count + 1 }

abbrev updated : Text → MessageInfo → List Conversation → List Conversation
updated owner push rows =
    update_where (is_conversation owner push.conversation_id) counted
      (update_where (is_conversation owner push.conversation_id) (described push) rows)

own_row :
    (owner : Text) (push : MessageInfo) (rows : List Conversation)
    → select_one (is_conversation owner push.conversation_id) (updated owner push rows)
      ≡ Option.map (pushed push) (select_one (is_conversation owner push.conversation_id) rows)
own_row owner push rows =
    select-update_same (is_conversation owner push.conversation_id) counted _ (λ r h. h)
    ∙ ap (Option.map counted) (
        select-update_same (is_conversation owner push.conversation_id) (described push) rows
          (λ r h. h))
    ∙ twice (select_one (is_conversation owner push.conversation_id) rows)
  where
    twice :
        (o : Option Conversation)
        → Option.map counted (Option.map (described push) o) ≡ Option.map (pushed push) o
    twice none = refl
    twice (some r) = refl

other_rows :
    (owner : Text) (push : MessageInfo) (rows : List Conversation) (other : Text)
    → text_eq push.conversation_id other ≡ false
    → select_one (is_conversation owner other) (updated owner push rows)
      ≡ select_one (is_conversation owner other) rows
other_rows owner push rows other n =
    let p : Conversation → Bool = is_conversation owner push.conversation_id in
    let off : (r : Conversation) → p r ≡ true → is_conversation owner other r ≡ false =
      λ r h. apart owner push.conversation_id other r n h in
    select-update_other p counted (is_conversation owner other) _ (λ r h. (off r h, off r h))
    ∙ select-update_other p (described push) (is_conversation owner other) rows
        (λ r h. (off r h, off r h))

module _ (wire : Wire) (push : MessageInfo) (a : App) where
  -- A push whose id is new stores the message, and announces it. The row of its conversation, if there
  -- is one, takes its content and time, and counts one more unread message; the rows of the account's
  -- other conversations stay as they are.
  pub take_push_lem :
      exists_where (has_id push.message_id) a.db.messages ≡ false
      → let owner : Text = a.current_user.server_id in
        let a' : App = take_push wire push a in
        (Messages.find_by_id push.message_id a'.db ≡ some (from_info push))
        × (a'.events ≡ a.events ++ message_received (from_info push) ∷ [])
        × (select_one (is_conversation owner push.conversation_id) a'.db.conversations
            ≡ Option.map
                (pushed push)
                (select_one (is_conversation owner push.conversation_id) a.db.conversations))
        × ((other : Text)
            → text_eq push.conversation_id other ≡ false
            → select_one (is_conversation owner other) a'.db.conversations
              ≡ select_one (is_conversation owner other) a.db.conversations)
  unfolding take_push refresh_conversations from_info Conversations.increment_unread
      Conversations.update_last_message Messages.save Messages.find_by_id
  take_push_lem new = (
    find_by_id-save (from_info push) a.db new,
    refl,
    own_row a.current_user.server_id push a.db.conversations,
    other_rows a.current_user.server_id push a.db.conversations,
  )
