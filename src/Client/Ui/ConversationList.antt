-- ===== src/Client/Ui/ConversationList.antt =====
-- client/src/ui/ConversationList.cpp
use nova_chat.Prelude.{◌==◌, List, [], ◌++◌, map, if◌then◌else◌}
use nova_chat.Prelude.Text.{Text, bytes}
use nova_chat.Prelude.Int.{pos}
use nova_chat.Client.Db.Tables.{Conversation}
use nova_chat.Client.App.{App, Event, conversations_loaded, message_received, to_string}
use nova_chat.Client.Ui.{Qt}

-- A row of the list: what is shown, and the data under Qt::UserRole and the role behind it.
pub record Entry : Type 0 where
  pub display : Text
  pub conv_id : Text
  pub peer_id : Text

pub record ConversationList : Type 0 where
  pub conversations : List Conversation
  pub entries : List Entry

module _ (qt : Qt) where
  unfoldable pub entry_of : Conversation → Entry
  entry_of c =
      let ts = qt.time_text (bytes "MM/dd HH:mm") c.last_message_time in
      let display =
        qt.arg (qt.arg (qt.arg (bytes "[%1]  %2\n%3") c.target_id) ts) c.last_message_preview in
      record {
        display =
            if c.unread_count == 0
            then display
            else display ++ qt.arg (bytes "  [%1]") (to_string (pos c.unread_count));
        conv_id = c.conversation_id;
        peer_id = c.target_id;
      }

  unfoldable pub refresh : List Conversation → ConversationList → ConversationList
  unfolding entry_of
  refresh convs l = record { conversations = convs; entries = map entry_of convs }

  -- the constructor
  unfoldable pub new_list : App → ConversationList
  unfolding refresh
  new_list a = refresh a.conversations (record { conversations = []; entries = [] })

  -- the connections of the constructor; a message makes it ask the service for its list
  unfoldable pub take_event : App → Event → ConversationList → ConversationList
  unfolding refresh
  take_event a (conversations_loaded convs) l = refresh convs l
  take_event a (message_received msg) l = refresh a.conversations l
  take_event a other l = l

-- onItemDoubleClicked: what conversationSelected says
unfoldable pub selected : Entry → Text × Text
selected e = (e.conv_id, e.peer_id)
