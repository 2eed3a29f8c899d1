-- ===== src/Client/Ui/ChatView.antt =====
-- client/src/ui/ChatView.h and ChatView.cpp
use nova_chat.Prelude.{
  ℕ, zero, suc, ◌==◌, Bool, true, false, not, ◌&&◌, Option, none, some, List, [], ◌∷◌, take, drop,
  if◌then◌else◌,
}
use nova_chat.Prelude.Text.{Text, text_eq, is_empty}
use nova_chat.Prelude.Int.{ℤ, pos}
use nova_chat.Proto.{Wire}
use nova_chat.Client.Db.Tables.{Message, MessageStatus}
use nova_chat.Client.App.{App, Event, history_loaded, message_received, message_sent}
use nova_chat.Client.ChatService.{load_history, send_message}
use nova_chat.Client.Ui.{Qt}

-- An item of the model: its data under the roles of BubbleRole.
pub record Item : Type 0 where
  pub content : Text
  pub sender_id : Text
  pub timestamp : ℤ
  pub is_outgoing : Bool
  pub status : MessageStatus

-- `rows` are the items of `model_`, `input` the text of `input_edit_`.
pub record ChatView : Type 0 where
  pub own_user_id : Text
  pub current_conv_id : Text
  pub rows : List Item
  pub input : Text
  pub has_more : Bool
  pub loading_history : Bool

unfoldable pub new_view : Text → ChatView
new_view own_user_id = record {
  own_user_id = own_user_id;
  current_conv_id = [];
  rows = [];
  input = [];
  has_more = false;
  loading_history = false;
}

unfoldable pub item_of : Text → Message → Item
item_of own_user_id m = record {
  content = m.content;
  sender_id = m.sender_id;
  timestamp = m.timestamp_ms;
  is_outgoing = text_eq m.sender_id own_user_id;
  status = m.status;
}

-- model_->insertRow(i, item), for a row from 0 to rowCount()
unfoldable pub insert_row : ℕ → Item → List Item → List Item
insert_row zero item rows = item ∷ rows
insert_row (suc i) item [] = item ∷ []
insert_row (suc i) item (r ∷ rows) = r ∷ insert_row i item rows

-- the loop of onHistoryLoaded, from row `i` on
unfoldable pub insert_rows : Text → ℕ → List Message → List Item → List Item
unfolding item_of insert_row
insert_rows own_user_id i [] rows = rows
insert_rows own_user_id i (m ∷ ms) rows =
    insert_rows own_user_id (suc i) ms (insert_row i (item_of own_user_id m) rows)

unfoldable pub on_history_loaded : Text → List Message → Bool → ChatView → ChatView
unfolding insert_rows
on_history_loaded conv_id messages has_more v =
    if not (text_eq conv_id v.current_conv_id) then v else record v {
      rows = insert_rows v.own_user_id 0 messages v.rows;
      has_more = has_more;
      loading_history = false;
    }

unfoldable pub append_row : Item → List Item → List Item
append_row item [] = item ∷ []
append_row item (r ∷ rows) = r ∷ append_row item rows

unfoldable pub append_message : Message → ChatView → ChatView
unfolding item_of append_row
append_message msg v = record v { rows = append_row (item_of v.own_user_id msg) v.rows }

unfoldable pub on_message_received : Message → ChatView → ChatView
unfolding append_message
on_message_received msg v =
    if not (text_eq msg.conversation_id v.current_conv_id) then v else append_message msg v

unfoldable pub on_message_sent : Message → ChatView → ChatView
unfolding append_message
on_message_sent msg v =
    if not (text_eq msg.conversation_id v.current_conv_id) then v else append_message msg v

-- the connections of the constructor
unfoldable pub take_event : Event → ChatView → ChatView
unfolding on_history_loaded on_message_received on_message_sent
take_event (history_loaded conv_id messages has_more) v =
    on_history_loaded conv_id messages has_more v
take_event (message_received msg) v = on_message_received msg v
take_event (message_sent msg) v = on_message_sent msg v
take_event other v = v

-- current_conv_id_.find(':')
unfoldable pub find_colon : Text → Option ℕ
find_colon [] = none
find_colon (c ∷ s) =
    let later : Option ℕ = elim (find_colon s) [ none ↦ none | some n ↦ some (suc n) ] in
    if c == b':' then some 0 else later

-- substr(0, colon) and substr(colon + 1); where there is no colon npos makes both the whole text
unfoldable pub id_parts : Text → Text × Text
unfolding find_colon
id_parts id = elim (find_colon id) [
  | none ↦ (id, id)
  | some colon ↦ (take colon id, drop (suc colon) id)
]

unfoldable pub receiver_of : ChatView → Text
unfolding id_parts
receiver_of v =
    let (id_a, id_b) = id_parts v.current_conv_id in
    if text_eq id_a v.own_user_id then id_b else id_a

module _ (wire : Wire) where
  unfoldable pub open_conversation : Text → ChatView → App → ChatView × App
  open_conversation conv_id v a = (
    record v { current_conv_id = conv_id; rows = []; has_more = false; loading_history = false },
    load_history wire conv_id (pos 0) a,
  )

  -- the slot of the scroll bar's valueChanged; the arguments are whether the value is 0 and the rows
  abbrev scrolled : Bool → List Item → ChatView → App → ChatView × App
  scrolled at_top [] v a = (v, a)
  scrolled at_top (r ∷ rows) v a =
      if at_top && v.has_more && not v.loading_history
      then (record v { loading_history = true }, load_history wire v.current_conv_id r.timestamp a)
      else (v, a)

  unfoldable pub on_scrolled : Bool → ChatView → App → ChatView × App
  on_scrolled at_top v a = scrolled at_top v.rows v a

  unfoldable pub on_send_clicked : Qt → ChatView → App → ChatView × App
  unfolding receiver_of
  on_send_clicked qt v a =
      let content = qt.trimmed v.input in
      if is_empty v.current_conv_id
      then (v, a)
      else if is_empty content
      then (v, a)
      else (record v { input = [] }, send_message wire (receiver_of v) content a)

  -- eventFilter: Return without Shift sends, and is not handed on
  unfoldable pub on_key : Qt → Bool → Bool → ChatView → App → Bool × (ChatView × App)
  unfolding on_send_clicked
  on_key qt is_return shift v a =
      if is_return && not shift then (true, on_send_clicked qt v a) else (false, (v, a))
