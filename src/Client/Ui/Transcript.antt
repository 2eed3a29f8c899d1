-- ===== src/Client/Ui/Transcript.antt =====
-- What the chat view shows of the conversation that is open, and what sends and loads do to it.
use nova_chat.Prelude.{
  ℕ, suc, ◌≡◌, refl, sym, ap, ap₂, ◌∙◌, Bool, true, false, ◌&&◌, List, [], ◌∷◌, ◌++◌, append-nil,
  append_assoc, map, length, if◌then◌else◌, inl, inr, Bool-cases,
}
use mathlib.Core.List.{map-append}
use nova_chat.Prelude.Text.{Text, bytes, text_lt, text_eq, is_empty}
use nova_chat.MessageType.{error_response}
use nova_chat.Codec.{Packet}
use nova_chat.Proto.{Wire}
use nova_chat.Server.ChatHandler
use nova_chat.Server.ConvId.{HasNoColon, peer_of-make_conv_id}
use nova_chat.Client.Db.Tables.{Message}
use nova_chat.Client.App.{App, Event, history_loaded, message_received, message_sent}
use nova_chat.Client.ChatService.{make_conv_id, load_history, history_answered, send_message}
use nova_chat.Client.Ui.{Qt}
use nova_chat.Client.Ui.ChatView.{
  ChatView, Item, item_of, insert_row, insert_rows, append_row, append_message, on_history_loaded,
  on_message_received, on_message_sent, take_event, find_colon, id_parts, receiver_of, on_scrolled,
  on_send_clicked,
}

insert_row-append :
    (i : Item) (d rows : List Item) → insert_row (length d) i (d ++ rows) ≡ (d ++ i ∷ []) ++ rows
unfolding insert_row
insert_row-append i [] rows = refl
insert_row-append i (x ∷ d) rows = ap (λ r. x ∷ r) (insert_row-append i d rows)

length-snoc : (d : List Item) (i : Item) → length (d ++ i ∷ []) ≡ suc (length d)
length-snoc [] i = refl
length-snoc (x ∷ d) i = ap suc (length-snoc d i)

insert_rows-append :
    (own : Text) (ms : List Message) (d rows : List Item)
    → insert_rows own (length d) ms (d ++ rows) ≡ d ++ (map (item_of own) ms ++ rows)
unfolding insert_rows
insert_rows-append own [] d rows = refl
insert_rows-append own (m ∷ ms) d rows =
    let i = item_of own m in
    ap (insert_rows own (suc (length d)) ms) (insert_row-append i d rows)
    ∙ ap (λ (n : ℕ). insert_rows own n ms ((d ++ i ∷ []) ++ rows)) (sym (length-snoc d i))
    ∙ insert_rows-append own ms (d ++ i ∷ []) rows
    ∙ append_assoc d (i ∷ []) (map (item_of own) ms ++ rows)

append_row_lem : (i : Item) (rows : List Item) → append_row i rows ≡ rows ++ i ∷ []
unfolding append_row
append_row_lem i [] = refl
append_row_lem i (r ∷ rows) = ap (λ t. r ∷ t) (append_row_lem i rows)

abbrev pub take_events : List Event → ChatView → ChatView
take_events [] v = v
take_events (e ∷ es) v = take_events es (take_event e v)

-- The messages of a conversation that an event puts at the top.
abbrev pub page_of : Text → Event → List Message
page_of conv (history_loaded id messages more) = if text_eq id conv then messages else []
page_of conv other = []

-- The messages of a conversation that an event puts at the bottom.
abbrev pub live_of : Text → Event → List Message
live_of conv (message_received msg) = if text_eq msg.conversation_id conv then msg ∷ [] else []
live_of conv (message_sent msg) = if text_eq msg.conversation_id conv then msg ∷ [] else []
live_of conv other = []

-- The page that came last is on top.
abbrev pub pages : Text → List Event → List Message
pages conv [] = []
pages conv (e ∷ es) = pages conv es ++ page_of conv e

abbrev pub live : Text → List Event → List Message
live conv [] = []
live conv (e ∷ es) = live_of conv e ++ live conv es

-- One event: a page on top, a message at the bottom, and the view stays with its conversation.
abbrev Steps : ChatView → Event → Type 0
Steps v e =
    ((take_event e v).rows
      ≡ map (item_of v.own_user_id) (page_of v.current_conv_id e)
        ++ (v.rows ++ map (item_of v.own_user_id) (live_of v.current_conv_id e)))
    × ((take_event e v).current_conv_id ≡ v.current_conv_id)
    × ((take_event e v).own_user_id ≡ v.own_user_id)

appended : (v : ChatView) (m : Message) → Steps v (message_received m)
unfolding take_event on_message_received append_message
appended v m = elim (Bool-cases (text_eq m.conversation_id v.current_conv_id)) [
  | inl own ↦ rw own (append_row_lem (item_of v.own_user_id m) v.rows, refl, refl)
  | inr other ↦ rw other (sym (append-nil v.rows), refl, refl)
]

take_event_lem : (v : ChatView) (e : Event) → Steps v e
unfolding take_event on_history_loaded on_message_received on_message_sent append_message
take_event_lem v (history_loaded id ms more) = elim (Bool-cases (text_eq id v.current_conv_id)) [
  | inl own ↦ rw own (
    insert_rows-append v.own_user_id ms [] v.rows
        ∙ ap (λ r. map (item_of v.own_user_id) ms ++ r) (sym (append-nil v.rows)),
    refl,
    refl,
  )
  | inr other ↦ rw other (sym (append-nil v.rows), refl, refl)
]
take_event_lem v (message_received m) = appended v m
take_event_lem v (message_sent m) = appended v m
take_event_lem v e = (sym (append-nil v.rows), refl, refl)

-- Whatever the services announce, the rows of the open conversation are its history pages, the one
-- that came last on top, then the rows that were there, and then its messages in the order in which
-- they were sent and received; what belongs to another conversation is not shown. A page that
-- comes twice is shown twice.
pub take_events_lem :
    (es : List Event) (v : ChatView)
    → (take_events es v).rows
      ≡ map (item_of v.own_user_id) (pages v.current_conv_id es)
        ++ (v.rows ++ map (item_of v.own_user_id) (live v.current_conv_id es))
take_events_lem [] v = sym (append-nil v.rows)
take_events_lem (e ∷ es) v =
    let item : Message → Item = item_of v.own_user_id in
    let conv : Text = v.current_conv_id in
    let (rows, same, own) = take_event_lem v e in
    take_events_lem es (take_event e v)
    ∙ rw (rows, same, own)
        (regroup (map item (pages conv es)) (map item (page_of conv e)) v.rows
          (map item (live_of conv e)) (map item (live conv es)))
    ∙ sym (
        ap₂ (λ p l. p ++ (v.rows ++ l)) (map-append item (pages conv es) (page_of conv e))
          (map-append item (live_of conv e) (live conv es)))
  where
    regroup : (p q r s t : List Item) → p ++ ((q ++ (r ++ s)) ++ t) ≡ (p ++ q) ++ (r ++ (s ++ t))
    regroup p q r s t =
        ap (λ x. p ++ x) (append_assoc q (r ++ s) t ∙ ap (λ x. q ++ x) (append_assoc r s t))
        ∙ sym (append_assoc p q (r ++ (s ++ t)))

same_colon : (s : Text) → find_colon s ≡ ChatHandler.find_colon s
unfolding find_colon ChatHandler.find_colon
same_colon [] = refl
same_colon (c ∷ s) = rw (same_colon s) refl

same_parts : (s : Text) → id_parts s ≡ ChatHandler.id_parts s
unfolding id_parts ChatHandler.id_parts
same_parts s = rw (same_colon s, id_parts) refl

same_id : (a b : Text) → make_conv_id a b ≡ ChatHandler.make_conv_id a b
unfolding make_conv_id ChatHandler.make_conv_id
same_id a b = refl

receiver_of_lem :
    (v : ChatView) → receiver_of v ≡ ChatHandler.peer_of v.own_user_id v.current_conv_id
unfolding receiver_of ChatHandler.peer_of
receiver_of_lem v = rw (same_parts v.current_conv_id) refl

is_empty-make_conv_id : (a b : Text) → is_empty (make_conv_id a b) ≡ false
unfolding make_conv_id
is_empty-make_conv_id a b = elim (Bool-cases (text_lt a b)) [
  | inl less ↦ rw less (with_colon a b)
  | inr more ↦ rw more (with_colon b a)
]
  where
    with_colon : (x y : Text) → is_empty (x ++ (bytes ":" ++ y)) ≡ false
    with_colon [] y = refl
    with_colon (c ∷ x) y = refl

-- In the conversation of two users whose ids have no colon, a click on Send with a text that is not
-- blank empties the field and sends the trimmed text to the other user, whichever of the two ids is
-- the smaller.
pub on_send_clicked_lem :
    (qt : Qt) (wire : Wire) (v : ChatView) (a : App) (peer : Text)
    → HasNoColon v.own_user_id
    → HasNoColon peer
    → v.current_conv_id ≡ make_conv_id v.own_user_id peer
    → is_empty (qt.trimmed v.input) ≡ false
    → on_send_clicked wire qt v a
      ≡ (record v { input = [] }, send_message wire peer (qt.trimmed v.input) a)
unfolding on_send_clicked
on_send_clicked_lem qt wire v a peer own_plain peer_plain opened filled =
    let to_peer : receiver_of v ≡ peer =
      receiver_of_lem v
      ∙ ap (ChatHandler.peer_of v.own_user_id) (opened ∙ same_id v.own_user_id peer)
      ∙ (peer_of-make_conv_id v.own_user_id peer own_plain peer_plain).0 in
    let named : is_empty v.current_conv_id ≡ false =
      ap is_empty opened ∙ is_empty-make_conv_id v.own_user_id peer in
    rw (named, filled, to_peer) refl

-- A view whose rows begin with `r`, that may have more and waits for none, asks for the messages
-- before the time of `r` when it is scrolled to the top. If that request is answered by an error,
-- the answer changes nothing and announces nothing, and the view, which still waits, asks for no
-- older messages again, wherever it is scrolled to.
pub failed_page :
    (wire : Wire) (v : ChatView) (a b : App) (r : Item) (rest : List Item) (resp : Packet)
    → v.rows ≡ r ∷ rest
    → v.has_more ≡ true
    → v.loading_history ≡ false
    → resp.type ≡ error_response
    → let (v', a') = on_scrolled wire true v a in
      (a' ≡ load_history wire v.current_conv_id r.timestamp a)
      × (history_answered wire v.current_conv_id resp b ≡ b)
      × ((at_top : Bool) → on_scrolled wire at_top v' b ≡ (v', b))
unfolding on_scrolled history_answered
failed_page wire v a b r rest resp shown more idle error = (
  rw (shown, more, idle) refl,
  rw error refl,
  λ at_top. rw (shown, more, idle) (still_waits at_top _ _),
)
  where
    still_waits :
        {A : Type 0} (at_top : Bool) (x y : A) → (if at_top && true && false then x else y) ≡ y
    still_waits true x y = refl
    still_waits false x y = refl
