-- ===== src/Client/Ui/Shown.antt =====
-- What the main window shows of the services, through the signals that they emit.
use nova_chat.Prelude.{◌≡◌, refl, sym, ap, ◌∙◌, List, [], ◌∷◌, ◌++◌, map, filter, not}
use nova_chat.Prelude.Branches.{either}
use nova_chat.Prelude.Text.{text_eq}
use nova_chat.Client.App.{
  App, User, Event, contacts_synced, contact_added, contact_deleted, conversations_loaded,
  message_received, history_loaded, message_sent, operation_failed, message_failed,
}
use nova_chat.Client.Told.{Told, IsOther, All, others, synced, added, deleted, loaded, pushed}
use nova_chat.Client.Ui.{Qt}
use nova_chat.Client.Ui.Mirror.{take_event-other}
use nova_chat.Client.Ui.ConversationList
use nova_chat.Client.Ui.ConversationList.{entry_of, refresh}
use nova_chat.Client.Ui.ContactPanel
use nova_chat.Client.Ui.ContactPanel.{
  ContactPanel, list_entries, populate_list, on_contacts_synced, on_contact_added,
  on_contact_deleted,
}
use nova_chat.Client.Ui.ChatView
use nova_chat.Client.Ui.MainWindow
use nova_chat.Client.Ui.MainWindow.{MainWindow, new_main, on_service_error, show_error}

-- What the window shows is what the services have: it is the window of the user whom they act for,
-- its contact panel lists their contacts that the search lets through, and its conversation list
-- their conversations.
abbrev pub Shows : Qt → App → MainWindow → Type 0
Shows qt a w =
    (w.user ≡ a.current_user)
    × (w.chat_view.own_user_id ≡ a.current_user.server_id)
    × (w.contact_panel.contacts ≡ a.contacts)
    × (w.contact_panel.entries ≡ list_entries qt (qt.trimmed w.contact_panel.search) a.contacts)
    × (w.conv_list.entries ≡ map (entry_of qt) a.conversations)

-- No signal gives the chat view another owner.
own-take_event :
    (e : Event) (v : ChatView.ChatView) → (ChatView.take_event e v).own_user_id ≡ v.own_user_id
unfolding ChatView.take_event ChatView.on_history_loaded ChatView.on_message_received
    ChatView.on_message_sent ChatView.append_message
own-take_event (history_loaded id ms more) v =
    either (λ (u : ChatView.ChatView). u.own_user_id ≡ v.own_user_id)
      (not (text_eq id v.current_conv_id)) refl refl
own-take_event (message_received m) v =
    either (λ (u : ChatView.ChatView). u.own_user_id ≡ v.own_user_id)
      (not (text_eq m.conversation_id v.current_conv_id)) refl refl
own-take_event (message_sent m) v =
    either (λ (u : ChatView.ChatView). u.own_user_id ≡ v.own_user_id)
      (not (text_eq m.conversation_id v.current_conv_id)) refl refl
own-take_event e v = refl

-- The status bar is all that showError changes.
told_window :
    (qt : Qt) (e : Event) (w : MainWindow)
    → ((on_service_error qt e w).user ≡ w.user)
      × ((on_service_error qt e w).chat_view ≡ w.chat_view)
      × ((on_service_error qt e w).contact_panel ≡ w.contact_panel)
      × ((on_service_error qt e w).conv_list ≡ w.conv_list)
unfolding on_service_error show_error
told_window qt (operation_failed msg) w = (refl, refl, refl, refl)
told_window qt (message_failed id) w = (refl, refl, refl, refl)
told_window qt e w = (refl, refl, refl, refl)

-- What a signal leaves of the window, by what it does to the two lists.
Shows-take_event :
    (qt : Qt) (a x : App) (e : Event) (w : MainWindow)
    → x.current_user ≡ a.current_user
    → Shows qt a w
    → (let p : ContactPanel = ContactPanel.take_event qt e w.contact_panel in
        (p.contacts ≡ x.contacts) × (p.entries ≡ list_entries qt (qt.trimmed p.search) x.contacts))
    → (ConversationList.take_event qt x e w.conv_list).entries ≡ map (entry_of qt) x.conversations
    → Shows qt x (MainWindow.take_event qt x e w)
unfolding MainWindow.take_event
Shows-take_event qt a x e w same (user, own, contacts, entries, convs) panel list =
    let (u, v, p, c) = told_window qt e w in
    (
      u ∙ user ∙ sym same,
      own-take_event e (on_service_error qt e w).chat_view
          ∙ ap (λ (s : ChatView.ChatView). s.own_user_id) v
          ∙ own
          ∙ ap (λ (s : User). s.server_id) (sym same),
      rw p panel.0,
      rw p panel.1,
      rw c list,
    )

list-other :
    (qt : Qt) (x : App) (e : Event) (l : ConversationList.ConversationList)
    → IsOther e
    → ConversationList.take_event qt x e l ≡ l
unfolding ConversationList.take_event
list-other qt x (conversations_loaded cs) l o = elim o [ ]
list-other qt x (message_received m) l o = elim o [ ]
list-other qt x e l o = refl

-- A signal of no list leaves both lists.
pub Shows-other :
    (qt : Qt) (a x : App) (e : Event) (w : MainWindow)
    → x.current_user ≡ a.current_user
    → x.contacts ≡ a.contacts
    → x.conversations ≡ a.conversations
    → IsOther e
    → Shows qt a w
    → Shows qt x (MainWindow.take_event qt x e w)
Shows-other qt a x e w user contacts convs o s =
    Shows-take_event qt a x e w user s
      (rw (take_event-other qt e w.contact_panel o) (
        s.2 ∙ sym contacts,
        s.3 ∙ ap (list_entries qt (qt.trimmed w.contact_panel.search)) (sym contacts),
      ))
      (rw (list-other qt x e w.conv_list o) (s.4 ∙ ap (map (entry_of qt)) (sym convs)))

-- the signals one after the other
abbrev pub take_events : Qt → App → List Event → MainWindow → MainWindow
take_events qt x [] w = w
take_events qt x (e ∷ es) w = take_events qt x es (MainWindow.take_event qt x e w)

pub Shows-others :
    (qt : Qt) (x : App) (es : List Event) (w : MainWindow)
    → All IsOther es
    → Shows qt x w
    → Shows qt x (take_events qt x es w)
Shows-others qt x [] w o s = s
Shows-others qt x (e ∷ es) w (o, os) s =
    Shows-others qt x es (MainWindow.take_event qt x e w) os
      (Shows-other qt x x e w refl refl refl o s)

abbrev pub quiet : App → App
quiet x = record x { events = [] }

-- What the services come to is shown once their signals are taken.
pub Shows-Told :
    (qt : Qt) (a x : App) (es : List Event) (w : MainWindow)
    → Told a x
    → es ≡ x.events
    → Shows qt a w
    → Shows qt (quiet x) (take_events qt (quiet x) es w)
unfolding ContactPanel.take_event ConversationList.take_event refresh on_contacts_synced
    on_contact_added on_contact_deleted populate_list
Shows-Told qt a x es w (others user same conv o) h s = Shows-others qt (quiet x) es w (rw h o) (
  s.0 ∙ sym user,
  s.1 ∙ ap (λ (u : User). u.server_id) (sym user),
  s.2 ∙ sym same,
  s.3 ∙ ap (list_entries qt (qt.trimmed w.contact_panel.search)) (sym same),
  s.4 ∙ ap (map (entry_of qt)) (sym conv),
)
Shows-Told qt a x es w (synced user conv e) h s = rw (h ∙ e) (
    Shows-take_event qt a (quiet x) (contacts_synced x.contacts) w user s (refl, refl)
      (s.4 ∙ ap (map (entry_of qt)) (sym conv)))
Shows-Told qt a x es w (added c user grown conv e) h s =
    let now = ap (λ cs. cs ++ c ∷ []) s.2 ∙ sym grown in
    rw (h ∙ e) (
      Shows-take_event qt a (quiet x) (contact_added c) w user s
        (now, ap (list_entries qt (qt.trimmed w.contact_panel.search)) now)
        (s.4 ∙ ap (map (entry_of qt)) (sym conv)))
Shows-Told qt a x es w (deleted id user shrunk conv e) h s =
    let now = ap (filter (λ c. not (text_eq c.user_id id))) s.2 ∙ sym shrunk in
    rw (h ∙ e) (
      Shows-take_event qt a (quiet x) (contact_deleted id) w user s
        (now, ap (list_entries qt (qt.trimmed w.contact_panel.search)) now)
        (s.4 ∙ ap (map (entry_of qt)) (sym conv)))
Shows-Told qt a x es w (loaded user same e) h s = rw (h ∙ e) (
    Shows-take_event qt a (quiet x) (conversations_loaded x.conversations) w user s
      (s.2 ∙ sym same, s.3 ∙ ap (list_entries qt (qt.trimmed w.contact_panel.search)) (sym same))
      refl)
Shows-Told qt a x es w (pushed m user same e) h s = rw (h ∙ e) (
    Shows-take_event qt a (quiet x) (message_received m) w user s
      (s.2 ∙ sym same, s.3 ∙ ap (list_entries qt (qt.trimmed w.contact_panel.search)) (sym same))
      refl)
