-- ===== src/Client/Runs/Acts.antt =====
-- What an act of the user, an answer or a signal makes the services tell, and what the main window
-- then shows.
use nova_chat.Prelude.{
  ◌≡◌, refl, ap, subst, Bool, not, ◌&&◌, ◌||◌, Option, none, some, List, [], ◌∷◌,
}
use mathlib.Core.Option.{some-injective}
use nova_chat.Prelude.Branches.{either}
use nova_chat.Prelude.Text.{is_empty, text_eq}
use nova_chat.Prelude.Int.{ℤ, pos, negsuc}
use nova_chat.Codec.{Packet}
use nova_chat.Proto.{Wire}
use nova_chat.Client.TcpClient.{
  Signal, connected, disconnected, reconnecting, connection_failed, packet_received, TcpClient,
}
use nova_chat.Client.Db.Tables.{Contact}
use nova_chat.Client.App.{App, Callback, request}
use nova_chat.Client.Told.{
  Told, others, synced, added, deleted, loaded, pushed, run_callback-Told, by_signal,
}
use nova_chat.Client.EventLoop.{run_first, run_next}
use nova_chat.Client.EventLoop
use nova_chat.Client.AuthService.{login, logout, register_user}
use nova_chat.Client.ContactService.{search_user, add_friend, delete_friend, sync_contacts}
use nova_chat.Client.ChatService.{load_history, send_message, clear_unread, sync_conversations}
use nova_chat.Client.Ui.{Qt}
use nova_chat.Client.Ui.ChatView.{
  ChatView, Item, open_conversation, on_scrolled, on_send_clicked, on_key,
}
use nova_chat.Client.Ui.ContactPanel.{
  on_search_changed, on_remove_friend, populate_list, list_entries,
}
use nova_chat.Client.Ui.AddFriendDialog.{
  AddFriendDialog, get_elem?, add_row, on_search_clicked, on_add_clicked,
}
use nova_chat.Client.Ui.RegisterDialog.{RegisterDialog, on_register_clicked}
use nova_chat.Client.Ui.LoginWindow.{LoginWindow, on_login_clicked}
use nova_chat.Client.Ui.MainWindow.{
  MainWindow, on_disconnected, on_reconnecting, on_connection_failed, show_info, show_error,
  on_conversation_selected, on_contact_selected,
}
use nova_chat.Client.Ui.MainWindow
use nova_chat.Client.Ui.Shown.{Shows}
use nova_chat.Client.Start.{Desktop, take_signal, on_connected}
use nova_chat.Client.Process.{
  Act, selects_conversation, selects_contact, types, scrolls, clicks_send, presses,
  searches_contacts, removes_friend, searches_user, adds_friend, act, in_view,
}

module _ (a : App) (quiet : a.events ≡ []) where
  idle : Told a a
  idle = others refl refl refl (rw quiet tt)

  -- a request changes nothing but the connection
  asked : {tcp : TcpClient Callback} → Told a (record a { tcp = tcp })
  asked = others refl refl refl (rw quiet tt)

module _ (qt : Qt) (wire : Wire) where
  -- A slot of the main window asks the services for something or not, and leaves the lists.
  abbrev Leaves : App → MainWindow → MainWindow × App → Type 0
  Leaves a w r = Told a r.1 × Shows qt a r.0

  module _ (a : App) (w : MainWindow) (quiet : a.events ≡ []) (s : Shows qt a w) where
    by_scroll :
        (at_top : Bool) (rows : List Item)
        → Leaves a w (in_view w (on_scrolled wire at_top (record w.chat_view { rows = rows }) a))
    unfolding on_scrolled load_history request
    by_scroll at_top [] = ((idle a quiet), s)
    by_scroll at_top (r ∷ rows) =
        either (λ r. Leaves a w (in_view w r))
          (at_top && w.chat_view.has_more && not w.chat_view.loading_history) ((asked a quiet), s)
          ((idle a quiet), s)

    by_send : Leaves a w (in_view w (on_send_clicked wire qt w.chat_view a))
    unfolding on_send_clicked send_message request
    by_send =
        either (λ r. Leaves a w (in_view w r)) (is_empty w.chat_view.current_conv_id)
          ((idle a quiet), s)
          (either (λ r. Leaves a w (in_view w r)) (is_empty (qt.trimmed w.chat_view.input))
            ((idle a quiet), s) (others refl refl refl (rw quiet (tt, tt)), s))

    by_row : (o : Option Contact) (dialog : AddFriendDialog) → Told a (add_row wire o dialog a).1
    unfolding add_friend request
    by_row none dialog = (idle a quiet)
    by_row (some c) dialog = (asked a quiet)

    by_add : (row : ℤ) (dialog : AddFriendDialog) → Told a (on_add_clicked wire row dialog a).1
    unfolding on_add_clicked
    by_add (negsuc row) dialog = (idle a quiet)
    by_add (pos row) dialog = by_row (get_elem? dialog.results row) dialog

    pub by_act : (what : Act) → Leaves a w (act qt wire what w a)
    unfolding act on_conversation_selected on_contact_selected open_conversation load_history
        clear_unread request on_search_changed populate_list on_key on_remove_friend delete_friend
        on_search_clicked search_user
    by_act (selects_conversation id) = (others refl refl refl (rw quiet tt), s)
    by_act (selects_contact c) = ((asked a quiet), s)
    by_act (types text) = ((idle a quiet), s)
    by_act (scrolls at_top) = by_scroll at_top w.chat_view.rows
    by_act clicks_send = by_send
    by_act (presses is_return shift) =
        either (λ (r : Bool × (ChatView × App)). Leaves a w (in_view w r.1))
          (is_return && not shift) by_send ((idle a quiet), s)
    by_act (searches_contacts text) =
        ((idle a quiet), (s.0, s.1, s.2, ap (list_entries qt (qt.trimmed text)) s.2, s.4))
    by_act (removes_friend agreed item) = (either (Told a) agreed (asked a quiet) (idle a quiet), s)
    by_act (searches_user dialog) = (
      either (λ (r : AddFriendDialog × App). Told a r.1) (is_empty (qt.trimmed dialog.search))
          (idle a quiet) (asked a quiet),
      s,
    )
    by_act (adds_friend row dialog) = (by_add row dialog, s)

again : (a x : App) (tcp : TcpClient Callback) → Told (record a { tcp = tcp }) x → Told a x
again a x tcp (others user same conv o) = others user same conv o
again a x tcp (synced user conv e) = synced user conv e
again a x tcp (added c user grown conv e) = added c user grown conv e
again a x tcp (deleted id user shrunk conv e) = deleted id user shrunk conv e
again a x tcp (loaded user same e) = loaded user same e
again a x tcp (pushed m user same e) = pushed m user same e

pub run_first-Told :
    (wire : Wire) (posted : List (Callback × Packet)) (a x : App)
    → a.events ≡ []
    → run_first wire posted a ≡ some x
    → Told a x
unfolding run_first
run_first-Told wire [] a x quiet h = subst (Told a) (some-injective a x h) (idle a quiet)
run_first-Told wire ((cb, pkt) ∷ rest) a x quiet h =
    again a x (record a.tcp { queued = rest })
      (run_callback-Told wire cb pkt (record a { tcp = record a.tcp { queued = rest } }) x quiet h)

-- What a signal of TcpClient does to the services, those of launch_main or none.
pub take_signal-Told :
    (qt : Qt) (wire : Wire) (s : Signal) (d : Desktop)
    → d.app.events ≡ []
    → Told d.app (take_signal qt wire s d).app
unfolding take_signal on_connected EventLoop.take_signal sync_contacts sync_conversations request
take_signal-Told qt wire connected d quiet =
    either (Told d.app) d.launched (asked d.app quiet) (idle d.app quiet)
take_signal-Told qt wire (packet_received pkt) d quiet =
    either (Told d.app) d.launched (by_signal wire d.app quiet (packet_received pkt))
      (idle d.app quiet)
take_signal-Told qt wire s d quiet =
    either (Told d.app) d.launched (idle d.app quiet) (idle d.app quiet)

pub Shows-take_signal :
    (qt : Qt) (a : App) (s : Signal) (w : MainWindow)
    → Shows qt a w
    → Shows qt a (MainWindow.take_signal qt s w)
unfolding MainWindow.take_signal MainWindow.on_connected on_disconnected on_reconnecting
    on_connection_failed show_info show_error
Shows-take_signal qt a connected w h = h
Shows-take_signal qt a disconnected w h = h
Shows-take_signal qt a (reconnecting attempt delay) w h = h
Shows-take_signal qt a connection_failed w h = h
Shows-take_signal qt a (packet_received pkt) w h = h

pub on_login_clicked-Told :
    (qt : Qt) (wire : Wire) (w : LoginWindow) (a : App)
    → a.events ≡ []
    → Told a (on_login_clicked qt wire w a).1
unfolding on_login_clicked login request
on_login_clicked-Told qt wire w a quiet =
    either (λ (r : LoginWindow × App). Told a r.1)
      (is_empty (qt.trimmed w.username) || is_empty w.password) (idle a quiet) (asked a quiet)

pub on_register_clicked-Told :
    (qt : Qt) (wire : Wire) (dialog : RegisterDialog) (a : App)
    → a.events ≡ []
    → Told a (on_register_clicked qt wire dialog a).1
unfolding on_register_clicked register_user request
on_register_clicked-Told qt wire dialog a quiet =
    either (λ (r : RegisterDialog × App). Told a r.1)
      (is_empty (qt.trimmed dialog.username) || is_empty dialog.password) (idle a quiet)
      (either (λ (r : RegisterDialog × App). Told a r.1)
        (not (text_eq dialog.password dialog.confirm)) (idle a quiet) (asked a quiet))

pub logout-Told : (wire : Wire) (a : App) → a.events ≡ [] → Told a (logout wire a)
unfolding logout
logout-Told wire a quiet =
    either (Told a) (is_empty a.auth_user.token) (idle a quiet)
      (others refl refl refl (rw quiet (tt, tt)))
