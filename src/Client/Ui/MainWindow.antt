-- ===== src/Client/Ui/MainWindow.antt =====
-- client/src/ui/MainWindow.cpp
use nova_chat.Prelude.{ℕ, [], ◌++◌}
use nova_chat.Prelude.Text.{Text, bytes}
use nova_chat.Prelude.Int.{pos}
use nova_chat.Proto.{Wire}
use nova_chat.Client.TcpClient.{
  Signal, connected, disconnected, reconnecting, connection_failed, packet_received,
}
use nova_chat.Client.Db.Tables.{Contact}
use nova_chat.Client.App.{App, User, Event, operation_failed, message_failed, to_string}
use nova_chat.Client.ChatService.{make_conv_id, clear_unread}
use nova_chat.Client.Ui.{Qt, ellipsis, long_dash, full_dot, empty_dot, warning_sign}
use nova_chat.Client.Ui.ChatView.{ChatView, new_view, open_conversation}
use nova_chat.Client.Ui.ChatView
use nova_chat.Client.Ui.ConversationList.{ConversationList, new_list}
use nova_chat.Client.Ui.ConversationList
use nova_chat.Client.Ui.ContactPanel.{ContactPanel, new_panel}
use nova_chat.Client.Ui.ContactPanel
use nova_chat.Client.Ui.SettingsDialog.{SettingsDialog, new_dialog}

-- `indicator` and its `color` are those of `conn_indicator_`, `message` is what the status bar was
-- last told to show, `tab` the index of the left panel's tab.
pub record MainWindow : Type 0 where
  pub user : User
  pub title : Text
  pub indicator : Text
  pub color : Text
  pub message : Text
  pub tab : ℕ
  pub conv_list : ConversationList
  pub contact_panel : ContactPanel
  pub chat_view : ChatView

unfoldable pub show_error : Text → MainWindow → MainWindow
show_error msg w = record w { message = warning_sign ++ msg }

unfoldable pub show_info : Text → MainWindow → MainWindow
show_info msg w = record w { message = msg }

unfoldable pub on_connected : MainWindow → MainWindow
unfolding show_info
on_connected w =
    show_info (bytes "Connection restored")
      (record w { indicator = full_dot ++ bytes " Connected"; color = bytes "color: #07C160;" })

unfoldable pub on_disconnected : MainWindow → MainWindow
unfolding show_error
on_disconnected w =
    show_error (bytes "Connection lost")
      (record w { indicator = full_dot ++ bytes " Disconnected"; color = bytes "color: #E53E3E;" })

unfoldable pub on_connection_failed : MainWindow → MainWindow
unfolding show_error
on_connection_failed w =
    show_error
      (bytes "Unable to connect " ++ (long_dash ++ bytes " restart the application to try again"))
      (record w { indicator = full_dot ++ bytes " Offline"; color = bytes "color: #E53E3E;" })

unfoldable pub on_open_settings : MainWindow → SettingsDialog
unfolding new_dialog
on_open_settings w = new_dialog w.user

module _ (qt : Qt) where
  -- the constructor
  unfoldable pub new_main : User → App → MainWindow
  unfolding new_view new_list new_panel
  new_main user a = record {
    user = user;
    title = qt.arg (bytes "NovaChat " ++ (long_dash ++ bytes " %1")) user.display_name;
    indicator = bytes "Connecting...";
    color = [];
    message = qt.arg (bytes "Logged in as: %1") user.username;
    tab = 0;
    conv_list = new_list qt a;
    contact_panel = new_panel qt a;
    chat_view = new_view user.server_id;
  }

  unfoldable pub on_reconnecting : ℕ → ℕ → MainWindow → MainWindow
  unfolding show_info
  on_reconnecting attempt delay_s w =
      show_info
        (qt.arg
          (qt.arg (bytes "Reconnecting" ++ (ellipsis ++ bytes " attempt %1, retrying in %2s"))
            (to_string (pos attempt)))
          (to_string (pos delay_s)))
        (record w {
          indicator =
              qt.arg (empty_dot ++ bytes " Reconnecting (%1s)...") (to_string (pos delay_s));
          color = bytes "color: #D69E2E;";
        })

  -- the connections of setupStatusBar
  unfoldable pub take_signal : Signal → MainWindow → MainWindow
  unfolding on_connected on_disconnected on_reconnecting on_connection_failed
  take_signal connected w = on_connected w
  take_signal disconnected w = on_disconnected w
  take_signal (reconnecting attempt delay_s) w = on_reconnecting attempt delay_s w
  take_signal connection_failed w = on_connection_failed w
  take_signal (packet_received pkt) w = w

  -- connectServiceErrors
  unfoldable pub on_service_error : Event → MainWindow → MainWindow
  unfolding show_error
  on_service_error (operation_failed msg) w = show_error msg w
  on_service_error (message_failed id) w =
      show_error (bytes "Message failed to send " ++ (long_dash ++ bytes " check your connection"))
        w
  on_service_error other w = w

  -- a signal of a service, in the main window and the widgets that it holds
  unfoldable pub take_event : App → Event → MainWindow → MainWindow
  unfolding on_service_error
  take_event a e w =
      let told = on_service_error e w in
      record told {
        conv_list = ConversationList.take_event qt a e told.conv_list;
        contact_panel = ContactPanel.take_event qt e told.contact_panel;
        chat_view = ChatView.take_event e told.chat_view;
      }

module _ (wire : Wire) where
  unfoldable pub on_conversation_selected : Text → MainWindow → App → MainWindow × App
  unfolding open_conversation
  on_conversation_selected conv_id w a =
      let (view, opened) = open_conversation wire conv_id w.chat_view a in
      (record w { chat_view = view; tab = 0 }, clear_unread wire conv_id opened)

  unfoldable pub on_contact_selected : Contact → MainWindow → App → MainWindow × App
  unfolding open_conversation
  on_contact_selected contact w a =
      let (view, opened) =
        open_conversation wire (make_conv_id w.user.server_id contact.user_id) w.chat_view a in
      (record w { chat_view = view; tab = 0 }, opened)
