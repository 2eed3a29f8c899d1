-- ===== src/Client/Runs.antt =====
-- Every step of the client (Client/Process) leaves its windows and services in agreement.
mod Acts
use nova_chat.Prelude.{◌≡◌, refl, sym, ◌∙◌, subst, Option, none, some, []}
use mathlib.Core.Option.{some-injective}
use nova_chat.Proto.{Wire}
use nova_chat.Client.TcpClient.{Signal, TcpClient}
use nova_chat.Client.Db.Tables.{LocalAccount}
use nova_chat.Client.Db.Users
use nova_chat.Client.App.{App, Callback}
use nova_chat.Client.EventLoop.{run_next}
use nova_chat.Client.Config.{AppConfig}
use nova_chat.Client.AuthService
use nova_chat.Client.Ui.{Qt}
use nova_chat.Client.Ui.MainWindow.{MainWindow}
use nova_chat.Client.Ui.MainWindow
use nova_chat.Client.Ui.Shown.{Shows}
use nova_chat.Client.Start.{
  Desktop, user_of, take_signal, handle_auth_expired, on_logout, start, select_window, open_window,
}
use nova_chat.Client.Process.{
  told, Step, handles_io, runs_callback, takes_signal, token_expired, fills_login, clicks_login,
  registers, acts, logs_out, Run, done, more,
}
use nova_chat.Client.Home.{IsHome, away, home, told-open, told-away, launch_main-IsHome}
use nova_chat.Client.Runs.Acts.{
  take_signal-Told, Shows-take_signal, run_first-Told, on_login_clicked-Told,
  on_register_clicked-Told, logout-Told, by_act,
}

IsHome-quiet : (qt : Qt) (d : Desktop) → IsHome qt d → d.app.events ≡ []
IsHome-quiet qt d (away quiet m) = quiet
IsHome-quiet qt d (home w quiet m l launched s) = quiet

module _ (qt : Qt) (wire : Wire) (blank : qt.trimmed [] ≡ []) where
  signal-IsHome :
      (s : Signal) (d : Desktop) → IsHome qt d → IsHome qt (told qt wire (take_signal qt wire s d))
  unfolding take_signal
  signal-IsHome s d (away quiet m) =
      told-away qt wire blank d.app (take_signal qt wire s d) (take_signal-Told qt wire s d quiet)
        (rw m refl)
  signal-IsHome s d (home w quiet m l launched h) =
      told-open qt wire blank d.app (take_signal qt wire s d) (MainWindow.take_signal qt s w)
        (take_signal-Told qt wire s d quiet) (Shows-take_signal qt d.app s w h) (rw m refl) l
        launched

  Step-IsHome : {d e : Desktop} → Step qt wire d e → IsHome qt d → IsHome qt e
  unfolding run_next handle_auth_expired on_logout
  Step-IsHome {d} (handles_io e) (away quiet m) = away quiet m
  Step-IsHome {d} (handles_io e) (home w quiet m l launched s) = home w quiet m l launched s
  Step-IsHome {d} (runs_callback a ran) (away quiet m) =
      told-away qt wire blank d.app (record d { app = a })
        (run_first-Told wire d.app.tcp.queued d.app a quiet ran) m
  Step-IsHome {d} (runs_callback a ran) (home w quiet m l launched s) =
      told-open qt wire blank d.app (record d { app = a }) w
        (run_first-Told wire d.app.tcp.queued d.app a quiet ran) s m l launched
  Step-IsHome {d} (takes_signal s rest e) (away quiet m) = signal-IsHome s _ (away quiet m)
  Step-IsHome {d} (takes_signal s rest e) (home w quiet m l launched h) =
      signal-IsHome s _ (home w quiet m l launched h)
  Step-IsHome {d} (token_expired launched) h = away (IsHome-quiet qt d h) refl
  Step-IsHome {d} (fills_login w username password e) (away quiet m) = away quiet m
  Step-IsHome {d} (fills_login w username password e) (home v quiet m l launched s) = cc
  Step-IsHome {d} (clicks_login w e) (away quiet m) =
      told-away qt wire blank d.app _ (on_login_clicked-Told qt wire w d.app quiet) m
  Step-IsHome {d} (clicks_login w e) (home v quiet m l launched s) = cc
  Step-IsHome {d} (registers w dialog e) (away quiet m) =
      told-away qt wire blank d.app _ (on_register_clicked-Told qt wire dialog d.app quiet) m
  Step-IsHome {d} (registers w dialog e) (home v quiet m l launched s) = cc
  Step-IsHome {d} (acts w what e) (away quiet m) = cc
  Step-IsHome {d} (acts w what e) (home v quiet m l launched s) =
      let here = subst (Shows qt d.app) (some-injective v w (sym m ∙ e)) s in
      let (t, shown) = by_act qt wire d.app w quiet here what in
      told-open qt wire blank d.app _ _ t shown refl l launched
  Step-IsHome {d} (logs_out w e) h =
      told-away qt wire blank d.app (on_logout qt wire d)
        (logout-Told wire d.app (IsHome-quiet qt d h)) refl

  Run-keeps : {d e : Desktop} → Run qt wire d e → IsHome qt d → IsHome qt e
  Run-keeps done h = h
  Run-keeps (more st r) h = Run-keeps r (Step-IsHome st h)

  open_window-IsHome :
      (o : Option LocalAccount) (d : Desktop)
      → d.app.events ≡ []
      → d.login ≡ none
      → d.main ≡ none
      → IsHome qt (open_window qt wire o d)
  unfolding open_window AuthService.new_service
  open_window-IsHome (some active) d quiet l m =
      launch_main-IsHome qt wire blank (user_of active) d quiet l
  open_window-IsHome none d quiet l m = away quiet m

  connecting :
      (d : Desktop) (tcp : TcpClient Callback)
      → IsHome qt d
      → IsHome qt (record d { app = record d.app { tcp = tcp } })
  connecting d tcp (away quiet m) = away quiet m
  connecting d tcp (home w quiet m l launched s) = home w quiet m l launched s

  -- Whatever happens after the client's start, in whatever order, nothing that a service announced is
  -- left untold between two steps, and where the main window is open it is the only window: it is
  -- the window of the user whom the services act for, who is also the one whose messages its chat view
  -- takes for outgoing; its contact panel lists the contacts that the contact service has and its
  -- search lets through; and its conversation list lists the conversations that the chat service has.
  -- Qt's trimmed leaves an empty text.
  pub Run-IsHome :
      (config : AppConfig) (a : App) (d : Desktop)
      → a.events ≡ []
      → Run qt wire (start qt wire config a) d
      → IsHome qt d
  unfolding start select_window
  Run-IsHome config a d quiet r =
      Run-keeps r (connecting _ _ (open_window-IsHome (Users.find_active a.db) _ quiet refl refl))
