-- ===== src/Client/Home.antt =====
-- The windows and the services over a whole run of the client (Client/Process).
use nova_chat.Prelude.{
  ◌≡◌, refl, sym, ap, ◌∙◌, subst, inl, inr, true, Option, none, some, List, [], ◌∷◌, Bool-cases,
}
use nova_chat.Proto.{Wire}
use nova_chat.Client.App.{
  App, User, Event, auth_has_expired, contacts_synced, contact_added, contact_deleted,
  conversations_loaded, message_received, login_succeeded,
}
use nova_chat.Client.Told.{Told, IsOther, All, others, synced, added, deleted, loaded, pushed}
use nova_chat.Client.AuthService
use nova_chat.Client.ContactService
use nova_chat.Client.ChatService
use nova_chat.Client.Ui.{Qt}
use nova_chat.Client.Ui.ContactPanel
use nova_chat.Client.Ui.ContactPanel.{list_entries}
use nova_chat.Client.Ui.ConversationList
use nova_chat.Client.Ui.ChatView
use nova_chat.Client.Ui.LoginWindow
use nova_chat.Client.Ui.LoginWindow.{LoginWindow}
use nova_chat.Client.Ui.MainWindow
use nova_chat.Client.Ui.MainWindow.{MainWindow, new_main, on_service_error}
use nova_chat.Client.Ui.Shown.{Shows, take_events, quiet, Shows-other, Shows-Told}
use nova_chat.Client.Start.{Desktop, launch_main, tell_login, tell_main}
use nova_chat.Client.Process.{tell, tell_all, told}

-- Nothing is left to be told, and either the main window is not open, or it is the only window and
-- shows what the services have.
pub data IsHome (qt : Qt) (d : Desktop) : Type 0 where
  away : d.app.events ≡ [] → d.main ≡ none → IsHome qt d
  home :
      (w : MainWindow)
      → d.app.events ≡ []
      → d.main ≡ some w
      → d.login ≡ none
      → d.launched ≡ true
      → Shows qt d.app w
      → IsHome qt d

-- Qt's trimmed leaves an empty text, as its documentation says.
module _ (qt : Qt) (wire : Wire) (blank : qt.trimmed [] ≡ []) where
  abbrev open_main : Desktop → MainWindow → Desktop
  open_main d w = record d { login = none; main = some w }

  tell-open :
      (e : Event) (d : Desktop) (w : MainWindow)
      → tell qt wire e (open_main d w) ≡ open_main d (MainWindow.take_event qt d.app e w)
  unfolding tell tell_login tell_main MainWindow.take_event on_service_error ContactPanel.take_event
      ConversationList.take_event ChatView.take_event
  tell-open auth_has_expired d w = refl
  tell-open e d w = refl

  tell_all-open :
      (es : List Event) (d : Desktop) (w : MainWindow)
      → tell_all qt wire es (open_main d w) ≡ open_main d (take_events qt d.app es w)
  unfolding tell_all
  tell_all-open [] d w = refl
  tell_all-open (e ∷ es) d w =
      ap (tell_all qt wire es) (tell-open e d w)
      ∙ tell_all-open es d (MainWindow.take_event qt d.app e w)

  pub launch_main-IsHome :
      (user : User) (d : Desktop)
      → d.app.events ≡ []
      → d.login ≡ none
      → IsHome qt (launch_main qt wire user d)
  unfolding launch_main new_main AuthService.new_service ContactService.new_service
      ChatService.new_service
  launch_main-IsHome user d quiet alone = home _ quiet refl alone refl (
    refl,
    refl,
    refl,
    ap (λ s. list_entries qt s (launch_main qt wire user d).app.contacts) (sym blank),
    refl,
  )

  -- a signal of no list, where no main window is open
  tell-away :
      (e : Event) (l : Option LoginWindow) (d : Desktop)
      → d.app.events ≡ []
      → IsHome qt (tell qt wire e (record d { login = l; main = none }))
  unfolding tell tell_login tell_main LoginWindow.take_event launch_main
  tell-away auth_has_expired l d quiet = away quiet refl
  tell-away (login_succeeded user) (some w) d quiet = elim (Bool-cases d.opens_main) [
    | inl opens ↦ rw opens (
        launch_main-IsHome user (record d { login = none; main = none; opens_main = true }) quiet
          refl)
    | inr other ↦ rw other (away quiet refl)
  ]
  tell-away e none d quiet = away quiet refl
  tell-away e (some w) d quiet = away quiet refl

  -- what a desktop with these windows is
  is_open : (d : Desktop) (w : MainWindow) → d.main ≡ some w → d.login ≡ none → open_main d w ≡ d
  is_open d w m l = λ i. record d { login = sym l i; main = sym m i }

  is_away : (d : Desktop) → d.main ≡ none → record d { main = none } ≡ d
  is_away d m = λ i. record d { main = sym m i }

  tell-other : (e : Event) (d : Desktop) → IsOther e → IsHome qt d → IsHome qt (tell qt wire e d)
  tell-other e d o (away quiet m) =
      subst (λ x. IsHome qt (tell qt wire e x)) (is_away d m) (tell-away e d.login d quiet)
  tell-other e d o (home w quiet m l launched s) =
      subst (λ x. IsHome qt (tell qt wire e x)) (is_open d w m l)
        (subst (IsHome qt) (sym (tell-open e d w)) (
          home (MainWindow.take_event qt d.app e w) quiet refl refl launched
            (Shows-other qt d.app d.app e w refl refl refl o s)))

  tell_all-others :
      (es : List Event) (d : Desktop)
      → All IsOther es
      → IsHome qt d
      → IsHome qt (tell_all qt wire es d)
  unfolding tell_all
  tell_all-others [] d o h = h
  tell_all-others (e ∷ es) d (o, os) h =
      tell_all-others es (tell qt wire e d) os (tell-other e d o h)

  -- What a slot of the open window, or one that runs beside it, leaves.
  pub told-open :
      (a : App) (d : Desktop) (w : MainWindow)
      → Told a d.app
      → Shows qt a w
      → d.main ≡ some w
      → d.login ≡ none
      → d.launched ≡ true
      → IsHome qt (told qt wire d)
  unfolding told
  told-open a d w t s m l launched =
      let d0 : Desktop = record d { app = quiet d.app } in
      subst (λ x. IsHome qt (tell_all qt wire d.app.events x)) (is_open d0 w m l)
        (subst (IsHome qt) (sym (tell_all-open d.app.events d0 w))
          (home _ refl refl refl launched (Shows-Told qt a d.app d.app.events w t refl s)))

  one :
      (d : Desktop) (e : Event) → d.app.events ≡ e ∷ [] → d.main ≡ none → IsHome qt (told qt wire d)
  unfolding told tell_all
  one d e h m =
      let d0 : Desktop = record d { app = quiet d.app } in
      subst (λ es. IsHome qt (tell_all qt wire es d0)) (sym h)
        (subst (λ x. IsHome qt (tell qt wire e x)) (is_away d0 m) (tell-away e d.login d0 refl))

  pub told-away :
      (a : App) (d : Desktop) → Told a d.app → d.main ≡ none → IsHome qt (told qt wire d)
  unfolding told tell_all
  told-away a d (others user same conv o) m =
      tell_all-others d.app.events (record d { app = quiet d.app }) o (away refl m)
  told-away a d (synced user conv e) m = one d (contacts_synced d.app.contacts) e m
  told-away a d (added c user grown conv e) m = one d (contact_added c) e m
  told-away a d (deleted id user shrunk conv e) m = one d (contact_deleted id) e m
  told-away a d (loaded user same e) m = one d (conversations_loaded d.app.conversations) e m
  told-away a d (pushed msg user same e) m = one d (message_received msg) e m
