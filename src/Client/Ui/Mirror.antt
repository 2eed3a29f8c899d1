-- ===== src/Client/Ui/Mirror.antt =====
-- The contact panel keeps its own copy of the contact service's list; here is that they agree.
use nova_chat.Prelude.{◌≡◌, refl, ap, ◌∙◌, sym, some, List, [], ◌∷◌, ◌++◌, filter, not}
use nova_chat.Prelude.Text.{text_eq}
use nova_chat.Codec.{Packet}
use nova_chat.Proto.{Wire}
use nova_chat.Client.App.{App, Event, Callback, contacts_synced, contact_added, contact_deleted}
use nova_chat.Client.EventLoop.{run_callback}
use nova_chat.Client.Told.{
  Told, IsOther, All, others, synced, added, deleted, loaded, pushed, run_callback-Told,
}
use nova_chat.Client.Ui.{Qt}
use nova_chat.Client.Ui.ContactPanel.{
  ContactPanel, populate_list, on_contacts_synced, on_contact_added, on_contact_deleted, take_event,
}

-- The signals that a callback emits, in the panel.
abbrev pub take_events : Qt → List Event → ContactPanel → ContactPanel
take_events qt [] p = p
take_events qt (e ∷ es) p = take_events qt es (take_event qt e p)

pub take_event-other : (qt : Qt) (e : Event) (p : ContactPanel) → IsOther e → take_event qt e p ≡ p
unfolding take_event
take_event-other qt (contacts_synced cs) p h = elim h [ ]
take_event-other qt (contact_added c) p h = elim h [ ]
take_event-other qt (contact_deleted id) p h = elim h [ ]
take_event-other qt e p h = refl

take_events-others :
    (qt : Qt) (es : List Event) (p : ContactPanel) → All IsOther es → take_events qt es p ≡ p
take_events-others qt [] p h = refl
take_events-others qt (e ∷ es) p (o, h) =
    ap (take_events qt es) (take_event-other qt e p o) ∙ take_events-others qt es p h

mirrored :
    (qt : Qt) (a x : App) (p : ContactPanel)
    → Told a x
    → p.contacts ≡ a.contacts
    → (take_events qt x.events p).contacts ≡ x.contacts
unfolding take_event on_contacts_synced on_contact_added on_contact_deleted populate_list
mirrored qt a x p (others user same conv es) h =
    ap (λ (q : ContactPanel). q.contacts) (take_events-others qt x.events p es) ∙ h ∙ sym same
mirrored qt a x p (synced user conv e) h = rw e refl
mirrored qt a x p (added c user grown conv e) h = rw e (ap (λ cs. cs ++ c ∷ []) h ∙ sym grown)
mirrored qt a x p (deleted id user shrunk conv e) h =
    rw e (ap (filter (λ c. not (text_eq c.user_id id))) h ∙ sym shrunk)
mirrored qt a x p (loaded user same e) h = rw e (h ∙ sym same)
mirrored qt a x p (pushed m user same e) h = rw e (h ∙ sym same)

-- Whichever request is answered, and whatever the answer is, the panel shows the same contacts as
-- the service after the signals of the answer, if it did before, nothing waits to be announced
-- then, and the answer was taken.
pub run_callback-mirrored :
    (qt : Qt) (wire : Wire) (cb : Callback) (resp : Packet) (a a' : App) (p : ContactPanel)
    → a.events ≡ []
    → p.contacts ≡ a.contacts
    → run_callback wire cb resp a ≡ some a'
    → (take_events qt a'.events p).contacts ≡ a'.contacts
run_callback-mirrored qt wire cb resp a a' p quiet same run =
    mirrored qt a a' p (run_callback-Told wire cb resp a a' quiet run) same
