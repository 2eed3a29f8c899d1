-- ===== src/Client/Ui/ContactPanel.antt =====
-- client/src/ui/ContactPanel.h and ContactPanel.cpp
use nova_chat.Prelude.{
  Bool, not, ◌&&◌, Option, none, some, List, [], ◌∷◌, ◌++◌, filter, length, if◌then◌else◌,
}
use nova_chat.Prelude.Text.{Text, bytes, text_eq, is_empty}
use nova_chat.Prelude.Int.{pos}
use nova_chat.Proto.{Wire}
use nova_chat.Client.Db.Tables.{Contact}
use nova_chat.Client.App.{App, Event, contacts_synced, contact_added, contact_deleted, to_string}
use nova_chat.Client.ContactService.{delete_friend}
use nova_chat.Client.Ui.{Qt}

-- A row of the list: what is shown, and the data under Qt::UserRole.
pub record Entry : Type 0 where
  pub label : Text
  pub user_id : Text

-- `search` is the text of `search_edit_`, `count` that of `count_label_`.
pub record ContactPanel : Type 0 where
  pub contacts : List Contact
  pub search : Text
  pub entries : List Entry
  pub count : Text

module _ (qt : Qt) where
  -- what makes populateList go on to the next contact
  unfoldable pub is_hidden : Text → Contact → Bool
  is_hidden filter_text c =
      not (is_empty filter_text)
      && not (qt.contains_insensitive c.display_name filter_text)
      && not (qt.contains_insensitive c.username filter_text)

  -- the loop of populateList
  unfoldable pub list_entries : Text → List Contact → List Entry
  unfolding is_hidden
  list_entries filter_text [] = []
  list_entries filter_text (c ∷ cs) =
      let later = list_entries filter_text cs in
      if is_hidden filter_text c
      then later
      else (record {
        label = qt.arg_two (bytes "%1\n%2") c.display_name c.username;
        user_id = c.user_id;
      })
        ∷ later

  unfoldable pub populate_list : Text → ContactPanel → ContactPanel
  unfolding list_entries
  populate_list filter_text p = record p {
    entries = list_entries filter_text p.contacts;
    count = qt.arg (bytes "%1 contact(s)") (to_string (pos (length p.contacts)));
  }

  -- the constructor
  unfoldable pub new_panel : App → ContactPanel
  unfolding populate_list
  new_panel a =
      populate_list [] (record { contacts = a.contacts; search = []; entries = []; count = [] })

  unfoldable pub on_search_changed : Text → ContactPanel → ContactPanel
  unfolding populate_list
  on_search_changed text p = populate_list (qt.trimmed text) (record p { search = text })

  unfoldable pub on_contacts_synced : List Contact → ContactPanel → ContactPanel
  unfolding populate_list
  on_contacts_synced contacts p =
      populate_list (qt.trimmed p.search) (record p { contacts = contacts })

  unfoldable pub on_contact_added : Contact → ContactPanel → ContactPanel
  unfolding populate_list
  on_contact_added contact p =
      populate_list (qt.trimmed p.search) (record p { contacts = p.contacts ++ contact ∷ [] })

  unfoldable pub on_contact_deleted : Text → ContactPanel → ContactPanel
  unfolding populate_list
  on_contact_deleted user_id p =
      populate_list (qt.trimmed p.search)
        (record p { contacts = filter (λ c. not (text_eq c.user_id user_id)) p.contacts })

  -- the connections of the constructor
  unfoldable pub take_event : Event → ContactPanel → ContactPanel
  unfolding on_contacts_synced on_contact_added on_contact_deleted
  take_event (contacts_synced contacts) p = on_contacts_synced contacts p
  take_event (contact_added contact) p = on_contact_added contact p
  take_event (contact_deleted user_id) p = on_contact_deleted user_id p
  take_event other p = p

-- the loop of onItemDoubleClicked
unfoldable pub find_contact : Text → List Contact → Option Contact
find_contact uid [] = none
find_contact uid (c ∷ cs) = if text_eq c.user_id uid then some c else find_contact uid cs

-- onItemDoubleClicked: the contact that contactSelected is emitted with
unfoldable pub selected : Entry → ContactPanel → Option Contact
unfolding find_contact
selected item p = find_contact item.user_id p.contacts

module _ (wire : Wire) where
  -- the action of the context menu, after the user's answer to the question
  unfoldable pub on_remove_friend : Bool → Entry → App → App
  on_remove_friend agreed item a = if agreed then delete_friend wire item.user_id a else a
