-- ===== src/Client/Ui/AddFriendDialog.antt =====
-- client/src/ui/AddFriendDialog.h and AddFriendDialog.cpp
use nova_chat.Prelude.{
  ℕ, zero, suc, Bool, true, false, Option, none, some, List, [], ◌∷◌, map, length, if◌then◌else◌,
}
use nova_chat.Prelude.Text.{Text, bytes, is_empty}
use nova_chat.Prelude.Int.{ℤ, pos, negsuc}
use nova_chat.Proto.{Wire}
use nova_chat.Client.Db.Tables.{Contact}
use nova_chat.Client.App.{App, Event, search_result, operation_failed, contact_added, to_string}
use nova_chat.Client.ContactService.{search_user, add_friend}
use nova_chat.Client.Ui.{Qt}

-- `search` is the text of `search_edit_`, `items` the rows of `result_list_`, `can_add` says whether
-- `add_btn_` is enabled, `status` is the text of `status_label_`.
pub record AddFriendDialog : Type 0 where
  pub search : Text
  pub results : List Contact
  pub items : List Text
  pub can_add : Bool
  pub status : Text

abbrev pub new_dialog : AddFriendDialog
new_dialog = record { search = []; results = []; items = []; can_add = false; status = [] }

-- results_[row]
unfoldable pub get_elem? : List Contact → ℕ → Option Contact
get_elem? [] i = none
get_elem? (c ∷ cs) zero = some c
get_elem? (c ∷ cs) (suc i) = get_elem? cs i

-- the slot of currentRowChanged; Qt decides when the current row changes
unfoldable pub on_row_changed : ℤ → AddFriendDialog → AddFriendDialog
on_row_changed (pos row) d = record d { can_add = true }
on_row_changed (negsuc row) d = record d { can_add = false }

unfoldable pub on_operation_failed : Text → AddFriendDialog → AddFriendDialog
on_operation_failed reason d = record d { status = reason; can_add = true }

-- the slot of contactAdded
unfoldable pub on_contact_added : AddFriendDialog → AddFriendDialog
on_contact_added d = record d { status = bytes "Friend added successfully!"; can_add = false }

module _ (qt : Qt) where
  unfoldable pub item_text : Contact → Text
  item_text u = qt.arg (qt.arg (bytes "%1  (%2)") u.display_name) u.username

  -- on an empty answer `return` leaves the cleared list
  unfoldable pub on_search_result : List Contact → AddFriendDialog → AddFriendDialog
  unfolding item_text
  on_search_result [] d = record d {
    results = [];
    items = [];
    status = bytes "No matching users found";
  }
  on_search_result (u ∷ us) d = record d {
    results = u ∷ us;
    items = map item_text (u ∷ us);
    status = qt.arg (bytes "Found %1 user(s)") (to_string (pos (length (u ∷ us))));
  }

  -- the connections of the constructor
  unfoldable pub take_event : Event → AddFriendDialog → AddFriendDialog
  unfolding on_search_result on_operation_failed on_contact_added
  take_event (search_result users) d = on_search_result users d
  take_event (operation_failed reason) d = on_operation_failed reason d
  take_event (contact_added contact) d = on_contact_added d
  take_event other d = d

  module _ (wire : Wire) where
    unfoldable pub on_search_clicked : AddFriendDialog → App → AddFriendDialog × App
    on_search_clicked d a =
        let kw = qt.trimmed d.search in
        if is_empty kw then (d, a) else (
          record d { results = []; items = []; can_add = false; status = bytes "Searching..." },
          search_user wire kw a,
        )

module _ (wire : Wire) where
  -- `none` is a row of the list that `results_` does not have, where the guard returns
  abbrev pub add_row : Option Contact → AddFriendDialog → App → AddFriendDialog × App
  add_row none d a = (d, a)
  add_row (some c) d a =
      (record d { can_add = false; status = bytes "Adding..." }, add_friend wire c.user_id a)

  -- the row is result_list_->currentRow(), -1 where there is none
  unfoldable pub on_add_clicked : ℤ → AddFriendDialog → App → AddFriendDialog × App
  unfolding get_elem?
  on_add_clicked (negsuc row) d a = (d, a)
  on_add_clicked (pos row) d a = add_row (get_elem? d.results row) d a
