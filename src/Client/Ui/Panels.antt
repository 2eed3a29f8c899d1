-- ===== src/Client/Ui/Panels.antt =====
-- The contact panel beside the contact service, and the rows that the friend dialog adds.
use nova_chat.Prelude.{
  ℕ, zero, suc, ◌<◌, ◌≡◌, ◌⊎◌, refl, subst, append_assoc, inl, inr, true, some, List, [], ◌∷◌, ◌++◌,
  All, length, arith, Bool-cases, Option-cases,
}
use nova_chat.Prelude.Text.{Text, text_eq, text_eq_refl}
use nova_chat.Prelude.Int.{ℤ, pos, negsuc}
use nova_chat.Proto.{Wire}
use nova_chat.Client.Db.Tables.{Contact}
use nova_chat.Client.App.{App}
use nova_chat.Client.ContactService.{add_friend}
use nova_chat.Client.Ui.{Qt}
use nova_chat.Client.Ui.ContactPanel
use nova_chat.Client.Ui.ContactPanel.{
  ContactPanel, Entry, is_hidden, list_entries, find_contact, selected, take_event,
}
use nova_chat.Client.Ui.AddFriendDialog.{AddFriendDialog, get_elem?, on_add_clicked}

get_elem?-bound :
    (cs : List Contact) (i : ℕ) (c : Contact) → get_elem? cs i ≡ some c → i < length cs
unfolding get_elem?
get_elem?-bound [] i c e = cc
get_elem?-bound (x ∷ cs) zero c e = omega arith
get_elem?-bound (x ∷ cs) (suc i) c e = omega (arith, get_elem?-bound cs i c e)

module _ (wire : Wire) where
  -- A click on Add does nothing, or it asks for the friendship of the user in the row that is
  -- current, which is a row of the results.
  pub on_add_clicked_lem :
      (row : ℤ) (d : AddFriendDialog) (a : App)
      → (on_add_clicked wire row d a ≡ (d, a))
        ⊎ ((i : ℕ) × (c : Contact) × (row ≡ pos i)
            × (i < length d.results)
            × (get_elem? d.results i ≡ some c)
            × ((on_add_clicked wire row d a).1 ≡ add_friend wire c.user_id a))
  unfolding on_add_clicked
  on_add_clicked_lem (negsuc row) d a = inl refl
  on_add_clicked_lem (pos row) d a = elim (Option-cases (get_elem? d.results row)) [
    | inl out ↦ inl (rw out refl)
    | inr inside ↦
        (let (c, e) = inside in inr (row, c, refl, get_elem?-bound d.results row c e, e, rw e refl))
  ]

find_contact-member :
    (uid : Text) (cs ds : List Contact) (c : Contact)
    → text_eq c.user_id uid ≡ true
    → (x : Contact) × (find_contact uid (cs ++ c ∷ ds) ≡ some x) × (text_eq x.user_id uid ≡ true)
unfolding find_contact
find_contact-member uid [] ds c e = (c, rw e refl, e)
find_contact-member uid (y ∷ cs) ds c e = elim (Bool-cases (text_eq y.user_id uid)) [
  | inl here ↦ (y, rw here refl, here)
  | inr away ↦ (let (x, f, t) = find_contact-member uid cs ds c e in (x, rw away f, t))
]

module _ (qt : Qt) where
  -- A double click on the row selects a contact with its id.
  abbrev Found : List Contact → Entry → Type 0
  Found all e =
      (x : Contact) × (find_contact e.user_id all ≡ some x) × (text_eq x.user_id e.user_id ≡ true)

  list_entries-Found :
      (search : Text) (before after : List Contact)
      → All (Found (before ++ after)) (list_entries qt search after)
  unfolding list_entries
  list_entries-Found search before [] = tt
  list_entries-Found search before (c ∷ after) =
      let rest : All (Found (before ++ c ∷ after)) (list_entries qt search after) =
        subst (λ all. All (Found all) (list_entries qt search after))
          (append_assoc before (c ∷ []) after)
          (list_entries-Found search (before ++ c ∷ []) after) in
      elim (Bool-cases (is_hidden qt search c)) [
        | inl hidden ↦ rw hidden rest
        | inr visible ↦
            rw visible (find_contact-member c.user_id before after c (text_eq_refl c.user_id), rest)
      ]

  -- After the list was filled, with any search text, a double click on any of its rows selects a
  -- contact, one with the row's id.
  pub populate_list-found :
      (search : Text) (p : ContactPanel)
      → let filled : ContactPanel = ContactPanel.populate_list qt search p in
        All
          (λ e. (c : Contact) × (selected e filled ≡ some c) × (text_eq c.user_id e.user_id ≡ true))
          filled.entries
  unfolding ContactPanel.populate_list selected
  populate_list-found search p = list_entries-Found search [] p.contacts
