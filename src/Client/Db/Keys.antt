-- ===== src/Client/Db/Keys.antt =====
-- The UNIQUE columns of DatabaseManager's schema, under every statement of the repositories.
use nova_chat.Prelude.{
  ℕ, ◌≡◌, refl, sym, ap, ◌∙◌, Bool, ◌&&◌, List, [], ◌∷◌, none, some, Option, subst,
}
use nova_chat.Prelude.Branches.{either}
use nova_chat.Prelude.Text.{Text, bytes, text_eq, text_eq_comm, contains}
use nova_chat.Prelude.Int.{ℤ}
use nova_chat.Client.Db.Tables.{
  Db, LocalAccount, Contact, Conversation, Message, update_where, exists_where,
}
use nova_chat.Client.Db.Tables.Unique.{
  IsUniqueBy, update-IsUniqueBy, upsert-IsUniqueBy, delete-IsUniqueBy,
}
use nova_chat.Client.Db.Users
use nova_chat.Client.Db.Contacts
use nova_chat.Client.Db.Contacts.{is_contact, save_row, save_rows}
use nova_chat.Client.Db.Messages
use nova_chat.Client.Db.Messages.{has_id}
use nova_chat.Client.Db.Conversations
use nova_chat.Client.Db.Conversations.{is_conversation}
use nova_chat.Client.Db.Statements.{
  create_schema, Statement, save_account, update_token, set_active, clear_active, save_contact,
  replace_contacts, remove_contact, save_conversation, update_last_message, increment_unread,
  clear_unread, save_message, confirm_sent, update_status, execute, execute_all,
}
use nova_chat.Client.Outbox.{same_id, save-IsUnique, kept-IsUnique, confirm_sent-IsUnique}

abbrev pub same_account : LocalAccount → LocalAccount → Bool
same_account r s = text_eq s.server_id r.server_id

abbrev pub same_contact : Contact → Contact → Bool
same_contact r = is_contact r.owner_id r.user_id

abbrev pub same_conversation : Conversation → Conversation → Bool
same_conversation r = is_conversation r.owner_id r.conversation_id

-- UNIQUE of the four tables
pub record IsKeyed (db : Db) : Type 0 where
  pub accounts : IsUniqueBy same_account db.local_accounts
  pub contacts : IsUniqueBy same_contact db.contacts
  pub conversations : IsUniqueBy same_conversation db.conversations
  pub messages : IsUniqueBy same_id db.messages

account_flip : (r s : LocalAccount) → same_account r s ≡ same_account s r
account_flip r s = text_eq_comm s.server_id r.server_id

contact_flip : (r s : Contact) → same_contact r s ≡ same_contact s r
contact_flip r s =
    ap (λ b. b && text_eq s.user_id r.user_id) (text_eq_comm s.owner_id r.owner_id)
    ∙ ap (λ b. text_eq r.owner_id s.owner_id && b) (text_eq_comm s.user_id r.user_id)

conversation_flip : (r s : Conversation) → same_conversation r s ≡ same_conversation s r
conversation_flip r s =
    ap (λ b. b && text_eq s.conversation_id r.conversation_id) (text_eq_comm s.owner_id r.owner_id)
    ∙ ap (λ b. text_eq r.owner_id s.owner_id && b)
        (text_eq_comm s.conversation_id r.conversation_id)

-- an update of another column than the key's
accounts-update :
    (p : LocalAccount → Bool) (f : LocalAccount → LocalAccount)
    → ((r : LocalAccount) → (f r).server_id ≡ r.server_id)
    → (rows : List LocalAccount) → IsUniqueBy same_account rows
    → IsUniqueBy same_account (update_where p f rows)
accounts-update p f keep =
    update-IsUniqueBy same_account p f (λ r s h. ap (text_eq s.server_id) (keep r))
      (λ r s h. ap (λ k. text_eq k r.server_id) (keep s))

save_row-IsUniqueBy :
    (c : Contact) (rows : List Contact)
    → IsUniqueBy same_contact rows
    → IsUniqueBy same_contact (save_row c rows)
unfolding save_row
save_row-IsUniqueBy c rows v =
    upsert-IsUniqueBy same_contact contact_flip _ (λ r s. refl) (λ r s. refl) c rows v

save_rows-IsUniqueBy :
    (cs rows : List Contact)
    → IsUniqueBy same_contact rows
    → IsUniqueBy same_contact (save_rows cs rows)
unfolding save_rows
save_rows-IsUniqueBy [] rows v = v
save_rows-IsUniqueBy (c ∷ cs) rows v =
    save_rows-IsUniqueBy cs (save_row c rows) (save_row-IsUniqueBy c rows v)

with_accounts :
    {db : Db} {rows : List LocalAccount} {n : ℕ}
    → IsKeyed db
    → IsUniqueBy same_account rows
    → IsKeyed (record db { local_accounts = rows; next_id = n })
with_accounts v h = record {
  accounts = h;
  contacts = v.contacts;
  conversations = v.conversations;
  messages = v.messages;
}

with_contacts :
    {db : Db} {rows : List Contact}
    → IsKeyed db
    → IsUniqueBy same_contact rows
    → IsKeyed (record db { contacts = rows })
with_contacts v h = record {
  accounts = v.accounts;
  contacts = h;
  conversations = v.conversations;
  messages = v.messages;
}

with_conversations :
    {db : Db} {rows : List Conversation}
    → IsKeyed db
    → IsUniqueBy same_conversation rows
    → IsKeyed (record db { conversations = rows })
with_conversations v h = record {
  accounts = v.accounts;
  contacts = v.contacts;
  conversations = h;
  messages = v.messages;
}

with_messages :
    {db : Db} {rows : List Message}
    → IsKeyed db
    → IsUniqueBy same_id rows
    → IsKeyed (record db { messages = rows })
with_messages v h = record {
  accounts = v.accounts;
  contacts = v.contacts;
  conversations = v.conversations;
  messages = h;
}

-- where the rows of the other tables are not looked at
confirm_sent-IsKeyed :
    (local_id server_id : Text) (ts : ℤ) (db : Db)
    → IsKeyed db
    → IsKeyed (Messages.confirm_sent local_id server_id ts db)
unfolding Messages.confirm_sent
confirm_sent-IsKeyed local_id server_id ts db v =
    let same_rest : (d : Db) → Type 0 = λ d.
      (d.local_accounts ≡ db.local_accounts)
      × (d.contacts ≡ db.contacts)
      × (d.conversations ≡ db.conversations) in
    let (a, c, o) =
      either same_rest (exists_where (has_id server_id) db.messages)
        (either same_rest (text_eq local_id server_id) (refl, refl, refl) (refl, refl, refl))
        (refl, refl, refl) in
    record {
      accounts = subst (IsUniqueBy same_account) (sym a) v.accounts;
      contacts = subst (IsUniqueBy same_contact) (sym c) v.contacts;
      conversations = subst (IsUniqueBy same_conversation) (sym o) v.conversations;
      messages = confirm_sent-IsUnique local_id server_id ts db v.messages;
    }

abbrev KeyedIf : Option Db → Type 0
KeyedIf none = Unit
KeyedIf (some db) = IsKeyed db

execute-IsKeyed : (s : Statement) (db : Db) → IsKeyed db → KeyedIf (execute s db)
unfolding execute Users.save Users.update_token Users.clear_active Users.set_active Contacts.save
    Contacts.replace_all Contacts.remove Conversations.save_or_update
    Conversations.update_last_message Conversations.increment_unread Conversations.clear_unread
    Messages.save Messages.update_status
execute-IsKeyed (save_account acc) db v = with_accounts v (
    upsert-IsUniqueBy same_account account_flip _ (λ r s. refl) (λ r s. refl)
      (record acc { id = db.next_id }) db.local_accounts v.accounts)
execute-IsKeyed (update_token server_id token) db v =
    with_accounts v (accounts-update _ _ (λ r. refl) db.local_accounts v.accounts)
execute-IsKeyed (set_active server_id) db v = with_accounts v (
    accounts-update _ _ (λ r. refl) _
      (accounts-update _ _ (λ r. refl) db.local_accounts v.accounts))
execute-IsKeyed clear_active db v =
    with_accounts v (accounts-update _ _ (λ r. refl) db.local_accounts v.accounts)
execute-IsKeyed (save_contact c) db v =
    with_contacts v (save_row-IsUniqueBy c db.contacts v.contacts)
execute-IsKeyed (replace_contacts owner_id list) db v =
    either KeyedIf (contains (bytes "'") owner_id) tt (
      with_contacts v
        (save_rows-IsUniqueBy list _ (delete-IsUniqueBy same_contact _ db.contacts v.contacts)))
execute-IsKeyed (remove_contact owner_id user_id) db v =
    with_contacts v (delete-IsUniqueBy same_contact _ db.contacts v.contacts)
execute-IsKeyed (save_conversation c) db v = with_conversations v (
    upsert-IsUniqueBy same_conversation conversation_flip _ (λ r s. refl) (λ r s. refl) c
      db.conversations v.conversations)
execute-IsKeyed (update_last_message owner_id conv_id preview ts) db v = with_conversations v (
    update-IsUniqueBy same_conversation _ _ (λ r s h. refl) (λ r s h. refl) db.conversations
      v.conversations)
execute-IsKeyed (increment_unread owner_id conv_id) db v = with_conversations v (
    update-IsUniqueBy same_conversation _ _ (λ r s h. refl) (λ r s h. refl) db.conversations
      v.conversations)
execute-IsKeyed (clear_unread owner_id conv_id) db v = with_conversations v (
    update-IsUniqueBy same_conversation _ _ (λ r s h. refl) (λ r s h. refl) db.conversations
      v.conversations)
execute-IsKeyed (save_message m) db v = with_messages v (save-IsUnique m db v.messages)
execute-IsKeyed (confirm_sent local_id server_id ts) db v =
    confirm_sent-IsKeyed local_id server_id ts db v
execute-IsKeyed (update_status id status) db v =
    with_messages v (kept-IsUnique _ _ (λ r h. refl) db.messages v.messages)

next :
    (o : Option Db) (f : Db → Option Db)
    → KeyedIf o
    → ((db : Db) → IsKeyed db → KeyedIf (f db))
    → KeyedIf (elim o [ none ↦ none | some db ↦ f db ])
next none f v k = tt
next (some db) f v k = k db v

execute_all-KeyedIf : (ss : List Statement) (db : Db) → IsKeyed db → KeyedIf (execute_all ss db)
unfolding execute_all
execute_all-KeyedIf [] db v = v
execute_all-KeyedIf (s ∷ ss) db v =
    next (execute s db) (execute_all ss) (execute-IsKeyed s db v) (execute_all-KeyedIf ss)

-- From the empty tables of a new database file, whatever the repositories execute and in whatever
-- order, no two accounts have one server_id, no two contacts one owner and user, no two
-- conversations one owner and conversation id, and no two messages one id, also when ids are
-- replaced by confirmSent.
pub execute_all-IsKeyed :
    (ss : List Statement) (db : Db) → execute_all ss create_schema ≡ some db → IsKeyed db
unfolding create_schema
execute_all-IsKeyed ss db h = subst KeyedIf h (
    execute_all-KeyedIf ss create_schema
      (record { accounts = tt; contacts = tt; conversations = tt; messages = tt }))
