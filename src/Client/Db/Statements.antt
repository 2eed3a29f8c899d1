-- ===== src/Client/Db/Statements.antt =====
-- Every statement of client/src/storage that changes the database, as one language: the tables that
-- DatabaseManager::createSchema makes, and what the repositories execute on them.
use nova_chat.Prelude.{List, [], ◌∷◌, none, some, Option}
use nova_chat.Prelude.Text.{Text}
use nova_chat.Prelude.Int.{ℤ}
use nova_chat.Client.Db.Tables.{Db, LocalAccount, Contact, Conversation, Message, MessageStatus}
use nova_chat.Client.Db.Users
use nova_chat.Client.Db.Contacts
use nova_chat.Client.Db.Messages
use nova_chat.Client.Db.Conversations

-- the tables of a database file that is new
unfoldable pub create_schema : Db
create_schema = record {
  local_accounts = [];
  next_id = 1;
  contacts = [];
  conversations = [];
  messages = [];
}

-- The constructor of DatabaseManager. `file` is what sqlite3_open finds, `none` where it or a statement
-- fails, which throws: a file without tables gets them, and the tables of another stay, since each
-- is made IF NOT EXISTS.
unfoldable pub open_database : Option (Option Db) → Option Db
unfolding create_schema
open_database none = none
open_database (some none) = some create_schema
open_database (some (some db)) = some db

pub data Statement : Type 0 where
  save_account : LocalAccount → Statement
  update_token : Text → Text → Statement
  set_active : Text → Statement
  clear_active : Statement
  save_contact : Contact → Statement
  replace_contacts : Text → List Contact → Statement
  remove_contact : Text → Text → Statement
  save_conversation : Conversation → Statement
  update_last_message : Text → Text → Text → ℤ → Statement
  increment_unread : Text → Text → Statement
  clear_unread : Text → Text → Statement
  save_message : Message → Statement
  confirm_sent : Text → Text → ℤ → Statement
  update_status : Text → MessageStatus → Statement

-- `none` where replaceAll's statement is another than was meant
unfoldable pub execute : Statement → Db → Option Db
execute (save_account acc) db = some (Users.save acc db)
execute (update_token server_id token) db = some (Users.update_token server_id token db)
execute (set_active server_id) db = some (Users.set_active server_id db)
execute clear_active db = some (Users.clear_active db)
execute (save_contact c) db = some (Contacts.save c db)
execute (replace_contacts owner_id list) db = Contacts.replace_all owner_id list db
execute (remove_contact owner_id user_id) db = some (Contacts.remove owner_id user_id db)
execute (save_conversation c) db = some (Conversations.save_or_update c db)
execute (update_last_message owner_id conv_id preview ts) db =
    some (Conversations.update_last_message owner_id conv_id preview ts db)
execute (increment_unread owner_id conv_id) db =
    some (Conversations.increment_unread owner_id conv_id db)
execute (clear_unread owner_id conv_id) db = some (Conversations.clear_unread owner_id conv_id db)
execute (save_message m) db = some (Messages.save m db)
execute (confirm_sent local_id server_id ts) db =
    some (Messages.confirm_sent local_id server_id ts db)
execute (update_status id status) db = some (Messages.update_status id status db)

unfoldable pub execute_all : List Statement → Db → Option Db
execute_all [] db = some db
execute_all (s ∷ ss) db = elim (execute s db) [ none ↦ none | some db' ↦ execute_all ss db' ]
