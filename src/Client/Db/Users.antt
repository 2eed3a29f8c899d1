-- ===== src/Client/Db/Users.antt =====
-- client/src/storage/UserRepository.cpp: the accounts that have logged in on this machine.
use nova_chat.Prelude.{◌+◌, true, false, Option}
use nova_chat.Prelude.Text.{Text, text_eq}
use nova_chat.Client.Db.Tables.{Db, LocalAccount, select_one, update_where, upsert}

-- A new row takes the next id; an old one keeps `id` and `is_active`.
unfoldable pub save : LocalAccount → Db → Db
save acc db = record db {
  local_accounts =
      upsert (λ r. text_eq r.server_id acc.server_id)
        (λ r. record r {
          username = acc.username;
          display_name = acc.display_name;
          avatar_url = acc.avatar_url;
          token = acc.token;
        })
        (record acc { id = db.next_id }) db.local_accounts;
  next_id = db.next_id + 1;
}

unfoldable pub update_token : Text → Text → Db → Db
update_token server_id token db = record db {
  local_accounts =
      update_where (λ r. text_eq r.server_id server_id) (λ r. record r { token = token })
        db.local_accounts;
}

unfoldable pub clear_active : Db → Db
clear_active db = record db {
  local_accounts = update_where (λ r. true) (λ r. record r { is_active = false }) db.local_accounts;
}

unfoldable pub set_active : Text → Db → Db
unfolding clear_active
set_active server_id db =
    let cleared = clear_active db in
    record cleared {
      local_accounts =
          update_where (λ r. text_eq r.server_id server_id) (λ r. record r { is_active = true })
            cleared.local_accounts;
    }

unfoldable pub find_active : Db → Option LocalAccount
find_active db = select_one (λ r. r.is_active) db.local_accounts

unfoldable pub find_by_id : Text → Db → Option LocalAccount
find_by_id server_id db = select_one (λ r. text_eq r.server_id server_id) db.local_accounts
