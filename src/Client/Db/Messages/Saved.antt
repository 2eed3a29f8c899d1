-- ===== src/Client/Db/Messages/Saved.antt =====
-- What findById finds after a message was saved.
use nova_chat.Prelude.{◌≡◌, false, some, List, [], ◌∷◌, ◌++◌, arith}
use nova_chat.Prelude.Text.{text_eq_refl}
use nova_chat.Client.Db.Tables.{Db, Message, select_one, exists_where, insert_or_ignore}
use nova_chat.Client.Db.Messages.{has_id, save, find_by_id}

select-appended :
    (m : Message) (rows : List Message)
    → exists_where (has_id m.message_id) rows ≡ false
    → select_one (has_id m.message_id) (rows ++ m ∷ []) ≡ some m
unfolding exists_where select_one
select-appended m [] h = ground (arith, text_eq_refl m.message_id)
select-appended m (r ∷ rows) h = ground (arith, select-appended m rows)

-- A message with a new id is found under it.
pub find_by_id-save :
    (m : Message) (db : Db)
    → exists_where (has_id m.message_id) db.messages ≡ false
    → find_by_id m.message_id (save m db) ≡ some m
unfolding find_by_id save insert_or_ignore
find_by_id-save m db new = rw new (select-appended m db.messages new)
