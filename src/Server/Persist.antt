-- ===== src/Server/Persist.antt =====
-- server/src/storage/ServerStorage.cpp, loadFromFile and saveToFile. nlohmann::json is not part of
-- the sources: its values are the data type `Json`, and its parser and printer are arguments. The
-- printer is total here: it throws only on text that is not UTF-8, which protobuf refuses to parse.
pub mod RoundTrip
use nova_chat.Prelude.{◌≡◌, refl, Option, none, some, [], ◌∷◌, if◌then◌else◌}
use nova_chat.Prelude.Text.{Text, bytes, text_eq, is_empty}
use nova_chat.Prelude.Dict.{Dict, put}
use nova_chat.Server.Storage.{Storage, UserRecord}

-- `scalar` is any number, Boolean or null.
mutual
  pub data Json : Type 0 where
    scalar : Json
    str : Text → Json
    arr : JsonList → Json
    obj : JsonFields → Json

  pub data JsonList : Type 0 where
    nil : JsonList
    cons : Json → JsonList → JsonList

  pub data JsonFields : Type 0 where
    end : JsonFields
    field : Text → Json → JsonFields → JsonFields

-- `none` from the parser is a parse_error.
pub record JsonLib : Type 0 where
  pub parse : Text → Option Json
  pub dump : Json → Text

find_field : Text → JsonFields → Option Json
find_field k end = none
find_field k (field j v fs) = if text_eq j k then some v else find_field k fs

get_text : Option Json → Option Text
get_text none = none
get_text (some (str t)) = some t
get_text (some _) = none

-- entry.at(k).get<std::string>(), where `none` is the exception
unfoldable pub text_at : Text → Json → Option Text
unfolding find_field get_text
text_at k (obj fs) = get_text (find_field k fs)
text_at k j = none

infixl 5 ◌>>=◌
abbrev ◌>>=◌ : {A B : Type 0} → Option A → (A → Option B) → Option B
none >>= f = none
some a >>= f = f a

unfoldable pub read_entry : Json → Option UserRecord
unfolding text_at
read_entry entry = do
  user_id ← text_at (bytes "user_id") entry
  username ← text_at (bytes "username") entry
  display_name ← text_at (bytes "display_name") entry
  password ← text_at (bytes "password") entry
  some (record {
    user_id = user_id;
    username = username;
    display_name = display_name;
    password = password;
  })

-- one turn of the loop: both maps take the record
unfoldable pub add_record : Storage → UserRecord → Storage
add_record s rec = record s {
  users_by_id = put s.users_by_id rec.user_id rec;
  username_to_id = put s.username_to_id rec.username rec.user_id;
}

-- the loop: an exception ends it, and what was read before stays
unfoldable pub load_entries : Storage → JsonList → Storage
load_entries s nil = s
load_entries s (cons entry rest) = elim (read_entry entry) [
  | none ↦ s
  | some rec ↦ load_entries (add_record s rec) rest
]

values : JsonFields → JsonList
values end = nil
values (field k v fs) = cons v (values fs)

-- what a range-based for visits: an object's values, and a scalar itself; null has none, but its
-- one visit would throw before anything is stored, which is the same
unfoldable pub elements : Json → JsonList
unfolding values
elements (arr es) = es
elements (obj fs) = values fs
elements j = cons j nil

-- `file` is what the file holds, if it can be opened
unfoldable pub load_from_file : JsonLib → Text → Option Text → Storage → Storage
load_from_file json path none s = record s { persist_path = path }
load_from_file json path (some content) s = elim (json.parse content) [
  | none ↦ record s { persist_path = path }
  | some j ↦ load_entries (record s { persist_path = path }) (elements j)
]

unfoldable pub write_entry : UserRecord → Json
write_entry rec = obj (
    field (bytes "user_id") (str rec.user_id) (
      field (bytes "username") (str rec.username) (
        field (bytes "display_name") (str rec.display_name)
          (field (bytes "password") (str rec.password) end))))

unfoldable pub write_entries : Dict UserRecord → JsonList
write_entries [] = nil
write_entries ((id, rec) ∷ users) = cons (write_entry rec) (write_entries users)

-- the file afterwards, from the file before
unfoldable pub save_to_file : JsonLib → Storage → Option Text → Option Text
save_to_file json s file =
    if is_empty s.persist_path then file else some (json.dump (arr (write_entries s.users_by_id)))

-- What is written for a record is read back as that record.
pub read_entry-write_entry : (rec : UserRecord) → read_entry (write_entry rec) ≡ some rec
unfolding read_entry write_entry text_eq
read_entry-write_entry rec = refl
