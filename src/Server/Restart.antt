-- ===== src/Server/Restart.antt =====
-- What a restart of the server keeps, and what it forgets.
use nova_chat.Prelude.{◌≡◌, refl, ap, inl, inr, false, Option, none, some, [], Option-cases}
use nova_chat.Prelude.Branches.{parsed}
use nova_chat.Prelude.Text.{Text, is_empty}
use nova_chat.Prelude.Dict.{get, member}
use nova_chat.Prelude.Int.{ℤ}
use nova_chat.Server.Hex.{Rng}
use nova_chat.Server.Storage.{
  Storage, authenticate, check_password, find_by_token, conversation, friend_set,
}
use nova_chat.Server.Storage.Accounts.{IsIndexed}
use nova_chat.Server.Storage.Friends.{are_friends}
use nova_chat.Server.Persist.{
  JsonLib, JsonList, nil, cons, arr, add_record, load_entries, load_from_file, read_entry,
  write_entries, save_to_file, elements,
}
use nova_chat.Server.Persist.RoundTrip.{IsKeyed, load_from_file-save_to_file}
use nova_chat.Server.World.{World}
use nova_chat.Server.Process.{new_storage, start, stop, persist_file}

-- What a load of users leaves alone.
SameRest : Storage → Storage → Type 0
SameRest s t =
    (t.token_to_user_id ≡ s.token_to_user_id)
    × (t.friendships ≡ s.friendships)
    × (t.messages ≡ s.messages)

load_entries-SameRest : (es : JsonList) (s : Storage) → SameRest s (load_entries s es)
unfolding load_entries SameRest add_record
load_entries-SameRest nil s = (refl, refl, refl)
load_entries-SameRest (cons e es) s =
    parsed (SameRest s) (read_entry e) (refl, refl, refl)
      (λ rec. load_entries-SameRest es (add_record s rec))

load_from_file-SameRest :
    (json : JsonLib) (path : Text) (file : Option Text) (s : Storage)
    → SameRest s (load_from_file json path file s)
unfolding load_from_file SameRest
load_from_file-SameRest json path none s = (refl, refl, refl)
load_from_file-SameRest json path (some content) s =
    parsed (SameRest s) (json.parse content) (refl, refl, refl)
      (λ j. load_entries-SameRest (elements j) (record s { persist_path = path }))

same_check :
    (s t : Storage)
    → ((id : Text) → get s.users_by_id id ≡ get t.users_by_id id)
    → ((name : Text) → get s.username_to_id name ≡ get t.username_to_id name)
    → (name password : Text) → authenticate s name password ≡ authenticate t name password
unfolding authenticate
same_check s t users names name password = elim (Option-cases (get t.username_to_id name)) [
  | inl nobody ↦ rw (names name, nobody, authenticate) refl
  | inr (id, somebody) ↦
      rw (names name, somebody, authenticate) (ap (check_password password) (users id))
]

no_token : (s : Storage) → s.token_to_user_id ≡ [] → (token : Text) → find_by_token s token ≡ none
unfolding find_by_token get
no_token s e token = rw e refl

no_friend : (s : Storage) → s.friendships ≡ [] → (a b : Text) → are_friends s a b ≡ false
unfolding are_friends friend_set member get
no_friend s e a b = rw e refl

-- A server that has just started knows of no friends, whatever its file holds.
pub start-are_friends :
    (json : JsonLib) (rng : Rng) (now : ℤ) (file : Option Text) (a b : Text)
    → are_friends (start json rng now file).storage a b ≡ false
unfolding start new_storage SameRest
start-are_friends json rng now file a b =
    let (_, friends, _) = load_from_file-SameRest json persist_file file (new_storage rng) in
    no_friend (start json rng now file).storage friends a b

no_message : (s : Storage) → s.messages ≡ [] → (id : Text) → conversation s id ≡ []
unfolding conversation get
no_message s e id = rw e refl

-- It has no message either.
pub start-conversation :
    (json : JsonLib) (rng : Rng) (now : ℤ) (file : Option Text) (id : Text)
    → conversation (start json rng now file).storage id ≡ []
unfolding start new_storage SameRest
start-conversation json rng now file id =
    let (_, _, messages) = load_from_file-SameRest json persist_file file (new_storage rng) in
    no_message (start json rng now file).storage messages id

-- When the server is stopped and started again, every name and password is accepted or refused as
-- before, for the same user; but no token is valid any more, nobody has a friend and every
-- conversation is empty. The conditions: the JSON library parses what it has printed of the users,
-- the store has a file, its maps agree, and each record is kept once, under its id.
pub start-stop :
    (json : JsonLib) (w : World) (rng : Rng) (now : ℤ)
    → json.parse (json.dump (arr (write_entries w.storage.users_by_id)))
      ≡ some (arr (write_entries w.storage.users_by_id))
    → is_empty w.storage.persist_path ≡ false
    → IsIndexed w.storage
    → IsKeyed w.storage.users_by_id
    → let s : Storage = (start json rng now (stop json w)).storage in
      ((name password : Text) → authenticate s name password ≡ authenticate w.storage name password)
      × ((token : Text) → find_by_token s token ≡ none)
      × ((a b : Text) → are_friends s a b ≡ false)
      × ((id : Text) → conversation s id ≡ [])
unfolding start stop new_storage SameRest
start-stop json w rng now prints saved indexed keyed =
    let t : Storage = new_storage rng in
    let s : Storage = load_from_file json persist_file (save_to_file json w.storage w.file) t in
    let (users, names) =
      load_from_file-save_to_file json persist_file w.file w.storage t prints saved indexed keyed
        refl refl in
    let (tokens, _, _) = load_from_file-SameRest json persist_file (stop json w) t in
    (
      λ name password. same_check s w.storage users names name password,
      λ token. no_token s tokens token,
      λ a b. start-are_friends json rng now (stop json w) a b,
      λ id. start-conversation json rng now (stop json w) id,
    )
