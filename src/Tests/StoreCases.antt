-- ===== src/Tests/StoreCases.antt =====
-- Operations of the server's store.
use nova_chat.Prelude.{◌≡◌, ◌≢◌, refl, ◌&&◌, ◌||◌, some, inl, arith, take, filter}
use nova_chat.Prelude.Text.{Text, bytes}
use nova_chat.Prelude.Dict.{get}
use nova_chat.Prelude.Int.{pos}
use nova_chat.Server.Storage.{
  Storage, thrown, register_user, authenticate, add_friend, conversation, get_history,
  get_latest_messages, search_users,
}
use nova_chat.Server.Storage.Accounts.{IsIndexed, IsIndexed-same, IsFresh, register_user-IsIndexed}
use nova_chat.Server.Storage.Login.{authenticate_sound}
use nova_chat.Server.Storage.Friends.{are_friends, same_pair, are_friends-add_friend}
use nova_chat.Server.Storage.History.{eligible, get_history_lem}
use nova_chat.Server.Storage.Latest.{IsNewestFirst, get_latest_messages_lem}
use nova_chat.Server.Storage.Search.{name_matches, records, search_users_lem}
use nova_chat.Server.Persist.{JsonLib, nil, cons, scalar, arr, read_entry, write_entries}
use nova_chat.Server.Damage.{written_before, stop-start_damaged}
use nova_chat.Server.Persist.RoundTrip.{register_user-IsKeyed}
use nova_chat.Server.Process.{start, stop}
use nova_chat.Server.Restart.{start-stop}
use nova_chat.Tests.Data.{world_of, empty_store, store}
use mathlib.Core.List.{reverse}

empty_store-IsIndexed : IsIndexed empty_store
unfolding get
empty_store-IsIndexed = record {
  named = λ name id h. cc;
  listed = λ id rec h. cc;
  signed_in = λ token id h. cc;
}

empty_store-IsFresh : IsFresh empty_store
unfolding get
empty_store-IsFresh = refl

abbrev registered : Storage
registered = (register_user empty_store (bytes "al") (bytes "p") (bytes "Al")).1

authenticate_sound_example : authenticate registered (bytes "al") (bytes "p") ≢ thrown
authenticate_sound_example =
    (authenticate_sound registered (bytes "al") (bytes "p") (
      register_user-IsIndexed empty_store (bytes "al") (bytes "p") (bytes "Al") empty_store-IsFresh
        empty_store-IsIndexed)).0

are_friends-add_friend_example :
    are_friends (add_friend store (bytes "u1") (bytes "u2")).1 (bytes "u2") (bytes "u1") ≡ (
      are_friends store (bytes "u2") (bytes "u1")
      || ((add_friend store (bytes "u1") (bytes "u2")).0
          && same_pair (bytes "u1") (bytes "u2") (bytes "u2") (bytes "u1")))
are_friends-add_friend_example =
    are_friends-add_friend store (bytes "u1") (bytes "u2") (bytes "u2") (bytes "u1")

get_history_lem_example :
    get_history store (bytes "u1:u2") (pos 7) (pos 1)
    ≡ reverse (take 1 (reverse (eligible (pos 7) (conversation store (bytes "u1:u2")))))
get_history_lem_example = get_history_lem store (bytes "u1:u2") (pos 7) 1 (omega arith)

get_latest_messages_example : IsNewestFirst (get_latest_messages store (bytes "u1"))
get_latest_messages_example = (get_latest_messages_lem store (bytes "u1")).0

search_users_example :
    search_users store (bytes "O")
    ≡ take 20 (filter (name_matches (bytes "O")) (records store.users_by_id))
search_users_example = (search_users_lem store (bytes "O")).0

abbrev saving : Storage
saving = record registered { persist_path = bytes "users.json" }

abbrev json : JsonLib
json = record { parse = λ t. some (arr (write_entries saving.users_by_id)); dump = λ j. bytes "[]" }

saving-IsIndexed : IsIndexed saving
saving-IsIndexed = IsIndexed-same refl refl refl (
    register_user-IsIndexed empty_store (bytes "al") (bytes "p") (bytes "Al") empty_store-IsFresh
      empty_store-IsIndexed)

start-stop_example :
    authenticate
      (start json empty_store.rng (pos 9) (stop json (world_of saving))).storage
      (bytes "al")
      (bytes "p")
    ≡ authenticate saving (bytes "al") (bytes "p")
start-stop_example =
    (start-stop json (world_of saving) empty_store.rng (pos 9) refl refl saving-IsIndexed (
        register_user-IsKeyed empty_store (bytes "al") (bytes "p") (bytes "Al") empty_store-IsFresh
          tt)).0
      (bytes "al") (bytes "p")

-- a file that holds the saved users and then a number
abbrev damaged : JsonLib
damaged = record {
  parse = λ t. some (arr (written_before saving.users_by_id (cons scalar nil)));
  dump = λ j. bytes "[]";
}

stop-start_damaged_example :
    ((id : Text)
      → get (start damaged empty_store.rng (pos 9) (some (bytes "[.."))).storage.users_by_id id
        ≡ get saving.users_by_id id)
    × (stop damaged (start damaged empty_store.rng (pos 9) (some (bytes "[..")))
        ≡ some (
            damaged.dump (
              arr (
                write_entries
                  (start damaged empty_store.rng
                    (pos 9)
                    (some (bytes "[.."))).storage.users_by_id))))
unfolding read_entry
stop-start_damaged_example =
    stop-start_damaged damaged empty_store.rng (pos 9) (bytes "[..") saving.users_by_id
      (inl (scalar, nil, refl, refl))
      (register_user-IsKeyed empty_store (bytes "al") (bytes "p") (bytes "Al") empty_store-IsFresh
        tt)
