-- ===== src/Server/Process.antt =====
-- The server as a process: server/src/main.cpp around its handler, and the accept loop of
-- server/src/network/TcpServer.cpp. What asio does next is the step that is taken.
use nova_chat.Prelude.{ℕ, true, false, ◌≡◌, ◌≢◌, Option, some, []}
use nova_chat.Prelude.Text.{Text, bytes}
use nova_chat.Prelude.Dict.{get}
use nova_chat.Prelude.Int.{ℤ}
use nova_chat.Codec.{Bytes}
use nova_chat.Proto.{Wire}
use nova_chat.Server.Hex.{Rng}
use nova_chat.Server.Storage.{Storage, returned}
use nova_chat.Server.Persist.{JsonLib, load_from_file, save_to_file}
use nova_chat.Server.World.{World, ClientSession, put_session}
use nova_chat.Server.Dispatch.{on_read}

-- the members of a new ServerStorage; what the generator will draw is `rng`
unfoldable pub new_storage : Rng → Storage
new_storage rng = record {
  users_by_id = [];
  username_to_id = [];
  token_to_user_id = [];
  friendships = [];
  active_sessions = [];
  messages = [];
  persist_path = [];
  rng = rng;
}

abbrev pub persist_file : Text
persist_file = bytes "novachat_users.json"

-- the members of a new ClientSession
abbrev pub new_session : ClientSession
new_session = record { user_id = []; buffer = []; alive = true; sent = [] }

-- from the start of main to io_context::run: the store is loaded, and no session is there
unfoldable pub start : JsonLib → Rng → ℤ → Option Text → World
unfolding new_storage
start json rng now file = record {
  storage = load_from_file json persist_file file (new_storage rng);
  session = λ i. record new_session { alive = false };
  file = file;
  clock = now;
}

-- behind io_context::run: what the file holds then
unfoldable pub stop : JsonLib → World → Option Text
stop json w = save_to_file json w.storage w.file

-- doAccept without an error: a session begins, which has a number of its own
unfoldable pub accept : ℕ → World → World
unfolding put_session
accept i w = put_session w i new_session

-- What io_context::run may do next: a connection is accepted, under a number that no user was
-- registered with; a read of a session completes, with bytes or an error; time goes by. An
-- exception of a handler ends the process, so such a read has no step.
pub data Step (wire : Wire) (json : JsonLib) : World → World → Type 0 where
  accepted :
      {w : World} (i : ℕ)
      → (w.session i).alive ≡ false
      → ((user : Text) → get w.storage.active_sessions user ≢ some i)
      → Step wire json w (accept i w)
  has_read :
      {w w' : World} (i : ℕ) (incoming : Option Bytes)
      → (w.session i).alive ≡ true
      → on_read wire json i incoming w ≡ returned w'
      → Step wire json w w'
  waited : {w : World} (now : ℤ) → Step wire json w (record w { clock = now })

pub data Run (wire : Wire) (json : JsonLib) : World → World → Type 0 where
  done : {w : World} → Run wire json w w
  more : {u v w : World} → Step wire json u v → Run wire json v w → Run wire json u w
