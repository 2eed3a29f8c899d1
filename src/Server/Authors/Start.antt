-- ===== src/Server/Authors/Start.antt =====
-- The users that a server loads when it starts.
use nova_chat.Prelude.{◌≡◌, Option, none, some, []}
use nova_chat.Prelude.Branches.{parsed}
use nova_chat.Prelude.Text.{Text}
use nova_chat.Prelude.Dict.{get}
use nova_chat.Prelude.Int.{ℤ}
use nova_chat.Server.Hex.{Rng}
use nova_chat.Server.Storage.{Storage, UserRecord}
use nova_chat.Server.Persist.{
  JsonLib, JsonList, nil, cons, add_record, load_entries, load_from_file, read_entry, elements,
}
use nova_chat.Server.Process.{start, new_storage, persist_file}
use nova_chat.Server.Restart.{start-conversation}
use nova_chat.Server.Authors.{IsFiled, HasAuthors, put-IsFiled}

load_entries-IsFiled :
    (es : JsonList) (s : Storage) → IsFiled s.users_by_id → IsFiled (load_entries s es).users_by_id
unfolding load_entries add_record
load_entries-IsFiled nil s filed = filed
load_entries-IsFiled (cons e es) s filed =
    parsed (λ (t : Storage). IsFiled t.users_by_id) (read_entry e) filed
      (λ rec. load_entries-IsFiled es (add_record s rec) (put-IsFiled s.users_by_id rec filed))

load_from_file-IsFiled :
    (json : JsonLib) (path : Text) (file : Option Text) (s : Storage)
    → IsFiled s.users_by_id
    → IsFiled (load_from_file json path file s).users_by_id
unfolding load_from_file
load_from_file-IsFiled json path none s filed = filed
load_from_file-IsFiled json path (some content) s filed =
    parsed (λ (t : Storage). IsFiled t.users_by_id) (json.parse content) filed
      (λ j. load_entries-IsFiled (elements j) (record s { persist_path = path }) filed)

nobody : IsFiled []
unfolding get
nobody id rec h = absurd (none_found h)
  where
    none_found : {r : UserRecord} → none ≡ some r → ⊥
    none_found e = cc

-- The store of a server that has just started files each user under the own id, and has no message.
pub start-HasAuthors :
    (json : JsonLib) (rng : Rng) (now : ℤ) (file : Option Text)
    → HasAuthors (start json rng now file).storage
unfolding start new_storage
start-HasAuthors json rng now file = record {
  filed = load_from_file-IsFiled json persist_file file (new_storage rng) nobody;
  authored = λ id. rw (start-conversation json rng now file id) tt;
}
