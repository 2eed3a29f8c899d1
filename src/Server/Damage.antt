-- ===== src/Server/Damage.antt =====
-- A file of users that cannot be read to its end, and what a stop of the server makes of it.
use nova_chat.Prelude.{◌≡◌, refl, ap, ◌∙◌, ◌⊎◌, inl, inr, none, some, [], ◌∷◌}
use nova_chat.Prelude.Branches.{parsed}
use nova_chat.Prelude.Text.{Text}
use nova_chat.Prelude.Dict.{Dict, get}
use nova_chat.Prelude.Int.{ℤ}
use nova_chat.Server.Hex.{Rng}
use nova_chat.Server.Storage.{Storage, UserRecord}
use nova_chat.Server.Persist.{
  Json, JsonLib, JsonList, nil, cons, arr, add_record, load_entries, load_from_file, read_entry,
  write_entry, write_entries, save_to_file, elements, read_entry-write_entry,
}
use nova_chat.Server.Persist.RoundTrip.{IsKeyed, get-loaded, or_else-none}
use nova_chat.Server.Process.{new_storage, start, stop, persist_file}

-- what saveToFile writes for the users, and then these
abbrev pub written_before : Dict UserRecord → JsonList → JsonList
written_before [] rest = rest
written_before ((id, rec) ∷ users) rest = cons (write_entry rec) (written_before users rest)

-- Only these users of the file can be read: behind them stands an entry that is none, or the file is
-- no JSON at all.
abbrev pub IsReadTo : JsonLib → Text → Dict UserRecord → Type 0
IsReadTo json content users =
    ((bad : Json) × (rest : JsonList) × (json.parse content
        ≡ some (arr (written_before users (cons bad rest))))
      × (read_entry bad ≡ none))
    ⊎ ((json.parse content ≡ none) × (users ≡ []))

load_before :
    (users : Dict UserRecord) (bad : Json) (rest : JsonList) (s : Storage)
    → read_entry bad ≡ none
    → load_entries s (written_before users (cons bad rest)) ≡ load_entries s (write_entries users)
unfolding load_entries write_entries
load_before [] bad rest s h = rw (h, load_entries) refl
load_before ((id, rec) ∷ users) bad rest s h =
    rw (read_entry-write_entry rec, load_entries) (load_before users bad rest (add_record s rec) h)

load-IsReadTo :
    (json : JsonLib) (path content : Text) (users : Dict UserRecord) (s : Storage)
    → IsReadTo json content users
    → load_from_file json path (some content) s
      ≡ load_entries (record s { persist_path = path }) (write_entries users)
unfolding load_from_file elements load_entries write_entries
load-IsReadTo json path content users s (inl (bad, rest, parsed, h)) =
    rw (parsed, load_from_file) (load_before users bad rest (record s { persist_path = path }) h)
load-IsReadTo json path content users s (inr (unparsed, none_read)) =
    rw (unparsed, load_from_file) (rw (none_read, write_entries, load_entries) refl)

persist_path-load_entries :
    (es : JsonList) (s : Storage) → (load_entries s es).persist_path ≡ s.persist_path
unfolding load_entries add_record
persist_path-load_entries nil s = refl
persist_path-load_entries (cons e es) s =
    parsed (λ (t : Storage). t.persist_path ≡ s.persist_path) (read_entry e) refl
      (λ rec. persist_path-load_entries es (add_record s rec))

-- A server that starts on a file of which only some users can be read has these users and no others;
-- and when it stops it writes the file anew from what it has, so that all that stood behind the
-- damage is lost for good. Each of the users stands there once, under the own id.
pub stop-start_damaged :
    (json : JsonLib) (rng : Rng) (now : ℤ) (content : Text) (users : Dict UserRecord)
    → IsReadTo json content users
    → IsKeyed users
    → let w = start json rng now (some content) in
      ((id : Text) → get w.storage.users_by_id id ≡ get users id)
      × (stop json w ≡ some (json.dump (arr (write_entries w.storage.users_by_id))))
unfolding start stop new_storage save_to_file get
stop-start_damaged json rng now content users damaged keyed =
    let s : Storage = new_storage rng in
    let e = load-IsReadTo json persist_file content users s damaged in
    (
      λ id.
          ap (λ (t : Storage). get t.users_by_id id) e
          ∙ get-loaded users (record s { persist_path = persist_file }) id keyed
          ∙ or_else-none (get users id),
      rw
          (ap (λ (t : Storage). t.persist_path) e
            ∙ persist_path-load_entries (write_entries users)
                (record s { persist_path = persist_file }))
          refl,
    )
