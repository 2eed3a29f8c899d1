-- ===== src/Client/Outbox.antt =====
-- A message on its way out, in the database of the client: written at once under a local id,
-- confirmed under the server's, or marked as failed. And a message on its way in.
use nova_chat.Prelude.{
  ◌+◌, ◌≡◌, refl, sym, ap, ◌∙◌, inl, inr, Bool, true, false, some, List, [], ◌∷◌, arith, Bool-cases,
}
use nova_chat.Prelude.Text.{Text, text_eq, text_eq_refl, text_eq_sound, text_eq_comm, text_eq_iff}
use nova_chat.Prelude.Int.{ℤ}
use nova_chat.Proto.{Wire, MessageInfo}
use nova_chat.Client.Db.Tables.{
  Db, Message, MessageStatus, sent, select_one, update_where, exists_where,
}
use nova_chat.Client.Db.Tables.Unique.{IsUniqueBy, insert-IsUniqueBy, update-IsUniqueBy}
use nova_chat.Client.Db.Messages
use nova_chat.Client.Db.Messages.{has_id}
use nova_chat.Client.Db.Conversations
use nova_chat.Client.Db.Conversations.{is_conversation}
use nova_chat.Client.App.{App}
use nova_chat.Client.ChatService.{take_push, refresh_conversations, from_info}

-- No two rows have one id, which is what UNIQUE asks.
abbrev pub same_id : Message → Message → Bool
same_id m = has_id m.message_id

abbrev pub IsUnique : List Message → Type 0
IsUnique = IsUniqueBy same_id

same_id_flip : (r s : Message) → same_id r s ≡ same_id s r
same_id_flip r s = text_eq_comm s.message_id r.message_id

pub save-IsUnique :
    (m : Message) (db : Db) → IsUnique db.messages → IsUnique (Messages.save m db).messages
unfolding Messages.save
save-IsUnique m db v = insert-IsUniqueBy same_id same_id_flip m db.messages v

confirm : Text → ℤ → Message → Message
confirm server_id ts r = record r { message_id = server_id; timestamp_ms = ts; status = sent }

module _ (id server_id : Text) (ts : ℤ) where
  confirmed : List Message → List Message
  unfolding confirm
  confirmed = update_where (has_id id) (confirm server_id ts)

  exists-confirmed_other :
      (k : Text) (rows : List Message)
      → exists_where (has_id k) rows ≡ false
      → text_eq server_id k ≡ false
      → exists_where (has_id k) (confirmed rows) ≡ false
  unfolding exists_where update_where confirmed
  exists-confirmed_other k [] h n = refl
  exists-confirmed_other k (r ∷ rows) h n = ground (arith, exists-confirmed_other k rows)

  confirmed_none :
      (rows : List Message) → exists_where (has_id id) rows ≡ false → confirmed rows ≡ rows
  unfolding exists_where update_where confirmed
  confirmed_none [] h = refl
  confirmed_none (r ∷ rows) h = ground (arith, confirmed_none rows)

  confirmed-IsUnique :
      (rows : List Message)
      → exists_where (has_id server_id) rows ≡ false
      → IsUnique rows
      → IsUnique (confirmed rows)
  unfolding exists_where update_where confirmed
  confirmed-IsUnique [] h v = tt
  confirmed-IsUnique (r ∷ rows) h v = elim (Bool-cases (text_eq r.message_id id)) [
    | inl here ↦
        (let free : exists_where (has_id id) rows ≡ false =
            ap (λ k. exists_where (has_id k) rows) (sym (text_eq_sound r.message_id id here))
            ∙ v.0 in
          rw here (
            ap (exists_where (has_id server_id)) (confirmed_none rows free) ∙ ground arith,
            confirmed-IsUnique rows (ground arith) v.1,
          ))
    | inr away ↦ rw away (
      exists-confirmed_other r.message_id rows v.0
          (ground (arith, text_eq_iff server_id r.message_id, text_eq_refl r.message_id)),
      confirmed-IsUnique rows (ground arith) v.1,
    )
  ]

  select-confirmed :
      (rows : List Message) (m : Message)
      → exists_where (has_id server_id) rows ≡ false
      → select_one (has_id id) rows ≡ some m
      → select_one (has_id server_id) (confirmed rows) ≡ some (confirm server_id ts m)
  unfolding exists_where update_where select_one confirmed
  select-confirmed [] m h e = cc
  select-confirmed (r ∷ rows) m h e =
      ground (arith, select-confirmed rows m, text_eq_refl server_id)

pub kept-IsUnique :
    (p : Message → Bool) (f : Message → Message)
    → ((r : Message) → p r ≡ true → (f r).message_id ≡ r.message_id)
    → (rows : List Message) → IsUnique rows
    → IsUnique (update_where p f rows)
kept-IsUnique p f keep =
    update-IsUniqueBy same_id p f (λ r s h. ap (text_eq s.message_id) (keep r h))
      (λ r s h. ap (λ k. text_eq k r.message_id) (keep s h))

pub confirm_sent-IsUnique :
    (id server_id : Text) (ts : ℤ) (db : Db)
    → IsUnique db.messages
    → IsUnique (Messages.confirm_sent id server_id ts db).messages
unfolding Messages.confirm_sent confirm confirmed
confirm_sent-IsUnique id server_id ts db v =
    elim (Bool-cases (exists_where (has_id server_id) db.messages)) [
      | inr new ↦ rw new (confirmed-IsUnique id server_id ts db.messages new v)
      | inl taken ↦ elim (Bool-cases (text_eq id server_id)) [
        | inr other ↦ rw taken (rw other v)
        | inl same ↦ rw taken (
            rw same (
              kept-IsUnique (has_id id) (confirm server_id ts)
                (λ r e. sym (text_eq_sound r.message_id id e ∙ text_eq_sound id server_id same))
                db.messages v))
      ]
    ]

-- A table of messages with one row for each id keeps one row for each id, whatever is saved,
-- confirmed or marked.
pub messages-IsUnique :
    (m : Message) (id server_id : Text) (ts : ℤ) (status : MessageStatus) (db : Db)
    → IsUnique db.messages
    → IsUnique (Messages.save m db).messages
      × IsUnique (Messages.confirm_sent id server_id ts db).messages
      × IsUnique (Messages.update_status id status db).messages
unfolding Messages.update_status
messages-IsUnique m id server_id ts status db v = (
  save-IsUnique m db v,
  confirm_sent-IsUnique id server_id ts db v,
  kept-IsUnique (has_id id) (λ r. record r { status = status }) (λ r e. refl) db.messages v,
)

-- A confirmed message is found under the server's id, with the server's time and status Sent and its
-- other fields as they were, if that id was not in the table.
pub confirm_sent-found :
    (id server_id : Text) (ts : ℤ) (db : Db) (m : Message)
    → Messages.find_by_id id db ≡ some m
    → exists_where (has_id server_id) db.messages ≡ false
    → Messages.find_by_id server_id (Messages.confirm_sent id server_id ts db)
      ≡ some (record m { message_id = server_id; timestamp_ms = ts; status = sent })
unfolding Messages.confirm_sent Messages.find_by_id confirm confirmed
confirm_sent-found id server_id ts db m found new =
    rw new (select-confirmed id server_id ts db.messages m new found)

update_where_none {ℓ} :
    {R : Type ℓ} (p : R → Bool) (f : R → R) (rows : List R)
    → exists_where p rows ≡ false
    → update_where p f rows ≡ rows
unfolding exists_where update_where
update_where_none p f [] h = refl
update_where_none p f (r ∷ rows) h = ground (arith, update_where_none p f rows)

-- The push of a message in a conversation that the local list does not have leaves the list as it
-- is: the message is stored, and no conversation shows it.
pub take_push_unlisted :
    (wire : Wire) (push : MessageInfo) (a : App)
    → exists_where
        (is_conversation a.current_user.server_id push.conversation_id)
        a.db.conversations
      ≡ false
    → ((take_push wire push a).db.conversations ≡ a.db.conversations)
      × ((take_push wire push a).db.messages ≡ (Messages.save (from_info push) a.db).messages)
unfolding take_push refresh_conversations from_info Conversations.increment_unread
    Conversations.update_last_message Messages.save
take_push_unlisted wire push a h =
    rw
      (update_where_none (is_conversation a.current_user.server_id push.conversation_id)
        (λ r. record r {
          last_message_preview = push.content;
          last_message_time = push.timestamp_ms;
        })
        a.db.conversations h)
      (
        update_where_none (is_conversation a.current_user.server_id push.conversation_id)
            (λ r. record r { unread_count = r.unread_count + 1 }) a.db.conversations h,
        refl,
      )
