-- ===== src/Server/Authors.antt =====
-- Who the stored messages are from: their senders are users of the store, and each stands in a
-- conversation of its sender.
pub mod Start
use nova_chat.Prelude.{
  ℕ, ◌≡◌, refl, sym, ap, ◌∙◌, subst, ◌⊎◌, inl, inr, false, none, some, List, [], ◌∷◌, ◌++◌, arith,
  Bool-cases, Option-cases, All,
}
use nova_chat.Prelude.Text.{Text, text_eq, text_eq_iff}
use nova_chat.Prelude.Dict.{Dict, get, put, has, get-put}
use nova_chat.Server.Storage.{
  Storage, UserRecord, MsgRecord, register_user, create_session, remove_session, register_session,
  find_by_token, add_friend, remove_friend, save_message, conversation,
}
use nova_chat.Server.Storage.Accounts.{put-cases}
use nova_chat.Server.Storage.History.{conversation-save_message}
use nova_chat.Server.ChatHandler.{make_conv_id}
use nova_chat.Server.Archive.{messages-add_friend, messages-remove_friend}
use nova_chat.Server.Effects.{Change, leaves, enters, signs_in, signs_out, joins, parts, saves}

-- each record is kept under its own id
abbrev pub IsFiled : Dict UserRecord → Type 0
IsFiled users = (id : Text) (rec : UserRecord) → get users id ≡ some rec → rec.user_id ≡ id

-- The sender is a user, and the message stands in the conversation `id`, which is one of the
-- sender's.
abbrev pub IsAuthored : Dict UserRecord → Text → MsgRecord → Type 0
IsAuthored users id msg =
    ((rec : UserRecord) × (get users msg.sender_id ≡ some rec))
    × (msg.conversation_id ≡ id)
    × ((receiver : Text) × (id ≡ make_conv_id msg.sender_id receiver))

pub record HasAuthors (s : Storage) : Type 0 where
  pub filed : IsFiled s.users_by_id
  pub authored : (id : Text) → All (IsAuthored s.users_by_id id) (conversation s id)

abbrev KeepsUsers : Dict UserRecord → Dict UserRecord → Type 0
KeepsUsers m n =
    (id : Text) (rec : UserRecord)
    → get m id ≡ some rec
    → (now : UserRecord) × (get n id ≡ some now)

All-lift {ℓ ℓ'} :
    {P : MsgRecord → Type ℓ} {Q : MsgRecord → Type ℓ'} (msgs : List MsgRecord)
    → ((m : MsgRecord) → P m → Q m)
    → All P msgs
    → All Q msgs
All-lift [] f h = tt
All-lift (m ∷ msgs) f (h, hs) = (f m h, All-lift msgs f hs)

All-append {ℓ} :
    (P : MsgRecord → Type ℓ) (msgs added : List MsgRecord)
    → All P msgs
    → All P added
    → All P (msgs ++ added)
All-append P [] added h k = k
All-append P (m ∷ msgs) added (h, hs) k = (h, All-append P msgs added hs k)

-- Users may have come, and the messages are the same.
users_changed :
    (s t : Storage)
    → t.messages ≡ s.messages
    → KeepsUsers s.users_by_id t.users_by_id
    → IsFiled t.users_by_id
    → HasAuthors s
    → HasAuthors t
unfolding conversation
users_changed s t e keeps filed v = record {
  filed = filed;
  authored = λ id. rw e (
      All-lift (conversation s id)
        (λ m ((rec, known), there, own). (keeps m.sender_id rec known, there, own))
        (v.authored id));
}

-- Neither users nor messages have changed.
nothing_changed :
    (s t : Storage)
    → t.messages ≡ s.messages
    → t.users_by_id ≡ s.users_by_id
    → HasAuthors s
    → HasAuthors t
nothing_changed s t e u v = users_changed s t e (λ id rec h. (rec, rw u h)) (rw u v.filed) v

users-add_friend : (s : Storage) (a b : Text) → (add_friend s a b).1.users_by_id ≡ s.users_by_id
unfolding add_friend
users-add_friend s a b = ground arith

users-remove_friend :
    (s : Storage) (a b : Text) → (remove_friend s a b).1.users_by_id ≡ s.users_by_id
unfolding remove_friend
users-remove_friend s a b = ground arith

put-KeepsUsers : (m : Dict UserRecord) (k : Text) (rec : UserRecord) → KeepsUsers m (put m k rec)
put-KeepsUsers m k rec id old h = elim (Bool-cases (text_eq k id)) [
  | inl same ↦ (rec, ground (arith, get-put m k id rec))
  | inr other ↦ (old, ground (arith, get-put m k id rec))
]

pub put-IsFiled :
    (m : Dict UserRecord) (rec : UserRecord) → IsFiled m → IsFiled (put m rec.user_id rec)
put-IsFiled m rec filed id other h = either_way (put-cases m rec.user_id id rec h)
  where
    either_way :
        ((rec.user_id ≡ id) × (rec ≡ other))
          ⊎ ((text_eq rec.user_id id ≡ false) × (get m id ≡ some other))
        → other.user_id ≡ id
    either_way (inl (i, e)) = ap (λ (u : UserRecord). u.user_id) (sym e) ∙ i
    either_way (inr (_, there)) = filed id other there

register_user-HasAuthors :
    (s : Storage) (username password display_name : Text)
    → HasAuthors s
    → HasAuthors (register_user s username password display_name).1
unfolding register_user
register_user-HasAuthors s username password display_name v =
    elim (Bool-cases (has s.username_to_id username)) [
      | inl taken ↦ rw taken v
      | inr free ↦ rw free (
          users_changed s _ refl (put-KeepsUsers s.users_by_id _ _)
            (put-IsFiled s.users_by_id _ v.filed) v)
    ]

-- A token leads to a user who is found under the own id.
find_by_token-filed :
    (s : Storage) (token : Text) (rec : UserRecord)
    → IsFiled s.users_by_id
    → find_by_token s token ≡ some rec
    → get s.users_by_id rec.user_id ≡ some rec
unfolding find_by_token
find_by_token-filed s token rec filed h = elim (Option-cases (get s.token_to_user_id token)) [
  | inl unknown ↦ absurd (none_found (rw (unknown, find_by_token) at h))
  | inr (id, known) ↦
      (let there : get s.users_by_id id ≡ some rec = rw (known, find_by_token) at h in
        subst (λ j. get s.users_by_id j ≡ some rec) (sym (filed id rec there)) there)
]
  where
    none_found : {r : UserRecord} → none ≡ some r → ⊥
    none_found e = cc

save_message-HasAuthors :
    (s : Storage) (token : Text) (sender : UserRecord) (receiver : Text) (msg : MsgRecord)
    → find_by_token s token ≡ some sender
    → msg.sender_id ≡ sender.user_id
    → msg.conversation_id ≡ make_conv_id sender.user_id receiver
    → HasAuthors s
    → HasAuthors (save_message s msg).1
unfolding save_message
save_message-HasAuthors s token sender receiver msg ok from to v = record {
  filed = v.filed;
  authored = λ id.
      subst (All (IsAuthored s.users_by_id id)) (sym (conversation-save_message s msg id))
        (elim (Bool-cases (text_eq msg.conversation_id id)) [
          | inl own ↦ rw own (all_of id ((text_eq_iff _ id).0 own))
          | inr other ↦ rw other (v.authored id)
        ]);
}
  where
    known : get s.users_by_id msg.sender_id ≡ some sender
    known = ap (get s.users_by_id) from ∙ find_by_token-filed s token sender v.filed ok

    all_of :
        (id : Text)
        → msg.conversation_id ≡ id
        → All (IsAuthored s.users_by_id id) (
            conversation s msg.conversation_id
            ++ record msg { message_id = (save_message s msg).0 } ∷ [])
    all_of id e =
        All-append (IsAuthored s.users_by_id id) (conversation s msg.conversation_id) _
          (subst (λ c. All (IsAuthored s.users_by_id id) (conversation s c)) (sym e)
            (v.authored id))
          (
            (
              (sender, known),
              e,
              (receiver, sym e ∙ to ∙ ap (λ a. make_conv_id a receiver) (sym from)),
            ),
            tt,
          )

pub Change-HasAuthors : (i : ℕ) (s t : Storage) → Change i s t → HasAuthors s → HasAuthors t
unfolding create_session register_session remove_session
Change-HasAuthors i s t (leaves e) v = subst HasAuthors (sym e) v
Change-HasAuthors i s t (enters username password display_name e) v =
    subst HasAuthors (sym e) (register_user-HasAuthors s username password display_name v)
Change-HasAuthors i s t (signs_in username password rec ok e) v =
    nothing_changed s t (ap (λ (u : Storage). u.messages) e) (ap (λ (u : Storage). u.users_by_id) e)
      v
Change-HasAuthors i s t (signs_out token e) v =
    nothing_changed s t (ap (λ (u : Storage). u.messages) e) (ap (λ (u : Storage). u.users_by_id) e)
      v
Change-HasAuthors i s t (joins token user other ok e) v =
    nothing_changed s t
      (ap (λ (u : Storage). u.messages) e ∙ messages-add_friend s user.user_id other)
      (ap (λ (u : Storage). u.users_by_id) e ∙ users-add_friend s user.user_id other) v
Change-HasAuthors i s t (parts token user other ok e) v =
    nothing_changed s t
      (ap (λ (u : Storage). u.messages) e ∙ messages-remove_friend s user.user_id other)
      (ap (λ (u : Storage). u.users_by_id) e ∙ users-remove_friend s user.user_id other) v
Change-HasAuthors i s t (saves token sender receiver msg ok from to e) v =
    subst HasAuthors (sym e) (save_message-HasAuthors s token sender receiver msg ok from to v)
