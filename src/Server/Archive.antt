-- ===== src/Server/Archive.antt =====
-- What the store keeps while it is changed: the messages of each conversation, the names of its
-- users, and that friendship goes both ways.
use nova_chat.Prelude.{
  ℕ, ◌≡◌, refl, sym, ap, ◌∙◌, subst, inl, inr, some, List, [], ◌∷◌, ◌++◌, append-nil, append_assoc,
  arith, Bool-cases,
}
use nova_chat.Prelude.Text.{Text, text_eq, text_eq_iff}
use nova_chat.Prelude.Dict.{get, get-put}
use nova_chat.Server.Storage.{
  Storage, MsgRecord, register_user, create_session, remove_session, register_session, add_friend,
  remove_friend, save_message, conversation,
}
use nova_chat.Server.Hex.{generate_id}
use nova_chat.Server.Storage.History.{conversation-save_message}
use nova_chat.Server.Storage.Friends.{
  IsMutual, are_friends, add_friend-IsMutual, remove_friend-IsMutual,
}
use nova_chat.Server.Soundness.{friendships-register_user}
use nova_chat.Server.Effects.{Change, leaves, enters, signs_in, signs_out, joins, parts, saves}

-- Each conversation of `s` is the beginning of that of `t`.
abbrev pub Grown : Storage → Storage → Type 0
Grown s t =
    (id : Text) → (added : List MsgRecord) × (conversation t id ≡ conversation s id ++ added)

same_messages : (s t : Storage) → t.messages ≡ s.messages → Grown s t
unfolding conversation
same_messages s t e id = ([], rw e (sym (append-nil (conversation s id))))

pub Grown-refl : (s : Storage) → Grown s s
Grown-refl s = same_messages s s refl

pub Grown-trans : (s t u : Storage) → Grown s t → Grown t u → Grown s u
Grown-trans s t u g h id =
    let (a, e) = g id in
    let (b, f) = h id in (a ++ b, f ∙ ap (λ r. r ++ b) e ∙ append_assoc (conversation s id) a b)

save_message-Grown : (s : Storage) (msg : MsgRecord) → Grown s (save_message s msg).1
save_message-Grown s msg id =
    let stored = conversation-save_message s msg id in
    elim (Bool-cases (text_eq msg.conversation_id id)) [
      | inl own ↦ (
        record msg { message_id = (save_message s msg).0 } ∷ [],
        stored
            ∙ rw own (
                ap
                  (λ c. conversation s c ++ record msg { message_id = (save_message s msg).0 } ∷ [])
                  ((text_eq_iff _ id).0 own)),
      )
      | inr other ↦ ([], stored ∙ rw other (sym (append-nil (conversation s id))))
    ]

pub messages-register_user :
    (s : Storage) (username password display_name : Text)
    → (register_user s username password display_name).1.messages ≡ s.messages
unfolding register_user
messages-register_user s username password display_name = ground arith

pub messages-add_friend : (s : Storage) (a b : Text) → (add_friend s a b).1.messages ≡ s.messages
unfolding add_friend
messages-add_friend s a b = ground arith

pub messages-remove_friend :
    (s : Storage) (a b : Text) → (remove_friend s a b).1.messages ≡ s.messages
unfolding remove_friend
messages-remove_friend s a b = ground arith

names-add_friend :
    (s : Storage) (a b : Text) → (add_friend s a b).1.username_to_id ≡ s.username_to_id
unfolding add_friend
names-add_friend s a b = ground arith

names-remove_friend :
    (s : Storage) (a b : Text) → (remove_friend s a b).1.username_to_id ≡ s.username_to_id
unfolding remove_friend
names-remove_friend s a b = ground arith

pub Change-Grown : (i : ℕ) (s t : Storage) → Change i s t → Grown s t
unfolding create_session register_session remove_session
Change-Grown i s t (leaves e) = same_messages s t (ap (λ (u : Storage). u.messages) e)
Change-Grown i s t (enters username password display_name e) =
    same_messages s t
      (ap (λ (u : Storage). u.messages) e ∙ messages-register_user s username password display_name)
Change-Grown i s t (signs_in username password rec ok e) =
    same_messages s t (ap (λ (u : Storage). u.messages) e)
Change-Grown i s t (signs_out token e) = same_messages s t (ap (λ (u : Storage). u.messages) e)
Change-Grown i s t (joins token user other ok e) =
    same_messages s t
      (ap (λ (u : Storage). u.messages) e ∙ messages-add_friend s user.user_id other)
Change-Grown i s t (parts token user other ok e) =
    same_messages s t
      (ap (λ (u : Storage). u.messages) e ∙ messages-remove_friend s user.user_id other)
Change-Grown i s t (saves token sender receiver msg ok from to e) =
    subst (Grown s) (sym e) (save_message-Grown s msg)

-- A username of `s` leads to the same id in `t`.
abbrev pub KeepsNames : Storage → Storage → Type 0
KeepsNames s t =
    (username id : Text)
    → get s.username_to_id username ≡ some id
    → get t.username_to_id username ≡ some id

same_names : (s t : Storage) → t.username_to_id ≡ s.username_to_id → KeepsNames s t
same_names s t e username id h = rw e h

register_user-KeepsNames :
    (s : Storage) (username password display_name : Text)
    → KeepsNames s (register_user s username password display_name).1
unfolding register_user
register_user-KeepsNames s username password display_name other id h = ground (
  arith,
  get-put s.username_to_id username other (generate_id s.rng).0,
  text_eq_iff username other,
)

pub Change-KeepsNames : (i : ℕ) (s t : Storage) → Change i s t → KeepsNames s t
unfolding create_session register_session remove_session save_message
Change-KeepsNames i s t (leaves e) = same_names s t (ap (λ (u : Storage). u.username_to_id) e)
Change-KeepsNames i s t (enters username password display_name e) =
    subst (KeepsNames s) (sym e) (register_user-KeepsNames s username password display_name)
Change-KeepsNames i s t (signs_in username password rec ok e) =
    same_names s t (ap (λ (u : Storage). u.username_to_id) e)
Change-KeepsNames i s t (signs_out token e) =
    same_names s t (ap (λ (u : Storage). u.username_to_id) e)
Change-KeepsNames i s t (joins token user other ok e) =
    same_names s t
      (ap (λ (u : Storage). u.username_to_id) e ∙ names-add_friend s user.user_id other)
Change-KeepsNames i s t (parts token user other ok e) =
    same_names s t
      (ap (λ (u : Storage). u.username_to_id) e ∙ names-remove_friend s user.user_id other)
Change-KeepsNames i s t (saves token sender receiver msg ok from to e) =
    same_names s t (ap (λ (u : Storage). u.username_to_id) e)

same_friends : (s t : Storage) → t.friendships ≡ s.friendships → IsMutual s → IsMutual t
unfolding are_friends
same_friends s t e m a b = rw e (m a b)

pub Change-IsMutual : (i : ℕ) (s t : Storage) → Change i s t → IsMutual s → IsMutual t
unfolding create_session register_session remove_session save_message
Change-IsMutual i s t (leaves e) m = same_friends s t (ap (λ (u : Storage). u.friendships) e) m
Change-IsMutual i s t (enters username password display_name e) m =
    same_friends s t
      (ap (λ (u : Storage). u.friendships) e
        ∙ friendships-register_user s username password display_name)
      m
Change-IsMutual i s t (signs_in username password rec ok e) m =
    same_friends s t (ap (λ (u : Storage). u.friendships) e) m
Change-IsMutual i s t (signs_out token e) m =
    same_friends s t (ap (λ (u : Storage). u.friendships) e) m
Change-IsMutual i s t (joins token user other ok e) m =
    subst IsMutual (sym e) (add_friend-IsMutual s user.user_id other m)
Change-IsMutual i s t (parts token user other ok e) m =
    subst IsMutual (sym e) (remove_friend-IsMutual s user.user_id other m)
Change-IsMutual i s t (saves token sender receiver msg ok from to e) m =
    same_friends s t (ap (λ (u : Storage). u.friendships) e) m
