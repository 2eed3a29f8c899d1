-- ===== src/Server/Storage/Latest.antt =====
-- The conversation list of ServerStorage: getLatestMessages.
use nova_chat.Prelude.{
  ◌≡◌, refl, sym, ap, subst, ◌∙◌, ◌⊎◌, inl, inr, true, false, none, some, List, [], ◌∷◌, ◌++◌,
  Bool-cases, Option-cases,
}
use nova_chat.Prelude.Text.{Text, Occurs, contains, contains_sound, contains_iff}
use nova_chat.Prelude.Int.{ℤ, lt_int, lt_int_asym}
use nova_chat.Prelude.Dict.{Dict}
use nova_chat.Server.Storage.{
  Storage, MsgRecord, insert_by_time, sort_by_time, latest_of, last_message, get_latest_messages,
}
use mathlib.Core.List.{Perm}
use mathlib.Core.List.Perm

-- Later messages stand first: no message is newer than the one before it.
abbrev pub Below : ℤ → List MsgRecord → Type 0
Below ts [] = Unit
Below ts (m ∷ msgs) = lt_int ts m.timestamp_ms ≡ false

abbrev pub IsNewestFirst : List MsgRecord → Type 0
IsNewestFirst [] = Unit
IsNewestFirst (m ∷ msgs) = Below m.timestamp_ms msgs × IsNewestFirst msgs

insert_by_time-Below :
    (ts : ℤ) (m : MsgRecord) (msgs : List MsgRecord)
    → lt_int ts m.timestamp_ms ≡ false
    → Below ts msgs
    → Below ts (insert_by_time m msgs)
unfolding insert_by_time
insert_by_time-Below ts m [] h b = h
insert_by_time-Below ts m (n ∷ msgs) h b =
    elim (Bool-cases (lt_int n.timestamp_ms m.timestamp_ms)) [
      | inl newer ↦ rw newer h
      | inr older ↦ rw older b
    ]

insert_by_time-IsNewestFirst :
    (m : MsgRecord) (msgs : List MsgRecord)
    → IsNewestFirst msgs
    → IsNewestFirst (insert_by_time m msgs)
unfolding insert_by_time
insert_by_time-IsNewestFirst m [] v = (tt, tt)
insert_by_time-IsNewestFirst m (n ∷ msgs) v =
    elim (Bool-cases (lt_int n.timestamp_ms m.timestamp_ms)) [
      | inl newer ↦ rw newer (lt_int_asym n.timestamp_ms m.timestamp_ms newer, v)
      | inr older ↦ rw older (
        insert_by_time-Below n.timestamp_ms m msgs older v.0,
        insert_by_time-IsNewestFirst m msgs v.1,
      )
    ]

insert_by_time-perm :
    (m : MsgRecord) (msgs : List MsgRecord) → Perm (insert_by_time m msgs) (m ∷ msgs)
unfolding insert_by_time
insert_by_time-perm m [] = Perm.refl (m ∷ [])
insert_by_time-perm m (n ∷ msgs) = elim (Bool-cases (lt_int n.timestamp_ms m.timestamp_ms)) [
  | inl newer ↦ rw newer (Perm.refl (m ∷ n ∷ msgs))
  | inr older ↦
      rw older (Perm.trans (Perm.cons n (insert_by_time-perm m msgs)) (Perm.swap m n msgs))
]

sort_by_time-perm : (msgs : List MsgRecord) → Perm (sort_by_time msgs) msgs
unfolding sort_by_time
sort_by_time-perm [] = Perm.refl []
sort_by_time-perm (m ∷ msgs) =
    Perm.trans (insert_by_time-perm m (sort_by_time msgs)) (Perm.cons m (sort_by_time-perm msgs))

sort_by_time-IsNewestFirst : (msgs : List MsgRecord) → IsNewestFirst (sort_by_time msgs)
unfolding sort_by_time
sort_by_time-IsNewestFirst [] = tt
sort_by_time-IsNewestFirst (m ∷ msgs) =
    insert_by_time-IsNewestFirst m (sort_by_time msgs) (sort_by_time-IsNewestFirst msgs)

-- The messages are the last ones of these conversations, in their order: one of each conversation
-- that has messages and in whose id the user's id occurs, and none of the others.
pub data Collects (user_id : Text) : Dict (List MsgRecord) → List MsgRecord → Type 0 where
  no_conversation : Collects user_id [] []
  takes :
      (conv_id : Text) (earlier : List MsgRecord) (m : MsgRecord) (rest : Dict (List MsgRecord))
      (ms : List MsgRecord)
      → Occurs user_id conv_id
      → Collects user_id rest ms
      → Collects user_id ((conv_id, earlier ++ m ∷ []) ∷ rest) (m ∷ ms)
  skips :
      (conv_id : Text) (msgs : List MsgRecord) (rest : Dict (List MsgRecord)) (ms : List MsgRecord)
      → (¬ Occurs user_id conv_id) ⊎ (msgs ≡ [])
      → Collects user_id rest ms
      → Collects user_id ((conv_id, msgs) ∷ rest) ms

last_message-none : (msgs : List MsgRecord) → last_message msgs ≡ none → msgs ≡ []
unfolding last_message
last_message-none [] e = refl
last_message-none (m ∷ []) e = cc
last_message-none (m ∷ n ∷ msgs) e = absurd (no_cons (last_message-none (n ∷ msgs) e))
  where
    no_cons : (n ∷ msgs) ≡ [] → ⊥
    no_cons h = cc

last_message-some :
    (msgs : List MsgRecord) (m : MsgRecord)
    → last_message msgs ≡ some m
    → (earlier : List MsgRecord) × (earlier ++ m ∷ [] ≡ msgs)
unfolding last_message
last_message-some [] m e = cc
last_message-some (n ∷ []) m e = ([], cc)
last_message-some (n ∷ k ∷ msgs) m e =
    let (earlier, same) = last_message-some (k ∷ msgs) m e in (n ∷ earlier, ap (λ r. n ∷ r) same)

latest_of-Collects :
    (user_id : Text) (convs : Dict (List MsgRecord))
    → Collects user_id convs (latest_of user_id convs)
unfolding latest_of
latest_of-Collects user_id [] = no_conversation
latest_of-Collects user_id ((conv_id, msgs) ∷ rest) =
    let v : Collects user_id rest (latest_of user_id rest) = latest_of-Collects user_id rest in
    elim (Bool-cases (contains user_id conv_id)) [
      | inr apart ↦ rw apart (
          skips conv_id msgs rest (latest_of user_id rest)
            (inl (λ o. differ (sym ((contains_iff user_id conv_id).1 o) ∙ apart))) v)
      | inl within ↦ rw within (elim (Option-cases (last_message msgs)) [
        | inl nothing ↦
            rw (nothing, latest_of)
              (skips conv_id msgs rest (latest_of user_id rest)
                (inr (last_message-none msgs nothing)) v)
        | inr (m, found) ↦
            (let (earlier, same) = last_message-some msgs m found in
              rw (found, latest_of)
                (subst (λ r. Collects user_id ((conv_id, r) ∷ rest) (m ∷ latest_of user_id rest))
                  same
                  (takes conv_id earlier m rest (latest_of user_id rest)
                    (contains_sound user_id conv_id within) v)))
      ])
    ]
  where
    differ : true ≡ false → ⊥
    differ e = cc

-- getLatestMessages returns, newest first, the last message of each conversation that has messages
-- and in whose id the user's id occurs: one for each such conversation, and nothing else.
pub get_latest_messages_lem :
    (s : Storage) (user_id : Text)
    → IsNewestFirst (get_latest_messages s user_id)
      × (ms : List MsgRecord) × Collects user_id s.messages ms
      × Perm (get_latest_messages s user_id) ms
unfolding get_latest_messages
get_latest_messages_lem s user_id = (
  sort_by_time-IsNewestFirst (latest_of user_id s.messages),
  latest_of user_id s.messages,
  latest_of-Collects user_id s.messages,
  sort_by_time-perm (latest_of user_id s.messages),
)
