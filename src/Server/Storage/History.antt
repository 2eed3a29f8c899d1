-- ===== src/Server/Storage/History.antt =====
-- Message storage of ServerStorage: saveMessage, getHistory and getLatestMessages.
use nova_chat.Prelude.{
  ℕ, ◌+◌, ◌-◌, ◌<◌, min, ◌≡◌, refl, sym, ap, ◌∙◌, ◌⊎◌, inl, inr, Bool, true, false, not, List, [],
  ◌∷◌, ◌++◌, append_assoc, append-nil, if◌then◌else◌, arith, ltb, ltb→lt, ltb→le, Option-cases,
  Bool-cases, length, length-append, length-take, length-reverse, take, take-nil, take-cons,
  take_all, filter, filter-append,
}
use nova_chat.Prelude.Text.{Text, text_eq, text_eq_refl}
use nova_chat.Prelude.Int.{ℤ, pos, lt_int}
use nova_chat.Prelude.Dict.{get, get-put}
use nova_chat.Server.Hex.{generate_hex}
use nova_chat.Server.Storage.{
  Storage, MsgRecord, conversation, save_message, is_too_new, history_loop, get_history,
}
use mathlib.Core.List.{reverse, reverse-cons, reverse-append, reverse-reverse}

-- A `before_ts` of 0 or less lets every message through, and another one those that are earlier.
abbrev pub let_through : ℤ → MsgRecord → Bool
let_through before_ts m = if lt_int (pos 0) before_ts then lt_int m.timestamp_ms before_ts else true

abbrev pub eligible : ℤ → List MsgRecord → List MsgRecord
eligible before_ts = filter (let_through before_ts)

let_through_lem :
    (before_ts : ℤ) (m : MsgRecord) → not (is_too_new before_ts m) ≡ let_through before_ts m
unfolding is_too_new
let_through_lem before_ts m = ground arith

-- what the loop leaves in
abbrev passing : ℤ → List MsgRecord → List MsgRecord
passing before_ts = filter λ m. not (is_too_new before_ts m)

passing_lem :
    (before_ts : ℤ) (msgs : List MsgRecord) → passing before_ts msgs ≡ eligible before_ts msgs
passing_lem before_ts [] = refl
passing_lem before_ts (m ∷ msgs) =
    rw (let_through_lem before_ts m)
      (ap (λ r. if let_through before_ts m then m ∷ r else r) (passing_lem before_ts msgs))

-- The loop collects the first messages that pass, up to the limit.
history_loop-take :
    (msgs : List MsgRecord) (before_ts : ℤ) (limit : ℕ) (result : List MsgRecord)
    → length result < limit
    → history_loop msgs before_ts (pos limit) result
      ≡ result ++ take (limit - length result) (passing before_ts msgs)
unfolding history_loop
history_loop-take [] before_ts limit result h = rw (take-nil (limit - length result), append-nil)
history_loop-take (m ∷ msgs) before_ts limit result h = elim (Bool-cases (is_too_new before_ts m)) [
  | inl skip ↦ rw skip (history_loop-take msgs before_ts limit result h)
  | inr keep ↦
      (let l : length (result ++ m ∷ []) ≡ length result + 1 = length-append result (m ∷ []) in
        let t : take (limit - length result) (m ∷ passing before_ts msgs)
            ≡ m ∷ take (limit - length result - 1) (passing before_ts msgs) =
          take-cons (limit - length result) m (passing before_ts msgs) (omega arith) in
        rw keep (
          rw t (elim (Bool-cases (ltb (length (result ++ m ∷ [])) limit)) [
            | inr full ↦
                (let z : limit - length result - 1 ≡ 0 = omega (arith, ltb→le _ _ full, l) in
                  rw full (rw z refl))
            | inl room ↦
                (let n : limit - length result - 1 ≡ limit - length (result ++ m ∷ []) =
                    omega (arith, l) in
                  rw room (
                    rw (
                      n,
                      history_loop-take msgs before_ts limit (result ++ m ∷ []) (ltb→lt _ _ room),
                      append_assoc result (m ∷ [])
                          (take (limit - length (result ++ m ∷ [])) (passing before_ts msgs)),
                    )))
          ])))
]

filter-reverse :
    (p : MsgRecord → Bool) (msgs : List MsgRecord)
    → filter p (reverse msgs) ≡ reverse (filter p msgs)
filter-reverse p [] = refl
filter-reverse p (m ∷ msgs) =
    ap (filter p) (reverse-cons m msgs)
    ∙ filter-append p (reverse msgs) (m ∷ [])
    ∙ ap (λ r. r ++ filter p (m ∷ [])) (filter-reverse p msgs)
    ∙ last (Bool-cases (p m))
  where
    last :
        (p m ≡ true) ⊎ (p m ≡ false)
        → reverse (filter p msgs) ++ filter p (m ∷ []) ≡ reverse (filter p (m ∷ msgs))
    last (inl e) = rw e (sym (reverse-cons m (filter p msgs)))
    last (inr e) = rw e (append-nil (reverse (filter p msgs)))

minus_zero : (n : ℕ) → n - 0 ≡ n
minus_zero n = omega arith

-- getHistory with a limit of one or more returns the last `limit` of the messages that `before_ts`
-- lets through, in the order in which they were stored: of all messages of the conversation where
-- `before_ts` is 0 or less, and otherwise of those whose timestamp is strictly less than it.
pub get_history_lem :
    (s : Storage) (conv_id : Text) (before_ts : ℤ) (limit : ℕ)
    → 0 < limit
    → get_history s conv_id before_ts (pos limit)
      ≡ reverse (take limit (reverse (eligible before_ts (conversation s conv_id))))
unfolding get_history conversation
get_history_lem s conv_id before_ts limit h = elim (Option-cases (get s.messages conv_id)) [
  | inl missing ↦ rw (missing, get_history, conversation) (rw take-nil)
  | inr (msgs, found) ↦
      rw (found, get_history, conversation)
        (ap reverse (
          history_loop-take (reverse msgs) before_ts limit [] (omega arith)
          ∙ ap (λ (n : ℕ). take n (passing before_ts (reverse msgs))) (minus_zero limit)
          ∙ ap (take limit)
              (passing_lem before_ts (reverse msgs) ∙ filter-reverse (let_through before_ts) msgs)))
]

get_history_size :
    (s : Storage) (conv_id : Text) (before_ts : ℤ) (limit : ℕ)
    → 0 < limit
    → length (get_history s conv_id before_ts (pos limit))
      ≡ min limit (length (eligible before_ts (conversation s conv_id)))
get_history_size s conv_id before_ts limit h =
    let old : List MsgRecord = eligible before_ts (conversation s conv_id) in
    ap length (get_history_lem s conv_id before_ts limit h)
    ∙ length-reverse (take limit (reverse old))
    ∙ length-take limit (reverse old)
    ∙ ap (min limit) (length-reverse old)

-- A page that is shorter than its limit, which is one or more, leaves nothing out: it is all that
-- `before_ts` lets through.
pub get_history_complete :
    (s : Storage) (conv_id : Text) (before_ts : ℤ) (limit : ℕ)
    → 0 < limit
    → length (get_history s conv_id before_ts (pos limit)) < limit
    → get_history s conv_id before_ts (pos limit) ≡ eligible before_ts (conversation s conv_id)
get_history_complete s conv_id before_ts limit h short =
    let old : List MsgRecord = eligible before_ts (conversation s conv_id) in
    get_history_lem s conv_id before_ts limit h
    ∙ ap reverse (
        take_all limit (reverse old)
          (omega (arith, get_history_size s conv_id before_ts limit h, length-reverse old)))
    ∙ reverse-reverse old

eligible_whole : (msgs : List MsgRecord) → eligible (pos 0) msgs ≡ msgs
eligible_whole [] = refl
eligible_whole (m ∷ msgs) = ap (λ r. m ∷ r) (eligible_whole msgs)

-- A saved message stands at the end of its conversation under the id that was drawn; the other
-- conversations stay as they were.
pub conversation-save_message :
    (s : Storage) (msg : MsgRecord) (conv_id : Text)
    → conversation (save_message s msg).1 conv_id ≡ (
        if text_eq msg.conversation_id conv_id
        then conversation s msg.conversation_id
          ++ record msg { message_id = (save_message s msg).0 } ∷ []
        else conversation s conv_id)
unfolding conversation save_message
conversation-save_message s msg conv_id = ground (
  arith,
  get-put s.messages msg.conversation_id conv_id (
      conversation s msg.conversation_id
      ++ record msg { message_id = (generate_hex 8 s.rng).0 } ∷ []),
)

-- With no `before_ts` and a limit of one or more, the page read after a message was saved is the
-- page read before it, one longer, with the message at its end.
pub get_history-save_message :
    (s : Storage) (msg : MsgRecord) (limit : ℕ)
    → 0 < limit
    → get_history (save_message s msg).1 msg.conversation_id (pos 0) (pos (limit + 1))
      ≡ get_history s msg.conversation_id (pos 0) (pos limit)
        ++ record msg { message_id = (save_message s msg).0 } ∷ []
get_history-save_message s msg limit h =
    let new : MsgRecord = record msg { message_id = (save_message s msg).0 } in
    let old : List MsgRecord = conversation s msg.conversation_id in
    let stored : conversation (save_message s msg).1 msg.conversation_id ≡ old ++ new ∷ [] =
      conversation-save_message s msg msg.conversation_id ∙ rw (text_eq_refl msg.conversation_id) in
    let one_less : limit + 1 - 1 ≡ limit = omega arith in
    get_history_lem (save_message s msg).1 msg.conversation_id (pos 0) (limit + 1) (omega arith)
    ∙ ap (λ r. reverse (take (limit + 1) (reverse r)))
        (ap (eligible (pos 0)) stored ∙ eligible_whole (old ++ new ∷ []))
    ∙ ap (λ r. reverse (take (limit + 1) r)) (reverse-append old (new ∷ []))
    ∙ ap reverse (take-cons (limit + 1) new (reverse old) (omega arith))
    ∙ ap (λ (n : ℕ). reverse (new ∷ take n (reverse old))) one_less
    ∙ reverse-cons new (take limit (reverse old))
    ∙ ap (λ r. r ++ new ∷ [])
        (sym (
          get_history_lem s msg.conversation_id (pos 0) limit h
          ∙ ap (λ r. reverse (take limit (reverse r))) (eligible_whole old)))
