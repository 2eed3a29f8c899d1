-- ===== src/Client/Db/Messages/Page.antt =====
-- What findByConversation returns.
use nova_chat.Prelude.{
  ℕ, min, ◌≡◌, refl, sym, ap, ◌∙◌, subst, inl, inr, ◌&&◌, ◌||◌, Bool, true, false, List, ◌++◌,
  filter, take, drop, length, length-reverse, length-take, take-append-drop, Bool-cases,
}
use nova_chat.Prelude.Text.{Text, text_eq}
use nova_chat.Prelude.Int.{ℤ, pos, lt_int, eq_int}
use nova_chat.Client.Db.Tables.{Db, Message}
use nova_chat.Client.Db.Tables.Order.{IsFalling, order_by-IsFalling, order_by-perm, length-order_by}
use nova_chat.Client.Db.Messages.{find_by_conversation, newest_first}
use mathlib.Core.List.{Perm, reverse, reverse-reverse}
use mathlib.Core.Path.{fun_ext}

-- The messages that a page of a conversation is taken from.
abbrev pub is_eligible : Text → ℤ → Message → Bool
is_eligible conv_id before_ts m =
    text_eq m.conversation_id conv_id
    && (eq_int before_ts (pos 0) || lt_int m.timestamp_ms before_ts)

abbrev pub time : Message → ℤ
time m = m.timestamp_ms

newest : Text → ℤ → Db → List Message
newest conv_id before_ts db = newest_first (filter (is_eligible conv_id before_ts) db.messages)

reversed_page :
    (conv_id : Text) (before_ts : ℤ) (limit : ℕ) (db : Db)
    → find_by_conversation conv_id before_ts limit db
      ≡ reverse (take limit (newest conv_id before_ts db))
unfolding find_by_conversation newest
reversed_page conv_id before_ts limit db =
    let of_test =
      λ (p : Message → Bool). reverse (take limit (newest_first (filter p db.messages))) in
    elim (Bool-cases (eq_int before_ts (pos 0))) [
      | inl latest ↦
          rw (latest, find_by_conversation)
            (ap of_test
              (fun_ext λ m. sym (rw latest (and-true (text_eq m.conversation_id conv_id)))))
      | inr before ↦ rw (before, find_by_conversation) (ap of_test (fun_ext λ m. rw before refl))
    ]
  where
    and-true : (b : Bool) → (b && true) ≡ b
    and-true true = refl
    and-true false = refl

-- findByConversation returns, oldest first, the newest `limit` of the conversation's messages, or of
-- those before `before_ts` where it is not 0: turned round, the page begins a list, by falling time,
-- of exactly these messages, and it has `limit` of them, or all where there are fewer.
pub find_by_conversation_lem :
    (conv_id : Text) (before_ts : ℤ) (limit : ℕ) (db : Db)
    → let page : List Message = find_by_conversation conv_id before_ts limit db in
      let found : List Message = filter (is_eligible conv_id before_ts) db.messages in
      (older : List Message) × IsFalling time (reverse page ++ older)
      × Perm (reverse page ++ older) found
      × (length page ≡ min limit (length found))
unfolding newest_first newest
find_by_conversation_lem conv_id before_ts limit db =
    let sorted = newest conv_id before_ts db in
    let found = filter (is_eligible conv_id before_ts) db.messages in
    let turned : reverse (find_by_conversation conv_id before_ts limit db) ≡ take limit sorted =
      ap reverse (reversed_page conv_id before_ts limit db) ∙ reverse-reverse (take limit sorted) in
    let whole : reverse (find_by_conversation conv_id before_ts limit db) ++ drop limit sorted
        ≡ sorted =
      ap (λ r. r ++ drop limit sorted) turned ∙ take-append-drop limit sorted in
    (
      drop limit sorted,
      subst (IsFalling time) (sym whole) (order_by-IsFalling time found),
      subst (λ l. Perm l found) (sym whole) (order_by-perm time found),
      ap length (reversed_page conv_id before_ts limit db)
          ∙ length-reverse (take limit sorted)
          ∙ length-take limit sorted
          ∙ ap (min limit) (length-order_by time found),
    )
