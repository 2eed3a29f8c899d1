-- ===== src/Server/Storage/Paging.antt =====
-- Pages of getHistory, one before the other, as ChatView asks for them by the time of the earliest
-- message that it shows.
use nova_chat.Prelude.{
  ℕ, ◌<◌, ◌≡◌, refl, ap, ◌∙◌, true, false, List, [], ◌∷◌, ◌++◌, append-nil, arith, All,
  filter-append, take,
}
use nova_chat.Prelude.Text.{Text}
use nova_chat.Prelude.Int.{ℤ, pos, lt_int}
use nova_chat.Server.Storage.{Storage, MsgRecord, conversation, get_history}
use nova_chat.Server.Storage.History.{eligible, let_through, get_history_lem}
use mathlib.Core.List.{reverse}

-- Earlier than `t`; and not.
abbrev pub Earlier : ℤ → MsgRecord → Type 0
Earlier t m = lt_int m.timestamp_ms t ≡ true

abbrev pub NotEarlier : ℤ → MsgRecord → Type 0
NotEarlier t m = lt_int m.timestamp_ms t ≡ false

eligible_none :
    (t : ℤ) (msgs : List MsgRecord)
    → lt_int (pos 0) t ≡ true
    → All (NotEarlier t) msgs
    → eligible t msgs ≡ []
eligible_none t [] h v = refl
eligible_none t (m ∷ msgs) h v = rw h (rw v.0 (eligible_none t msgs h v.1))

eligible_whole : (t : ℤ) (msgs : List MsgRecord) → All (Earlier t) msgs → eligible t msgs ≡ msgs
eligible_whole t [] v = refl
eligible_whole t (m ∷ msgs) v = ground (arith, eligible_whole t msgs)

-- In a conversation whose messages up to some point are earlier than the time `t`, which is positive,
-- and from there on are not, a page asked for before `t` ends at that point: pages join without a
-- gap and without a message shown twice.
pub get_history_before :
    (s : Storage) (conv_id : Text) (t : ℤ) (limit : ℕ) (before after : List MsgRecord)
    → conversation s conv_id ≡ before ++ after
    → lt_int (pos 0) t ≡ true
    → All (Earlier t) before
    → All (NotEarlier t) after
    → 0 < limit
    → get_history s conv_id t (pos limit) ≡ reverse (take limit (reverse before))
get_history_before s conv_id t limit before after split positive earlier later h =
    get_history_lem s conv_id t limit h
    ∙ ap (λ (r : List MsgRecord). reverse (take limit (reverse r)))
        (ap (eligible t) split
          ∙ filter-append (let_through t) before after
          ∙ ap (λ r. r ++ eligible t after) (eligible_whole t before earlier)
          ∙ ap (λ r. before ++ r) (eligible_none t after positive later)
          ∙ append-nil before)
