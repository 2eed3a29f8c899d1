-- ===== src/Client/Db/Tables.antt =====
-- The rows of the tables, which are the structs of client/src/core, and statements on any table.
pub mod Rows
pub mod Order
pub mod Unique
use nova_chat.Prelude.{
  ℕ, Bool, true, false, not, Option, none, some, List, [], ◌∷◌, ◌++◌, if◌then◌else◌, filter,
}
use nova_chat.Prelude.Text.{Text}
use nova_chat.Prelude.Int.{ℤ}

pub record LocalAccount : Type 0 where
  pub id : ℕ
  pub server_id : Text
  pub username : Text
  pub display_name : Text
  pub avatar_url : Text
  pub token : Text
  pub is_active : Bool

pub record Contact : Type 0 where
  pub user_id : Text
  pub owner_id : Text
  pub username : Text
  pub display_name : Text
  pub avatar_url : Text

pub record Conversation : Type 0 where
  pub conversation_id : Text
  pub owner_id : Text
  pub target_id : Text
  pub last_message_preview : Text
  pub last_message_time : ℤ
  pub unread_count : ℕ

pub data MessageStatus : Type 0 where
  sending : MessageStatus
  sent : MessageStatus
  failed : MessageStatus

pub data MessageContentType : Type 0 where
  text : MessageContentType
  image : MessageContentType
  file : MessageContentType

pub record Message : Type 0 where
  pub message_id : Text
  pub conversation_id : Text
  pub sender_id : Text
  pub content : Text
  pub type : MessageContentType
  pub timestamp_ms : ℤ
  pub status : MessageStatus

-- `next_id` is the next AUTOINCREMENT value of local_accounts, the one id that is read back.
pub record Db : Type 0 where
  pub local_accounts : List LocalAccount
  pub next_id : ℕ
  pub contacts : List Contact
  pub conversations : List Conversation
  pub messages : List Message

module _ {ℓ} {R : Type ℓ} where
  -- SELECT … WHERE p LIMIT 1
  unfoldable pub select_one : (R → Bool) → List R → Option R
  select_one p [] = none
  select_one p (r ∷ rows) = if p r then some r else select_one p rows

  -- UPDATE … SET f WHERE p
  unfoldable pub update_where : (R → Bool) → (R → R) → List R → List R
  update_where p f [] = []
  update_where p f (r ∷ rows) = (if p r then f r else r) ∷ update_where p f rows

  -- DELETE … WHERE p
  unfoldable pub delete_where : (R → Bool) → List R → List R
  delete_where p = filter λ r. not (p r)

  -- a row that meets the test is there
  unfoldable pub exists_where : (R → Bool) → List R → Bool
  exists_where p [] = false
  exists_where p (r ∷ rows) = if p r then true else exists_where p rows

  -- INSERT … ON CONFLICT(key) DO UPDATE SET f, where `p` tells the rows with the new row's key
  unfoldable pub upsert : (R → Bool) → (R → R) → R → List R → List R
  unfolding exists_where update_where
  upsert p f r rows = if exists_where p rows then update_where p f rows else rows ++ r ∷ []

  -- INSERT OR IGNORE
  unfoldable pub insert_or_ignore : (R → Bool) → R → List R → List R
  unfolding exists_where
  insert_or_ignore p r rows = if exists_where p rows then rows else rows ++ r ∷ []

  -- ORDER BY, where `before a b` says that `a` must stand before `b`; equal rows keep their order
  unfoldable pub insert_sorted : (R → R → Bool) → R → List R → List R
  insert_sorted before r [] = r ∷ []
  insert_sorted before r (s ∷ rows) =
      if before s r then s ∷ insert_sorted before r rows else r ∷ s ∷ rows

  unfoldable pub order_by : (R → R → Bool) → List R → List R
  unfolding insert_sorted
  order_by before [] = []
  order_by before (r ∷ rows) = insert_sorted before r (order_by before rows)
