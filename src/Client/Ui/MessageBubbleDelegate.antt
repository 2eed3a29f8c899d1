-- ===== src/Client/Ui/MessageBubbleDelegate.antt =====
-- client/src/ui/MessageBubbleDelegate.cpp: which text stands under a bubble, on which side the bubble
-- is, its colours, and where paint puts the bubble and the text under it in a row of the size that
-- sizeHint asked for. QFontMetrics is a parameter; the calls of the painter are left out.
use nova_chat.Prelude.{
  ℕ, ◌+◌, ◌-◌, ◌*◌, ◌/◌, min, Option, none, some, ◌==◌, ltb, ◌&&◌, ◌++◌, if◌then◌else◌,
}
use nova_chat.Prelude.Text.{Text, bytes}
use nova_chat.Client.Db.Tables.{MessageStatus, sending, sent, failed}
use nova_chat.Client.Ui.{Qt}
use nova_chat.Client.Ui.ChatView.{Item}

pub data Side : Type 0 where
  left : Side
  right : Side

-- static_cast<int>(status)
unfoldable pub status_code : MessageStatus → ℕ
status_code sending = 0
status_code sent = 1
status_code failed = 2

unfoldable pub foot : Qt → Item → Text
unfolding status_code
foot qt item =
    let ts = qt.time_text (bytes "HH:mm") item.timestamp in
    if item.is_outgoing
    then (if status_code item.status == 2 then bytes "Failed " ++ ts else ts)
    else ts

unfoldable pub side : Item → Side
side item = if item.is_outgoing then right else left

-- the bubble's colour, as red, green and blue
unfoldable pub bubble_color : Item → ℕ × (ℕ × ℕ)
bubble_color item = if item.is_outgoing then (7, (193, 96)) else (240, (240, 240))

-- The width and the height of boundingRect, of a text wrapped at a width.
pub record Metrics : Type 0 where
  pub width : ℕ → Text → ℕ
  pub height : ℕ → Text → ℕ

-- A rectangle of whole pixels; `x` and `y` count from the left upper corner of the row.
pub record Box : Type 0 where
  pub x : ℕ
  pub y : ℕ
  pub width : ℕ
  pub height : ℕ

abbrev pub pad_h : ℕ
pad_h = 12

abbrev pub pad_v : ℕ
pad_v = 8

abbrev pub item_margin : ℕ
item_margin = 6

-- The width that the text is wrapped at, for the bubble's greatest width. It is negative for a
-- bubble of less than 24 pixels, which is not modelled: `none`.
unfoldable pub text_max_width : ℕ → Option ℕ
text_max_width bubble = if ltb bubble (2 * pad_h) then none else some (bubble - 2 * pad_h)

-- kBubbleMaxWidthPct of a width
unfoldable pub bubble_max_width : ℕ → ℕ
bubble_max_width w = w * 65 / 100

-- the bubble's box in a row of width `row`, whose text is wrapped at `at`
unfoldable pub bubble_box : Metrics → ℕ → ℕ → Item → Box
unfolding bubble_max_width
bubble_box fm row at item =
    let total = row - 16 in
    let w = min (fm.width at item.content + 2 * pad_h) (bubble_max_width total) in
    record {
      x = if item.is_outgoing then 8 + total - 1 - w else 8;
      y = item_margin;
      width = w;
      height = fm.height at item.content + 2 * pad_v;
    }

-- The box of the text under a bubble. bottom() of a rectangle is its last row of pixels.
unfoldable pub foot_box : ℕ → Box → Box
foot_box row bubble = record {
  x = 8;
  y = bubble.y + bubble.height - 1 + 2;
  width = row - 16;
  height = 20;
}

-- paint: the boxes of the bubble and of the text under it
unfoldable pub paint : Metrics → ℕ → Item → Option (Box × Box)
unfolding text_max_width bubble_max_width bubble_box foot_box
paint fm row item = elim (text_max_width (bubble_max_width (row - 16))) [
  | none ↦ none
  | some at ↦ some (bubble_box fm row at item, foot_box row (bubble_box fm row at item))
]

-- the width of option.rect where isValid() holds of it
unfoldable pub view_width : ℕ → ℕ → ℕ
view_width w h = if ltb 0 w && ltb 0 h then w else 500

-- sizeHint, for the width and the height of option.rect: the row's width and height
unfoldable pub size_hint : Metrics → ℕ → ℕ → Item → Option (ℕ × ℕ)
unfolding text_max_width bubble_max_width
size_hint fm w h item = elim (text_max_width (bubble_max_width (view_width w h))) [
  | none ↦ none
  | some at ↦
      some
        (view_width w h, item_margin + pad_v + fm.height at item.content + pad_v + 20 + item_margin)
]
