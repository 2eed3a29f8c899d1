-- ===== src/Client/Ui/Layout.antt =====
-- Where a bubble and the text under it come to lie in their row (MessageBubbleDelegate).
use nova_chat.Prelude.{
  ℕ, ◌+◌, ◌-◌, ◌*◌, ◌/◌, ◌<◌, ◌≤◌, min, ◌≡◌, refl, some, ltb-false, ltb-true, arith, ◌↔◌,
}
use nova_chat.Prelude.Branches.{either}
use nova_chat.Client.Ui.ChatView.{Item}
use nova_chat.Client.Ui.MessageBubbleDelegate.{
  Metrics, Box, text_max_width, bubble_max_width, bubble_box, foot_box, paint, view_width,
  size_hint,
}

-- what a row of a width that is enough gives its text
text_at : (w : ℕ) → 37 ≤ w → text_max_width (bubble_max_width w) ≡ some (w * 65 / 100 - 24)
unfolding text_max_width bubble_max_width
text_at w wide = rw (ltb-false (w * 65 / 100) 24 (omega arith)) refl

module _ (fm : Metrics) (row at : ℕ) (item : Item) (wide : 53 ≤ row) where
  inside :
      let b : Box = bubble_box fm row at item in
      (8 ≤ b.x) × (b.x + b.width + 8 ≤ row) × (b.width * 100 ≤ row * 65)
  unfolding bubble_box bubble_max_width
  inside =
      let total = row - 16 in
      let w = min (fm.width at item.content + 24) (bubble_max_width total) in
      let narrow : w ≤ total * 65 / 100 = omega arith in
      either (λ x. (8 ≤ x) × (x + w + 8 ≤ row) × (w * 100 ≤ row * 65)) item.is_outgoing
        (omega arith, omega arith, omega arith) (omega arith, omega arith, omega arith)

-- the two heights, of a text that is `a` pixels high to paint and `b` to sizeHint
heights : (a b : ℕ) → (6 + (a + 16) - 1 + 2 + 20 ≤ 6 + 8 + b + 8 + 20 + 6) ↔ (a ≤ b + 5)
heights a b = (λ e. omega arith, λ e. omega arith)

valid : (w h : ℕ) → 0 < w → 0 < h → view_width w h ≡ w
unfolding view_width
valid w h wide tall = rw (ltb-true 0 w wide, ltb-true 0 h tall) refl

-- In a row of at least 53 pixels, of the width that sizeHint was asked for, a bubble takes at most 65
-- hundredths of the row and stays within the margins of eight pixels, whatever its text. The text
-- under it ends within the height that sizeHint gave the row just when the height of the text,
-- wrapped at the width that paint uses, is at most five pixels more than at the width, greater by
-- up to eleven pixels, that sizeHint used.
pub paint-size_hint :
    (fm : Metrics) (row h : ℕ) (item : Item)
    → 53 ≤ row
    → 0 < h
    → (bubble : Box) × (under : Box) × (height : ℕ) × (paint fm row item ≡ some (bubble, under))
      × (size_hint fm row h item ≡ some (row, height))
      × (8 ≤ bubble.x)
      × (bubble.x + bubble.width + 8 ≤ row)
      × (bubble.width * 100 ≤ row * 65)
      × ((under.y + under.height ≤ height) ↔ (
          fm.height ((row - 16) * 65 / 100 - 24) item.content
          ≤ fm.height (row * 65 / 100 - 24) item.content + 5))
unfolding paint size_hint bubble_box foot_box bubble_max_width
paint-size_hint fm row h item wide tall =
    let sized = valid row h (omega arith) tall in
    let (from, upto, part) = inside fm row ((row - 16) * 65 / 100 - 24) item wide in
    (
      bubble_box fm row ((row - 16) * 65 / 100 - 24) item,
      foot_box row (bubble_box fm row ((row - 16) * 65 / 100 - 24) item),
      _,
      rw (paint, text_at (row - 16) (omega arith)) refl,
      rw (size_hint, sized, text_at row (omega arith), sized) refl,
      from,
      upto,
      part,
      heights (fm.height ((row - 16) * 65 / 100 - 24) item.content)
          (fm.height (row * 65 / 100 - 24) item.content),
    )
