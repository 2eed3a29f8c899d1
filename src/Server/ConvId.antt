-- ===== src/Server/ConvId.antt =====
-- Conversation ids and what the conversation list derives from them and from the messages.
use nova_chat.Prelude.{
  ℕ, suc, ◌≤◌, ◌≡◌, refl, sym, ap, ◌∙◌, ◌⊎◌, inl, inr, false, ◌==◌, some, [], ◌∷◌, ◌++◌,
  if◌then◌else◌, arith, ltb, Bool-cases, All, length, length-append, length-take, take, drop,
  take-append-length,
}
use nova_chat.Prelude.Text.{
  Text, bytes, text_eq_refl, text_eq_sound, text_lt, text_lt_asym, text_lt_total,
}
use nova_chat.Server.ChatHandler.{make_conv_id, find_colon, id_parts, peer_of, preview}

-- Both ends of a conversation compute the same id.
pub make_conv_id_comm : (a b : Text) → make_conv_id a b ≡ make_conv_id b a
unfolding make_conv_id
make_conv_id_comm a b = elim (Bool-cases (text_lt a b)) [
  | inl less ↦ rw (less, text_lt_asym a b less)
  | inr more ↦ elim (Bool-cases (text_lt b a)) [
    | inl less ↦ rw (more, less)
    | inr equal ↦ rw (text_lt_total a b more equal)
  ]
]

-- A text without ':'; the server's own ids are such.
abbrev pub HasNoColon : Text → Type 0
HasNoColon = All (λ c. (c == b':') ≡ false)

find_colon-append :
    (a b : Text) → HasNoColon a → find_colon (a ++ (bytes ":" ++ b)) ≡ some (length a)
unfolding find_colon
find_colon-append [] b h = refl
find_colon-append (c ∷ a) b h = rw (h.0, find_colon-append a b h.1)

id_parts-append : (a b : Text) → HasNoColon a → id_parts (a ++ (bytes ":" ++ b)) ≡ (a, b)
unfolding id_parts
id_parts-append a b h =
    rw (find_colon-append a b h, id_parts)
      (rw (take-append-length a (bytes ":" ++ b), drop_colon a b))
  where
    drop_colon : (u v : Text) → drop (suc (length u)) (u ++ (bytes ":" ++ v)) ≡ v
    drop_colon [] v = refl
    drop_colon (c ∷ u) v = drop_colon u v

-- The parts of a conversation's id are its two users, the smaller first.
pub id_parts-make_conv_id :
    (a b : Text)
    → HasNoColon a
    → HasNoColon b
    → id_parts (make_conv_id a b) ≡ (if text_lt a b then (a, b) else (b, a))
unfolding make_conv_id
id_parts-make_conv_id a b h k = elim (Bool-cases (text_lt a b)) [
  | inl less ↦ rw less (id_parts-append a b h)
  | inr more ↦ rw more (id_parts-append b a k)
]

-- Where the ids of both users have no colon, the peer that is shown for their conversation is, in
-- the list of either, the other one.
pub peer_of-make_conv_id :
    (a b : Text)
    → HasNoColon a
    → HasNoColon b
    → (peer_of a (make_conv_id a b) ≡ b) × (peer_of b (make_conv_id a b) ≡ a)
unfolding peer_of
peer_of-make_conv_id a b h k = rw (id_parts-make_conv_id a b h k) (elim (Bool-cases (text_lt a b)) [
  | inl less ↦ rw less (
    ground (arith, text_eq_refl a, text_eq_sound a b),
    ground (arith, text_eq_refl b, text_eq_sound a b),
  )
  | inr more ↦ rw more (
    ground (arith, text_eq_refl a, text_eq_sound b a),
    ground (arith, text_eq_refl b, text_eq_sound b a),
  )
])

-- Two conversations of users whose ids have no colon get one id only if they have the same two
-- users.
pub make_conv_id_inj :
    (a b c d : Text)
    → HasNoColon a
    → HasNoColon b
    → HasNoColon c
    → HasNoColon d
    → make_conv_id a b ≡ make_conv_id c d
    → ((a ≡ c) × (b ≡ d)) ⊎ ((a ≡ d) × (b ≡ c))
make_conv_id_inj a b c d ha hb hc hd e =
    ground (
      arith,
      sym (id_parts-make_conv_id a b ha hb) ∙ ap id_parts e ∙ id_parts-make_conv_id c d hc hd,
    )

-- A preview has at most 53 bytes, and begins with the first 50 bytes of the content, or with all of
-- it if there are fewer.
pub preview_lem :
    (content : Text)
    → (length (preview content) ≤ 53) × (take 50 (preview content) ≡ take 50 content)
unfolding preview
preview_lem content = elim (Bool-cases (ltb 50 (length content))) [
  | inr short ↦ rw short (ground arith, refl)
  | inl long ↦
      (let t : length (take 50 content) ≡ 50 = ground (arith, length-take 50 content) in
        rw long (
          omega (arith, t, length-append (take 50 content) (bytes "...")),
          ap (λ (n : ℕ). take n (take 50 content ++ bytes "...")) (sym t)
              ∙ take-append-length (take 50 content) (bytes "..."),
        ))
]
