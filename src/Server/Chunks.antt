-- ===== src/Server/Chunks.antt =====
-- However the bytes of the sessions are cut into reads, and in whatever order these complete, the
-- server does what it would do with whole packets: what a session has in its buffer is of no concern
-- to the handlers.
mod Buffer
mod Auth
mod Contact
mod Chat
pub mod Decoding
use nova_chat.Prelude.{
  ℕ, ◌≡◌, refl, sym, ap, ◌∙◌, some, List, [], ◌∷◌, ◌++◌, ◌==◌, ◌||◌, arith, ==_iff, All, map,
}
use nova_chat.Prelude.Branches.{either_both}
use nova_chat.MessageType.{
  heartbeat_request, register_request, login_request, logout_request, get_contacts_request,
  add_friend_request, delete_friend_request, search_user_request, send_message_request,
  get_history_request, get_conversations_request,
}
use nova_chat.Codec.{Bytes, Packet}
use nova_chat.Proto.{Wire}
use nova_chat.Server.Storage.{Outcome, returned, thrown}
use nova_chat.Server.Persist.{JsonLib}
use nova_chat.Server.World.{World, ClientSession, put_session}
use nova_chat.Server.Dispatch.{dispatch}
use mathlib.Core.Path.{fun_ext}
use nova_chat.Codec.{feed}
use nova_chat.Codec.Frame.{IsPacket}
use nova_chat.Codec.Stream.{join, encode_all, feed_all-encode_all}
use nova_chat.Server.Dispatch.{dispatch_all, on_read}
use nova_chat.Server.Chunks.Buffer.{after, with_buffers, send_packet-with_buffers}
use nova_chat.Server.Chunks.Decoding.{set, decode, of_session, of_session-decode}
use nova_chat.Server.Chunks.Auth.{auth-AlongIf}
use nova_chat.Server.Chunks.Contact.{contact-Along}
use nova_chat.Server.Chunks.Chat.{chat-Along}

-- what follows an outcome, unless that was an exception
abbrev then_do : Outcome World → (World → Outcome World) → Outcome World
then_do o k = elim o [ thrown ↦ thrown | returned w ↦ k w ]

then_do-after :
    (f g : World → World) (o : Outcome World) (k l : World → Outcome World)
    → ((w : World) → k (f w) ≡ after g (l w))
    → then_do (after f o) k ≡ after g (then_do o l)
then_do-after f g thrown k l h = refl
then_do-after f g (returned w) k l h = h w

then_do_assoc :
    (o : Outcome World) (k l : World → Outcome World)
    → then_do (then_do o k) l ≡ then_do o (λ w. then_do (k w) l)
then_do_assoc thrown k l = refl
then_do_assoc (returned w) k l = refl

module _ (wire : Wire) (json : JsonLib) where
  -- The completions of reads, one after the other.
  unfoldable pub reads : List (ℕ × Bytes) → World → Outcome World
  reads [] w = returned w
  reads ((i, chunk) ∷ rest) w = then_do (on_read wire json i (some chunk) w) (reads rest)

  -- Packets that come whole, one after the other.
  unfoldable pub serve : List (ℕ × Packet) → World → Outcome World
  serve [] w = returned w
  serve ((i, pkt) ∷ rest) w = then_do (dispatch wire json i pkt w) (serve rest)

  dispatch-with_buffers :
      (b : ℕ → Bytes) (i : ℕ) (pkt : Packet) (w : World)
      → dispatch wire json i pkt (with_buffers b w)
        ≡ after (with_buffers b) (dispatch wire json i pkt w)
  unfolding dispatch
  dispatch-with_buffers b i pkt w =
      let R : Outcome World → Outcome World → Type 0 = λ o' o. o' ≡ after (with_buffers b) o in
      either_both R (pkt.type == heartbeat_request) (ap returned (send_packet-with_buffers b w i _))
        (either_both R
          (pkt.type == register_request || pkt.type == login_request || pkt.type == logout_request)
          (auth-AlongIf i b wire json pkt w)
          (either_both R
            (pkt.type == get_contacts_request
              || pkt.type == add_friend_request
              || pkt.type == delete_friend_request
              || pkt.type == search_user_request)
            (ap returned (contact-Along i b wire pkt w))
            (either_both R
              (pkt.type == send_message_request
                || pkt.type == get_history_request
                || pkt.type == get_conversations_request)
              (ap returned (chat-Along i b wire pkt w)) refl)))

  serve-with_buffers :
      (b : ℕ → Bytes) (ps : List (ℕ × Packet)) (w : World)
      → serve ps (with_buffers b w) ≡ after (with_buffers b) (serve ps w)
  unfolding serve
  serve-with_buffers b [] w = refl
  serve-with_buffers b ((i, pkt) ∷ ps) w =
      ap (λ o. then_do o (serve ps)) (dispatch-with_buffers b i pkt w)
      ∙ then_do-after (with_buffers b) (with_buffers b) (dispatch wire json i pkt w) _ _
          (serve-with_buffers b ps)

  serve-append :
      (now later : List (ℕ × Packet)) (w : World)
      → serve (now ++ later) w ≡ then_do (serve now w) (serve later)
  unfolding serve
  serve-append [] later w = refl
  serve-append ((i, pkt) ∷ now) later w =
      ap (then_do (dispatch wire json i pkt w)) (fun_ext (serve-append now later))
      ∙ sym (then_do_assoc (dispatch wire json i pkt w) _ _)

  dispatch_all-serve :
      (i : ℕ) (pkts : List Packet) (w : World)
      → dispatch_all wire json i pkts w ≡ serve (map (λ p. (i, p)) pkts) w
  unfolding dispatch_all serve
  dispatch_all-serve i [] w = refl
  dispatch_all-serve i (pkt ∷ pkts) w =
      ap (then_do (dispatch wire json i pkt w)) (fun_ext (dispatch_all-serve i pkts))

  put_buffer :
      (b : ℕ → Bytes) (i : ℕ) (left : Bytes) (w : World)
      → put_session (with_buffers b w) i (record ((with_buffers b w).session i) { buffer = left })
        ≡ with_buffers (set b i left) w
  unfolding put_session
  put_buffer b i left w =
      ap (λ (f : ℕ → ClientSession). record w { session = f })
        (fun_ext λ j. ground (arith, ==_iff i j))

  on_read-with_buffers :
      (b : ℕ → Bytes) (i : ℕ) (chunk : Bytes) (w : World)
      → on_read wire json i (some chunk) (with_buffers b w)
        ≡ after
            (with_buffers (set b i (feed (b i) chunk).1))
            (serve (map (λ p. (i, p)) (feed (b i) chunk).0) w)
  unfolding on_read
  on_read-with_buffers b i chunk w =
      let (now, left) = feed (b i) chunk in
      ap (dispatch_all wire json i now) (put_buffer b i left w)
      ∙ dispatch_all-serve i now (with_buffers (set b i left) w)
      ∙ serve-with_buffers (set b i left) (map (λ p. (i, p)) now) w

  -- What reads do is what the packets do that the decoders make of them.
  reads-decode :
      (rs : List (ℕ × Bytes)) (b : ℕ → Bytes) (w : World)
      → reads rs (with_buffers b w) ≡ after (with_buffers (decode b rs).1) (serve (decode b rs).0 w)
  unfolding reads decode serve
  reads-decode [] b w = refl
  reads-decode ((i, chunk) ∷ rs) b w =
      let (now, left) = feed (b i) chunk in
      let (later, last) = decode (set b i left) rs in
      ap (λ o. then_do o (reads rs)) (on_read-with_buffers b i chunk w)
      ∙ then_do-after (with_buffers (set b i left)) (with_buffers last)
          (serve (map (λ p. (i, p)) now) w) _ _ (reads-decode rs (set b i left))
      ∙ ap (after (with_buffers last)) (sym (serve-append (map (λ p. (i, p)) now) later w))

  -- However the bytes of the sessions are cut into reads, and however the reads of different
  -- sessions are mixed, the server does what it would do with whole packets in some order in which
  -- each session's packets keep theirs: it ends in the same state, or with the same exception. The
  -- conditions: no session has bytes in its buffer before, the bytes read by each are those of some
  -- packets, and the packets' fields fit their places in the header.
  pub reads-serve :
      (rs : List (ℕ × Bytes)) (pkts : ℕ → List Packet) (w : World)
      → ((i : ℕ) → (w.session i).buffer ≡ [])
      → ((i : ℕ) → All IsPacket (pkts i))
      → ((i : ℕ) → join (of_session i rs) ≡ encode_all (pkts i))
      → (served : List (ℕ × Packet)) × ((i : ℕ) → of_session i served ≡ pkts i)
        × (reads rs w ≡ serve served w)
  reads-serve rs pkts w empty fit cut =
      let none_left : ℕ → Bytes = λ i. [] in
      let served : List (ℕ × Packet) = (decode none_left rs).0 in
      let same : with_buffers none_left w ≡ w =
        ap (λ (b : ℕ → Bytes). with_buffers b w) (fun_ext λ i. sym (empty i)) in
      let whole : (i : ℕ)
          → ◌≡◌ {A = List Packet × Bytes} (of_session i served, (decode none_left rs).1 i)
              (pkts i, []) =
        λ i. of_session-decode i rs none_left ∙ feed_all-encode_all (pkts i) _ (fit i) (cut i) in
      (
        served,
        λ i. ap (λ (r : List Packet × Bytes). r.0) (whole i),
        ap (reads rs) (sym same)
            ∙ reads-decode rs none_left w
            ∙ ap (λ (b : ℕ → Bytes). after (with_buffers b) (serve served w))
                (fun_ext λ i. ap (λ (r : List Packet × Bytes). r.1) (whole i))
            ∙ sym (serve-with_buffers none_left served w)
            ∙ ap (serve served) same,
      )
