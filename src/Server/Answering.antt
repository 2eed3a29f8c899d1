-- ===== src/Server/Answering.antt =====
-- What it is for a session to be answered once.
use nova_chat.Prelude.{ℕ, ◌≡◌, false, ◌==◌, [], ◌∷◌, ◌++◌, arith, eqb_refl}
use nova_chat.MessageType.{MessageType}
use nova_chat.Codec.{Bytes, Packet, encode}
use nova_chat.Server.World.{World, send_packet}

-- Session `i` was sent one packet, of sequence number `seq`; the other sessions were sent nothing.
pub record Answers (i seq : ℕ) (w w' : World) : Type 0 where
  pub type : MessageType
  pub payload : Bytes
  pub own :
      (w'.session i).sent
      ≡ (w.session i).sent ++ encode (record { type = type; seq_id = seq; payload = payload }) ∷ []
  pub others : (j : ℕ) → (i == j) ≡ false → (w'.session j).sent ≡ (w.session j).sent

module _ (i : ℕ) (pkt : Packet) where
  -- A packet sent in a world whose sessions have been sent what they had been in `w`.
  pub sending :
      (w w' : World) (type : MessageType) (payload : Bytes)
      → ((j : ℕ) → (w'.session j).sent ≡ (w.session j).sent)
      → Answers i pkt.seq_id w
          (send_packet w' i (record { type = type; seq_id = pkt.seq_id; payload = payload }))
  unfolding send_packet
  sending w w' type payload h = record {
    type = type;
    payload = payload;
    own = ground (arith, h i, eqb_refl i);
    others = λ j ne. ground (arith, h j);
  }
