-- ===== src/Client/Chunks.antt =====
-- However the bytes of the connection are cut into reads, the client takes the packets of the stream
-- in turn.
use nova_chat.Prelude.{◌≡◌, refl, sym, ap, ◌∙◌, List, [], ◌∷◌, ◌++◌, All}
use nova_chat.Prelude.Branches.{parsed_both}
use nova_chat.Codec.{Bytes, Packet, feed, feed_all}
use nova_chat.Codec.Frame.{IsPacket}
use nova_chat.Codec.Stream.{join, encode_all, feed_all-encode_all}
use nova_chat.Client.TcpClient.{
  TcpClient, find_callback, handle_packet, handle_packets, received, on_read,
}

module _ {ℓ} {C : Type ℓ} where
  -- The completions of reads, one after the other.
  unfoldable pub reads : List Bytes → TcpClient C → TcpClient C
  reads [] t = t
  reads (chunk ∷ chunks) t = reads chunks (on_read (received chunk) t)

  handle_packet-buffer :
      (b : Bytes) (p : Packet) (t : TcpClient C)
      → handle_packet p (record t { buffer = b }) ≡ record (handle_packet p t) { buffer = b }
  unfolding handle_packet
  handle_packet-buffer b p t =
      parsed_both (λ (u v : TcpClient C). u ≡ record v { buffer = b })
        (find_callback t.callbacks p.seq_id) refl (λ cb. refl)

  handle_packets-buffer :
      (b : Bytes) (ps : List Packet) (t : TcpClient C)
      → handle_packets ps (record t { buffer = b }) ≡ record (handle_packets ps t) { buffer = b }
  unfolding handle_packets
  handle_packets-buffer b [] t = refl
  handle_packets-buffer b (p ∷ ps) t =
      ap (handle_packets ps) (handle_packet-buffer b p t)
      ∙ handle_packets-buffer b ps (handle_packet p t)

  handle_packets-append :
      (ps qs : List Packet) (t : TcpClient C)
      → handle_packets (ps ++ qs) t ≡ handle_packets qs (handle_packets ps t)
  unfolding handle_packets
  handle_packets-append [] qs t = refl
  handle_packets-append (p ∷ ps) qs t = handle_packets-append ps qs (handle_packet p t)

  reads-feed_all :
      (chunks : List Bytes) (b : Bytes) (t : TcpClient C)
      → reads chunks (record t { buffer = b })
        ≡ record (handle_packets (feed_all b chunks).0 t) { buffer = (feed_all b chunks).1 }
  unfolding reads feed_all on_read handle_packets
  reads-feed_all [] b t = refl
  reads-feed_all (chunk ∷ chunks) b t =
      let (now, left) = feed b chunk in
      let (later, last) = feed_all left chunks in
      ap (reads chunks) (handle_packets-buffer left now t)
      ∙ reads-feed_all chunks left (handle_packets now t)
      ∙ ap (λ (u : TcpClient C). record u { buffer = last })
          (sym (handle_packets-append now later t))

  pub reads-encode_all :
      (pkts : List Packet) (chunks : List Bytes) (t : TcpClient C)
      → t.buffer ≡ []
      → All IsPacket pkts
      → join chunks ≡ encode_all pkts
      → reads chunks t ≡ record (handle_packets pkts t) { buffer = [] }
  reads-encode_all pkts chunks t empty fit cut =
      ap (λ (b : Bytes). reads chunks (record t { buffer = b })) empty
      ∙ reads-feed_all chunks [] t
      ∙ ap (λ (r : List Packet × Bytes). record (handle_packets r.0 t) { buffer = r.1 })
          (feed_all-encode_all pkts chunks fit cut)
