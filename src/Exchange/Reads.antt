-- ===== src/Exchange/Reads.antt =====
-- A read that brings one whole packet, at either end.
use nova_chat.Prelude.{ℕ, ◌≡◌, refl, ap, ◌∙◌, some, List, [], ◌∷◌, ◌++◌, arith}
use mathlib.Core.Path.{fun_ext}
use nova_chat.Codec.{Packet, encode}
use nova_chat.Codec.Frame.{IsPacket}
use nova_chat.Codec.Stream.{feed-encode}
use nova_chat.Proto.{Wire}
use nova_chat.Server.Storage.{Outcome, returned, thrown}
use nova_chat.Server.Persist.{JsonLib}
use nova_chat.Server.World.{World, ClientSession, put_session}
use nova_chat.Server.Dispatch.{dispatch, dispatch_all, on_read}
use nova_chat.Client.TcpClient
use nova_chat.Client.TcpClient.{TcpClient, find_callback, handle_packet, handle_packets, received}
use nova_chat.Client.App.{App, Callback}
use nova_chat.Client.Requests.{handle_packet-answer}
use nova_chat.Client.EventLoop.{run_callback, run_first, run_next, client_reads}

put_same :
    (w : World) (i : ℕ)
    → (w.session i).buffer ≡ []
    → put_session w i (record (w.session i) { buffer = [] }) ≡ w
unfolding put_session
put_same w i e =
    ap (λ (f : ℕ → ClientSession). record w { session = f }) (fun_ext λ j. ground (arith, e))

-- A session with nothing buffered that reads the bytes of a packet handles that packet.
pub on_read-encode :
    (wire : Wire) (json : JsonLib) (i : ℕ) (p : Packet) (w : World)
    → (w.session i).buffer ≡ []
    → IsPacket p
    → on_read wire json i (some (encode p)) w ≡ dispatch wire json i p w
unfolding on_read dispatch_all
on_read-encode wire json i p w e v =
    rw e (rw (feed-encode p v) (rw (put_same w i e) (settled (dispatch wire json i p w))))
  where
    settled : (r : Outcome World) → elim r [ thrown ↦ thrown | returned w' ↦ returned w' ] ≡ r
    settled thrown = refl
    settled (returned w') = refl

-- A client with nothing buffered that reads the bytes of a packet takes that packet.
pub client_reads-encode :
    (p : Packet) (a : App)
    → a.tcp.buffer ≡ []
    → IsPacket p
    → client_reads (encode p) a ≡ record a { tcp = handle_packet p a.tcp }
unfolding client_reads TcpClient.on_read handle_packets
client_reads-encode p a e v = rw e (rw (feed-encode p v) refl)

-- What is left when the one posted callback is taken.
abbrev pub taken : Packet → App → App
taken p a = record a { tcp = record (handle_packet p a.tcp) { queued = [] } }

run_next-one :
    (wire : Wire) (p : Packet) (cb : Callback) (a : App) (t : TcpClient Callback)
    → t.queued ≡ (cb, p) ∷ []
    → run_next wire (record a { tcp = t })
      ≡ run_callback wire cb p (record a { tcp = record t { queued = [] } })
unfolding run_next run_first
run_next-one wire p cb a t e =
    ap (λ (q : List (Callback × Packet)). run_first wire q (record a { tcp = t })) e

-- An answer that is read alone, while no posted callback waits, runs the callback of its number.
pub run_next-answer :
    (wire : Wire) (p : Packet) (cb : Callback) (a : App)
    → a.tcp.buffer ≡ []
    → a.tcp.queued ≡ []
    → IsPacket p
    → find_callback a.tcp.callbacks p.seq_id ≡ some cb
    → run_next wire (client_reads (encode p) a) ≡ run_callback wire cb p (taken p a)
run_next-answer wire p cb a quiet idle fits waits =
    ap (run_next wire) (client_reads-encode p a quiet fits)
    ∙ run_next-one wire p cb a (handle_packet p a.tcp) (
        (handle_packet-answer p cb a.tcp waits).0
        ∙ ap (λ (q : List (Callback × Packet)). q ++ (cb, p) ∷ []) idle)
