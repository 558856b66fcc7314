-- ===== src/Tcp/Channel/Connected.antt =====
-- TcpSocketDll/CTcpClient.cpp, `Connect`, and CTcpSocket.cpp, the cases `ESTABLISH_1` and
-- `ESTABLISH_2`: how a channel begins, and what a first packet does that comes once more.
use school_system.Base.{
  ℕ, ◌<◌, ◌≡◌, refl, sym, ap, subst, ◌∙◌, true, false, some, List, [], ◌∷◌, All, arith, int_limit,
  int_lt, ◌==◌,
}
use school_system.Tcp.Address.{SockAddr}
use school_system.Tcp.Packet.{DataPacket}
use school_system.Tcp.Conn.{Conn, conn_at}
use school_system.Tcp.Receive.{on_data, on_data_all, insert_packet}
use school_system.Tcp.Socket.{TcpSocket, on_packet}
use school_system.Tcp.Socket.Reception.{stream_at}
use school_system.Tcp.Client.{Peer, connect, welcome, hello_received, server_side, handshake}
use school_system.Tcp.Channel.{Reach, start, opened}

-- The handshake opens a channel: a server that has nothing of a client gets its first packet, and
-- the answer reaches the client, where no call of the system fails. Then the client's socket and
-- the server's are the two ends of a channel that begins with packet 1.
pub handshake-Reach :
    (net : Peer) (client server : SockAddr) (s t : TcpSocket) (rest : List ℕ)
    → net.socket_ok ≡ true
    → net.hello_ok ≡ true
    → net.ack_ok ≡ true
    → net.reply ≡ some welcome
    → (conn_at client t.connect_map).recv_list ≡ []
    → stream_at client t ≡ []
    → Reach server client 1 (
        opened (connect net server s).socket (on_packet t client (hello_received rest) true).socket)
unfolding on_packet
handshake-Reach net client server s t rest a b c d none_back empty =
    let (_, _, list, _, number, _) = handshake net client server s t rest a b c d in
    let theirs = server_side client (hello_received rest) t in
    start (connect net server s).socket (on_packet t client (hello_received rest) true).socket
      (number ∙ ap (λ c. c.next_recv_seq) theirs) (omega arith) list
      (record {
        next = ap (λ c. c.next_recv_seq) theirs;
        empty = ap (λ c. c.recv_list) theirs ∙ none_back;
      })
      (ap (λ c. c.byte_stream.vt_buf) theirs ∙ empty)

-- Packets from further on than the one that is waited for.
abbrev pub FurtherOn : ℕ → List DataPacket → Type 0
FurtherOn k = All (λ p. (k < p.n_seq) × (p.n_seq < int_limit))

further_waits :
    (ps : List DataPacket) (c : Conn)
    → FurtherOn c.next_recv_seq ps
    → (c' : Conn) × (on_data_all ps c ≡ some c')
      × (c'.byte_stream ≡ c.byte_stream)
      × (c'.next_recv_seq ≡ c.next_recv_seq)
unfolding on_data_all on_data
further_waits [] c h = (c, refl, refl, refl)
further_waits (p ∷ ps) c h =
    let other : (p.n_seq == c.next_recv_seq) ≡ false = ground (arith, h.0) in
    let later : int_lt c.next_recv_seq p.n_seq ≡ true = ground (arith, h.0) in
    rw (other, later) (further_waits ps (record c { recv_list = insert_packet p c.recv_list }) h.1)

-- A weakness: a first packet of a client that comes once more, in whatever state the server is,
-- begins the connection anew. The server waits for packet 1 again, and whatever data packets with
-- greater numbers come then, in any order, none of their data is put into the stream.
pub repeated_hello :
    (t : TcpSocket) (client : SockAddr) (rest : List ℕ) (ps : List DataPacket)
    → FurtherOn 1 ps
    → (c' : Conn) × (on_data_all ps
          (conn_at client (on_packet t client (hello_received rest) true).socket.connect_map)
        ≡ some c')
      × (c'.byte_stream ≡ (conn_at client t.connect_map).byte_stream)
      × (c'.next_recv_seq ≡ 1)
unfolding on_packet
repeated_hello t client rest ps further =
    let theirs = server_side client (hello_received rest) t in
    let c = conn_at client (on_packet t client (hello_received rest) true).socket.connect_map in
    let number : c.next_recv_seq ≡ 1 = ap (λ c. c.next_recv_seq) theirs in
    let (c', e, stream, next) =
      further_waits ps c (subst (λ k. FurtherOn k ps) (sym number) further) in
    (c', e, stream ∙ ap (λ c. c.byte_stream) theirs, next ∙ number)
