-- ===== src/Tcp/Client.antt =====
-- TcpSocketDll/CTcpClient.cpp: the client's side of the handshake. What the send thread does while
-- `Connect` waits for the answer (it may send the first packet again) is a turn of its own.
use school_system.Base.{
  ℕ, ◌≡◌, refl, sym, ap, ◌∙◌, Bool, true, false, Option, none, some, List, [], ◌∷◌, ◌++◌,
  if◌then◌else◌, next_int,
}
use school_system.Tcp.Packet.{Packet, DataPacket, establish_1, establish_2, code_of, packet_image}
use school_system.Tcp.Address.{SockAddr}
use school_system.Tcp.Conn.{Conn, conn_at, modify}
use school_system.Tcp.Conn.Laws.{conn_at-modify_self}
use school_system.Tcp.Socket
use school_system.Tcp.Socket.{TcpSocket, Receipt, Datagram, plain, ack_for, established, on_packet}

-- What the system answers to `Connect`: `clock()`, whether its calls succeed, and the packet that
-- `recvfrom` gives, if it gives one.
pub record Peer : Type 0 where
  pub socket_ok : Bool
  pub hello_ok : Bool
  pub now : ℕ
  pub reply : Option Packet
  pub ack_ok : Bool

-- How `Connect` ends: its result, the socket, and what it sent.
pub record Connected : Type 0 where
  pub ok : Bool
  pub socket : TcpSocket
  pub sent : List Datagram

-- The first packet: `Packet(ESTABLISH_1, 0)`.
abbrev pub hello : Packet
hello = record { n_type = code_of establish_1; n_seq = 0 }

abbrev hello_to : SockAddr → Datagram
hello_to server = record { to = server; content = packet_image hello }

abbrev numbered : SockAddr → TcpSocket → TcpSocket
numbered server s = record s {
  connect_map = modify server (λ c. record c { next_send_seq = 0 }) s.connect_map;
}

abbrev counted : SockAddr → TcpSocket → TcpSocket
counted server s = record s {
  connect_map =
      modify server (λ c. record c { next_send_seq = next_int c.next_send_seq }) s.connect_map;
}

abbrev waiting : SockAddr → ℕ → TcpSocket → TcpSocket
waiting server now s = record s {
  send_list = s.send_list ++ record { time = now; addr = server; packet = plain hello } ∷ [];
}

-- The answer has come: its number is kept, and the send list is emptied.
abbrev answered : SockAddr → Packet → TcpSocket → TcpSocket
answered server p s = record {
  connect_map = modify server (λ c. record c { next_recv_seq = next_int p.n_seq }) s.connect_map;
  send_list = [];
}

abbrev on_reply : Option Packet → Bool → SockAddr → TcpSocket → Connected
on_reply none ok server s = record { ok = false; socket = s; sent = hello_to server ∷ [] }
on_reply (some p) ok server s =
    if ok
    then record {
      ok = true;
      socket = answered server p s;
      sent = hello_to server ∷ ack_for server p.n_seq ∷ [];
    }
    else record { ok = false; socket = answered server p s; sent = hello_to server ∷ [] }

-- `CTcpClient::Connect`
unfoldable pub connect : Peer → SockAddr → TcpSocket → Connected
connect net server s =
    if net.socket_ok
    then (if net.hello_ok
        then on_reply net.reply net.ack_ok server
            (waiting server net.now (counted server (numbered server s)))
        else record { ok = false; socket = counted server (numbered server s); sent = [] })
    else record { ok = false; socket = numbered server s; sent = [] }

-- `CTcpClient::Send` and `CTcpClient::Recv`; `server` is `m_serverAddr`.
abbrev pub send : TcpSocket → SockAddr → List ℕ → ℕ → Option (TcpSocket × ℕ)
send s server buf len = Socket.send s server buf len

abbrev pub recv : TcpSocket → SockAddr → ℕ → Receipt (List ℕ × TcpSocket)
recv s server len = Socket.recv s server len

-- The server's answer, as it puts it on its send list.
abbrev pub welcome : Packet
welcome = record { n_type = code_of establish_2; n_seq = 0 }

abbrev pub hello_received : List ℕ → DataPacket
hello_received rest = record { n_type = code_of establish_1; n_seq = 0; n_len = 0; bytes = rest }

client_side :
    (server : SockAddr) (now : ℕ) (p : Packet) (s : TcpSocket)
    → conn_at server
        (answered server p (waiting server now (counted server (numbered server s)))).connect_map
      ≡ record (conn_at server s.connect_map) {
        next_send_seq = next_int 0;
        next_recv_seq = next_int p.n_seq;
      }
client_side server now p s =
    conn_at-modify_self server (λ c. record c { next_recv_seq = next_int p.n_seq })
      (counted server (numbered server s)).connect_map
    ∙ ap (λ (c : Conn). record c { next_recv_seq = next_int p.n_seq })
        (conn_at-modify_self server (λ c. record c { next_send_seq = next_int c.next_send_seq })
            (numbered server s).connect_map
          ∙ ap (λ (c : Conn). record c { next_send_seq = next_int c.next_send_seq })
              (conn_at-modify_self server (λ c. record c { next_send_seq = 0 }) s.connect_map))

pub server_side :
    (client : SockAddr) (p : DataPacket) (t : TcpSocket)
    → conn_at client (established client p t).connect_map ≡ record (conn_at client t.connect_map) {
      next_send_seq = next_int 0;
      next_recv_seq = next_int p.n_seq;
    }
server_side client p t =
    conn_at-modify_self client
      (λ c. record c { next_send_seq = next_int 0; next_recv_seq = next_int p.n_seq }) t.connect_map

-- The handshake: a server that gets the first packet of a client puts its answer on its send list;
-- and when this answer reaches the client and no call of the system fails, `Connect` succeeds,
-- leaves nothing to be sent, has sent the acknowledgement, and on either side the number that is
-- expected next is the number that the other side sends next.
pub handshake :
    (net : Peer) (client server : SockAddr) (s t : TcpSocket) (rest : List ℕ)
    → net.socket_ok ≡ true
    → net.hello_ok ≡ true
    → net.ack_ok ≡ true
    → net.reply ≡ some welcome
    → let t' = (on_packet t client (hello_received rest) true).socket in
      let r = connect net server s in
      (t'.send_list
        ≡ t.send_list ++ record { time = 0; addr = client; packet = plain welcome } ∷ [])
      × (r.ok ≡ true)
      × (r.socket.send_list ≡ [])
      × (r.sent ≡ record { to = server; content = packet_image hello } ∷ ack_for server 0 ∷ [])
      × ((conn_at server r.socket.connect_map).next_send_seq
          ≡ (conn_at client t'.connect_map).next_recv_seq)
      × ((conn_at server r.socket.connect_map).next_recv_seq
          ≡ (conn_at client t'.connect_map).next_send_seq)
unfolding connect on_packet
handshake net client server s t rest a b c d =
    let mine = client_side server net.now welcome s in
    let theirs = server_side client (hello_received rest) t in
    rw (a, b, c, d)
      (
        refl,
        refl,
        refl,
        refl,
        ap (λ c. c.next_send_seq) mine ∙ sym (ap (λ c. c.next_recv_seq) theirs),
        ap (λ c. c.next_recv_seq) mine ∙ sym (ap (λ c. c.next_send_seq) theirs),
      )
