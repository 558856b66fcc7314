-- ===== src/Tests/Sockets.antt =====
-- TcpSocketDll: concrete addresses, connection maps, send lists and runs.
use school_system.Base.{false, ◌⊎◌, ℕ, ◌≡◌, inl, refl, true, some, List, [], ◌∷◌, ◌++◌, length}
use school_system.Tcp.ByteStream.{write, push_bytes}
use school_system.Tcp.Packet.{DataPacket}
use school_system.Tcp.Address.{SockAddr, less, SameKey, less_strict_weak}
use school_system.Tcp.Conn.{Conn, ConnMap, new_conn, conn_at, modify, Status, has_data, in_use}
use school_system.Tcp.Receive.{on_data, deliver, drain}
use school_system.Tcp.Socket.{TcpSocket, Answers, on_packet, resend}
use school_system.Tcp.Socket.Fragments.{queued}
use school_system.Tcp.Socket.Acks.{on_ack}
use school_system.Tcp.Socket.Isolation.{on_packet_apart}
use school_system.Tcp.Socket.Reception.{stream_at}
use school_system.Tcp.Packet.{packet_image}
use school_system.Tcp.Socket.{plain, ack_for}
use school_system.Tcp.Client.{Peer, connect, hello, hello_received, welcome, handshake}
use school_system.Tcp.Server.{poll}
use school_system.Tcp.Server.Selection.{Polled, poll-Polled}
use school_system.Tcp.System.{arrives, opened, Reach, start, next}
use school_system.Tcp.Packet.{image_len}
use school_system.Tcp.Socket.{undefined}
use school_system.Base.{length, All, ◌≤◌, ◌≢◌}
use school_system.Tcp.System.Bounds.{datagram_bounds}
use school_system.Tcp.System.Invariant.{Pending, IsValid, Reach-IsValid, Pending-poll}

abbrev pub alice : SockAddr
alice = record { sin_family = 2; sin_port = 1000; s_addr = 5 }

abbrev pub bob : SockAddr
bob = record { sin_family = 2; sin_port = 2000; s_addr = 5 }

abbrev carol : SockAddr
carol = record { sin_family = 2; sin_port = 1000; s_addr = 9 }

less_strict_weak_example :
    ((less alice bob ≡ false) ⊎ ((less bob carol ≡ false) ⊎ (less alice carol ≡ true)))
    × (((less alice bob ≡ true) × (less bob alice ≡ false))
        ⊎ (((less bob alice ≡ true) × (less alice bob ≡ false))
            ⊎ (SameKey alice bob × (less alice bob ≡ false) × (less bob alice ≡ false))))
less_strict_weak_example = less_strict_weak alice bob carol

abbrev with_bytes : Status → List ℕ → Conn
with_bytes t b = record new_conn {
  next_send_seq = 1;
  next_recv_seq = 1;
  byte_stream = record { vt_buf = b };
  status = t;
}

-- Two clients: one that is being served, and one that waits.
abbrev two_clients : ConnMap
two_clients = (alice, with_bytes in_use (1 ∷ 2 ∷ 3 ∷ [])) ∷ (bob, with_bytes has_data (4 ∷ [])) ∷ []

poll-Polled_example : Polled two_clients (poll two_clients)
poll-Polled_example = poll-Polled two_clients

-- A packet on its way to each of the two, with the same number.
abbrev third_packet : DataPacket
third_packet = record { n_type = 2; n_seq = 3; n_len = 1; bytes = 8 ∷ [] }

abbrev both_wait : TcpSocket
both_wait = record {
  connect_map = two_clients;
  send_list = queued alice third_packet ∷ queued bob third_packet ∷ [];
}

abbrev ack_packet : DataPacket
ack_packet = record { n_type = 3; n_seq = 3; n_len = 0; bytes = [] }

-- Bob acknowledges his packet, and the server drops the one to Alice.
on_ack_example :
    (on_packet both_wait bob ack_packet true).socket.send_list ≡ [] ++ queued bob third_packet ∷ []
on_ack_example =
    on_ack both_wait bob ack_packet true [] (queued alice third_packet)
      (queued bob third_packet ∷ []) refl refl tt refl

alice_before_bob : less alice bob ≡ true
unfolding less
alice_before_bob = refl

on_packet_apart_example :
    conn_at bob (on_packet both_wait alice third_packet true).socket.connect_map
    ≡ conn_at bob both_wait.connect_map
on_packet_apart_example =
    on_packet_apart both_wait alice bob third_packet true (inl alice_before_bob)

alice_stream : stream_at alice both_wait ≡ 1 ∷ 2 ∷ 3 ∷ []
unfolding conn_at less
alice_stream = refl

abbrev answers : Answers
answers = record { clock_test = λ _. 5000; clock_set = λ _. 5000; sendto_ok = λ _. true }

first_number : (conn_at carol both_wait.connect_map).next_send_seq ≡ 0
unfolding conn_at less
first_number = refl

-- Alice connects, and sends a byte.
abbrev pub hello_packet : DataPacket
hello_packet = record { n_type = 0; n_seq = 0; n_len = 0; bytes = [] }

abbrev pub byte_packet : DataPacket
byte_packet = record { n_type = 2; n_seq = 1; n_len = 1; bytes = 42 ∷ [] }

abbrev connected : TcpSocket
connected = (on_packet opened alice hello_packet true).socket

abbrev pub arrived : TcpSocket
arrived = (on_packet connected alice byte_packet true).socket

pub arrived-Reach : Reach arrived
unfolding on_packet conn_at modify less on_data deliver drain write push_bytes
arrived-Reach =
    next (next start (arrives alice hello_packet true refl refl))
      (arrives alice byte_packet true refl refl)

arrived-Pending : Pending arrived.connect_map
unfolding on_packet conn_at modify less on_data deliver drain write push_bytes
arrived-Pending = (
  [],
  alice,
  record (with_bytes has_data (42 ∷ [])) { next_recv_seq = 2 },
  [],
  refl,
  (λ e. cc),
  (λ e. cc),
)

Reach-IsValid_example : IsValid arrived
Reach-IsValid_example = Reach-IsValid arrived-Reach

Pending-poll_example : (a : SockAddr) × (m : ConnMap) × (poll arrived.connect_map ≡ some (a, m))
Pending-poll_example = Pending-poll arrived-Reach arrived-Pending

abbrev pub good_peer : Peer
good_peer = record {
  socket_ok = true;
  hello_ok = true;
  now = 77;
  reply = some welcome;
  ack_ok = true;
}

-- Alice connects to the server at Carol's address, which serves two clients already.
handshake_example :
    let t' = (on_packet both_wait alice (hello_received []) true).socket in
    let r = connect good_peer carol opened in
    (t'.send_list
      ≡ both_wait.send_list ++ record { time = 0; addr = alice; packet = plain welcome } ∷ [])
    × (r.ok ≡ true)
    × (r.socket.send_list ≡ [])
    × (r.sent ≡ record { to = carol; content = packet_image hello } ∷ ack_for carol 0 ∷ [])
    × ((conn_at carol r.socket.connect_map).next_send_seq
        ≡ (conn_at alice t'.connect_map).next_recv_seq)
    × ((conn_at carol r.socket.connect_map).next_recv_seq
        ≡ (conn_at alice t'.connect_map).next_send_seq)
handshake_example = handshake good_peer alice carol opened both_wait [] refl refl refl refl

datagram_bounds_example :
    All (λ d. length d.content ≤ image_len) (resend answers 0 arrived.send_list).sent
    × ((resend answers 0 arrived.send_list).ending ≢ undefined)
datagram_bounds_example = datagram_bounds arrived-Reach answers
