-- ===== src/Tests/Channel.antt =====
-- Two bytes on a channel: they are sent, transmitted, and received, and the first is taken.
use school_system.Base.{ℕ, ◌≡◌, refl, true, some, List, [], ◌∷◌, ◌++◌, arith}
use school_system.Tcp.Address.{less}
use school_system.Tcp.ByteStream.{write, push_bytes, read, get_size}
use school_system.Tcp.Packet.{DataPacket, data_packet, data_image, received-data_image, padded}
use school_system.Tcp.Conn.{Conn, new_conn, conn_at, modify}
use school_system.Tcp.Receive.{on_data, on_data_all, deliver, drain}
use school_system.Tcp.Socket.{
  TcpSocket, payload, Datagram, Answers, Receipt, waits, gets, undefined, send, full_packets,
  last_packet, resend, is_due, emission, on_packet, recv, take_bytes,
}
use school_system.Tcp.Socket.Reception.{stream_at}
use school_system.Tcp.Channel.{
  Channel, Reach, start, next, sends, transmits, arrives, takes, opened,
}
use school_system.Tcp.Channel.Guarantees.{in_order}
use school_system.Tcp.Channel.Connected.{handshake-Reach, repeated_hello}
use school_system.Tcp.Client.{connect, hello_received}
use school_system.Tests.Sockets.{alice, bob, good_peer}
use school_system.Tests.Transport.{hi_packet}

-- Alice has sent five packets, the handshake's among them, and Bob has got them.
abbrev alice_socket : TcpSocket
alice_socket = record {
  connect_map = (bob, record new_conn { next_send_seq = 5 }) ∷ [];
  send_list = [];
}

abbrev bob_socket : TcpSocket
bob_socket = record {
  connect_map = (alice, record new_conn { next_recv_seq = 5 }) ∷ [];
  send_list = [];
}

abbrev hi : List ℕ
hi = 104 ∷ 105 ∷ []

abbrev alice_sent : TcpSocket
alice_sent = record {
  connect_map = (bob, record new_conn { next_send_seq = 6 }) ∷ [];
  send_list = record { time = 0; addr = bob; packet = payload hi_packet } ∷ [];
}

abbrev answers : Answers
answers = record { clock_test = λ _. 5000; clock_set = λ _. 5000; sendto_ok = λ _. true }

abbrev seen : DataPacket
seen = record hi_packet { bytes = padded hi_packet }

abbrev hi_datagram : Datagram
hi_datagram = record { to = bob; content = data_image hi_packet }

abbrev got_from : Receipt (List ℕ × TcpSocket) → TcpSocket → TcpSocket
got_from waits s = s
got_from (gets (b, s')) s = s'
got_from undefined s = s

abbrev bob_got : TcpSocket
bob_got = (on_packet bob_socket alice seen true).socket

abbrev bob_took : TcpSocket
bob_took = got_from (recv bob_got alice 1) bob_got

abbrev conversation : Channel
conversation = record {
  sender = record alice_sent { send_list = (resend answers 0 alice_sent.send_list).nodes };
  receiver = bob_took;
  datagrams = hi_datagram ∷ [];
  acks = (on_packet bob_socket alice seen true).sent;
  sent = hi;
  taken = 104 ∷ [];
}

hi_sent : send alice_socket bob hi 2 ≡ some (alice_sent, 2)
unfolding send full_packets last_packet data_packet conn_at modify less
hi_sent = refl

hi_transmitted : (resend answers 0 alice_sent.send_list).sent ≡ hi_datagram ∷ []
unfolding resend is_due emission
hi_transmitted = refl

conversation-Reach : Reach bob alice 5 conversation
unfolding send full_packets last_packet data_packet conn_at modify less resend is_due emission
    on_packet on_data deliver drain write push_bytes recv take_bytes read get_size
conversation-Reach =
    next
      (next
        (next
          (next
            (start alice_socket bob_socket refl (omega arith) refl
              (record { next = refl; empty = refl }) refl)
            (sends hi alice_sent (omega arith) (omega arith) hi_sent refl))
          (transmits answers refl))
        (arrives [] hi_datagram [] seen true refl
          (received-data_image hi_packet (omega arith) (omega arith) (omega arith) (omega arith))
          refl refl))
      (takes 1 (104 ∷ []) bob_took refl refl)

in_order_example : (rest : List ℕ) × (hi ≡ (104 ∷ []) ++ (stream_at alice bob_took ++ rest))
in_order_example = in_order conversation-Reach

-- The two bytes are on the send list, and nothing has been transmitted.
abbrev lost : Channel
lost = record (opened alice_socket bob_socket) { sender = alice_sent; sent = hi }

-- Nobody is connected.
abbrev unconnected : TcpSocket
unconnected = record { connect_map = []; send_list = [] }

handshake-Reach_example : Reach bob alice 1 (
    opened
      (connect good_peer bob unconnected).socket
      (on_packet unconnected alice (hello_received []) true).socket)
unfolding conn_at
handshake-Reach_example =
    handshake-Reach good_peer alice bob unconnected unconnected [] refl refl refl refl refl refl

repeated_hello_example :
    (c' : Conn) × (on_data_all
        (hi_packet ∷ [])
        (conn_at alice (on_packet bob_got alice (hello_received []) true).socket.connect_map)
      ≡ some c')
    × (c'.byte_stream ≡ (conn_at alice bob_got.connect_map).byte_stream)
    × (c'.next_recv_seq ≡ 1)
repeated_hello_example =
    repeated_hello bob_got alice [] (hi_packet ∷ []) ((omega arith, omega arith), tt)
