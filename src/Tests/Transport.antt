-- ===== src/Tests/Transport.antt =====
-- TcpSocketDll: concrete packets, connections and sockets.
use school_system.Base.{
  ℕ, true, range_from, ◌+◌, ◌≤◌, ◌≡◌, refl, some, List, [], ◌∷◌, ◌++◌, map, arith, ltb, take,
  replicate, length-replicate,
}
use school_system.Tcp.Packet.{DataPacket}
use school_system.Tcp.Conn.{Conn, new_conn}
use school_system.Tcp.Receive.{on_data_all}
use school_system.Tcp.Receive.Index.{member}
use school_system.Tcp.Receive.Refine.{Stream, joined}
use school_system.Tcp.Packet.{data_image}
use school_system.Tcp.Receive.Stall.{duplicate_starves}
use school_system.Tcp.Socket.Fragments.{fragment_count, queued}
use school_system.Tcp.Address.{SockAddr, less}
use school_system.Tcp.Conn.{conn_at}
use school_system.Tcp.Socket.{TcpSocket, Answers, send, resend}
use school_system.Tcp.Socket.Reception.{stream_at}
use school_system.Tcp.Socket.Batches.{arrivals}
use school_system.Tcp.Socket.Reliable.{reliable_transfer}
use school_system.Tcp.Receive.Delivery.{IsFresh}

-- Packet `i` of a stream from the number 1 on holds the byte `i`.
abbrev letter : ℕ → List ℕ
letter i = i ∷ []

abbrev letter_packet : ℕ → DataPacket
letter_packet i = record { n_type = 2; n_seq = 1 + i; n_len = 1; bytes = i ∷ [] }

letter-Stream : (n : ℕ) → n ≤ 1000 → Stream 1 n letter letter_packet
letter-Stream n small = record {
  bound = omega arith;
  carries =
      λ i h. record { numbered = refl; small = omega arith; room = omega arith; holds = refl };
}

-- A connection after the handshake.
abbrev ready_conn : Conn
ready_conn = record new_conn { next_recv_seq = 1 }

ready_conn-IsFresh : IsFresh 1 ready_conn
ready_conn-IsFresh = record { next = refl; empty = refl }

-- Three packets, the last first.
all_three : (i : ℕ) → member i (2 ∷ 0 ∷ 1 ∷ []) ≡ ltb i 3
all_three i = ground arith

duplicate_starves_example :
    (c' : Conn) × (k : ℕ) × (on_data_all (map letter_packet (1 ∷ 1 ∷ 0 ∷ 3 ∷ 2 ∷ [])) ready_conn
      ≡ some c')
    × (k ≤ 3)
    × (c'.byte_stream.vt_buf ≡ [] ++ joined letter k)
    × (c'.next_recv_seq ≡ 1 + k)
duplicate_starves_example =
    duplicate_starves (letter-Stream 4 (omega arith)) (2 ∷ []) ready_conn (omega arith)
      (omega arith) refl ready_conn-IsFresh

-- A buffer that takes three packets.
abbrev file_bytes : List ℕ
file_bytes = replicate 2500 7

abbrev alice : SockAddr
alice = record { sin_family = 2; sin_port = 1000; s_addr = 7 }

abbrev bob : SockAddr
bob = record { sin_family = 2; sin_port = 2000; s_addr = 8 }

-- Alice has a connection to Bob, and he one to her.
abbrev alice_socket : TcpSocket
alice_socket = record {
  connect_map = (bob, record new_conn { next_send_seq = 1 }) ∷ [];
  send_list = [];
}

abbrev bob_socket : TcpSocket
bob_socket = record { connect_map = (alice, ready_conn) ∷ []; send_list = [] }

abbrev answers : Answers
answers = record { clock_test = λ _. 0; clock_set = λ _. 5; sendto_ok = λ _. true }

alice_number : (conn_at bob alice_socket.connect_map).next_send_seq ≡ 1
unfolding conn_at less
alice_number = refl

bob_waits :
    IsFresh
      (conn_at bob alice_socket.connect_map).next_send_seq
      (conn_at alice bob_socket.connect_map)
unfolding conn_at less
bob_waits = record { next = refl; empty = refl }

reliable_transfer_example :
    (s' : TcpSocket) × (packet : ℕ → DataPacket) × (r' : TcpSocket) × (send alice_socket bob
        file_bytes 2500
      ≡ some (s', 2500))
    × (s'.send_list ≡ [] ++ map (λ i. queued bob (packet i)) (range_from 0 (fragment_count 2500)))
    × ((resend answers 0
          (map (λ i. queued bob (packet i)) (range_from 0 (fragment_count 2500)))).sent
        ≡ map
            (λ i. record { to = bob; content = data_image (packet i) })
            (range_from 0 (fragment_count 2500)))
    × (arrivals alice (map (λ i. data_image (packet i)) (2 ∷ 0 ∷ 1 ∷ [])) bob_socket ≡ some r')
    × (stream_at alice r' ≡ stream_at alice bob_socket ++ take 2500 file_bytes)
    × IsFresh
        ((conn_at bob alice_socket.connect_map).next_send_seq + fragment_count 2500)
        (conn_at alice r'.connect_map)
reliable_transfer_example =
    reliable_transfer alice_socket bob file_bytes 2500 answers bob_socket alice (2 ∷ 0 ∷ 1 ∷ [])
      (omega arith) (omega (arith, length-replicate {A = ℕ} 2500 7)) (omega (arith, alice_number))
      (λ j. refl) (omega arith) (refl, (refl, (refl, tt))) all_three bob_waits

abbrev pub hi_packet : DataPacket
hi_packet = record { n_type = 2; n_seq = 5; n_len = 2; bytes = 104 ∷ 105 ∷ [] }
