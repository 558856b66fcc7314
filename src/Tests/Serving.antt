-- ===== src/Tests/Serving.antt =====
-- TcpSocketDll: Alice is served while Bob connects and sends a byte.
use school_system.Base.{◌≡◌, refl, true, some, [], ◌∷◌}
use school_system.Tcp.ByteStream.{write, push_bytes}
use school_system.Tcp.Address.{less}
use school_system.Tcp.Conn.{ConnMap, new_conn, conn_at, modify, in_use}
use school_system.Tcp.Receive.{on_data, deliver, drain}
use school_system.Tcp.Socket.{TcpSocket, on_packet}
use school_system.Tcp.Socket.Isolation.{DifferentKeys}
use school_system.Tcp.Server.{poll}
use school_system.Tcp.System.{arrives}
use school_system.Tcp.System.Exclusive.{Serves, still, goes, exclusive_service}
use school_system.Tests.Sockets.{alice, bob, hello_packet, byte_packet, arrived, arrived-Reach}

abbrev alice_taken : ConnMap
alice_taken =
    (
      alice,
      record new_conn {
        next_send_seq = 1;
        next_recv_seq = 2;
        byte_stream = record { vt_buf = 42 ∷ [] };
        status = in_use;
      },
    )
    ∷ []

abbrev serving : TcpSocket
serving = record arrived { connect_map = alice_taken }

abbrev bob_connected : TcpSocket
bob_connected = (on_packet serving bob hello_packet true).socket

abbrev bob_sent : TcpSocket
bob_sent = (on_packet bob_connected bob byte_packet true).socket

alice_found : poll arrived.connect_map ≡ some (alice, alice_taken)
unfolding poll on_packet conn_at modify less on_data deliver drain write push_bytes
alice_found = refl

meanwhile : Serves alice serving bob_sent
unfolding on_packet conn_at modify less on_data deliver drain write push_bytes
meanwhile =
    goes (goes still (arrives bob hello_packet true refl refl) tt)
      (arrives bob byte_packet true refl refl) tt

bob_found : (m' : ConnMap) × (poll bob_sent.connect_map ≡ some (bob, m'))
unfolding poll on_packet conn_at modify less on_data deliver drain write push_bytes
bob_found = (_, refl)

exclusive_service_example : DifferentKeys alice bob
exclusive_service_example = exclusive_service arrived-Reach alice_found meanwhile bob_found.1
