-- ===== src/Tests/Arrivals.antt =====
-- SchoolSystemServer/CServer.cpp: a statement that arrives at the server, and a round of its loop.
use school_system.Base.{ℕ, ◌+◌, ◌≡◌, refl, some, [], ◌∷◌, ◌++◌, arith, ltb, map, range_from}
use school_system.Tcp.Address.{less}
use school_system.Tcp.Packet.{data_image}
use school_system.Tcp.Conn.{Conn, ConnMap, new_conn, conn_at, has_data, in_use}
use school_system.Tcp.Receive.Index.{member}
use school_system.Tcp.Receive.Delivery.{IsFresh}
use school_system.Tcp.Socket.{TcpSocket, gets}
use school_system.Tcp.Socket.Fragments.{queued}
use school_system.Tcp.Socket.Reception.{stream_at}
use school_system.Tcp.Socket.Batches.{arrivals}
use school_system.Tcp.Server.{poll}
use school_system.ThreadPool.{new_pool}
use school_system.ThreadPool.Threads
use school_system.ThreadPool.Threads.{submit, check}
use school_system.Server.Requests.{message, send_sql}
use school_system.Server.Loop.{Main, selecting, round}
use school_system.Server.Loop.Serving.{round_serves}
use school_system.Server.Arrival.{sql_packet, sql_count, statement_arrives}
use school_system.Tests.Messages.{client, use_test, socket_with}

-- A client is ready.
abbrev in_stream : Conn
in_stream = record new_conn {
  byte_stream = record { vt_buf = message use_test ++ 1 ∷ [] };
  status = has_data;
}

abbrev listening : Main
listening = record {
  phase = selecting;
  socket = record { connect_map = (client, in_stream) ∷ []; send_list = [] };
  pool = Threads.init (new_pool 2);
  tasks = [];
}

abbrev marked : ConnMap
marked = (client, record in_stream { status = in_use }) ∷ []

is_selected : poll listening.socket.connect_map ≡ some (client, marked)
unfolding poll
is_selected = refl

has_statement : stream_at client listening.socket ≡ message use_test ++ 1 ∷ []
unfolding conn_at less
has_statement = refl

round_serves_example :
    (m' : Main) × (round listening ≡ gets m')
    × (m'.phase ≡ selecting)
    × (m'.tasks ≡ record { addr = client; sql = use_test } ∷ [])
    × (m'.pool ≡ check (submit 0 listening.pool))
    × (stream_at client m'.socket ≡ 1 ∷ [])
round_serves_example =
    round_serves listening client marked use_test (1 ∷ []) refl is_selected (omega arith)
      (omega arith) has_statement (omega arith)

both_packets : (i : ℕ) → member i (1 ∷ 0 ∷ []) ≡ ltb i (sql_count use_test)
both_packets i = ground arith

nothing_before : IsFresh 0 (conn_at client (socket_with []).connect_map)
unfolding conn_at less
nothing_before = record { next = refl; empty = refl }

statement_arrives_example :
    (k' : TcpSocket) × (s' : TcpSocket) × (send_sql (socket_with []) client use_test ≡ some k')
    × (k'.send_list
        ≡ map (λ i. queued client (sql_packet 0 use_test i)) (range_from 0 (sql_count use_test)))
    × (arrivals client
          (map (λ i. data_image (sql_packet 0 use_test i)) (1 ∷ 0 ∷ []))
          (socket_with [])
        ≡ some s')
    × (stream_at client s' ≡ [] ++ message use_test)
    × IsFresh (0 + sql_count use_test) (conn_at client s'.connect_map)
unfolding conn_at less
statement_arrives_example =
    statement_arrives (socket_with []) client use_test (socket_with []) client (1 ∷ 0 ∷ [])
      (omega arith) (omega arith) (omega arith) (refl, (refl, tt)) both_packets nothing_before
