-- ===== src/Server/Loop/Serving.antt =====
-- A round of the server's loop turns what a client sent into a task of the pool.
use school_system.Base.{
  ℕ, ◌<◌, ◌≡◌, refl, ap, ◌∙◌, some, List, [], ◌∷◌, ◌++◌, length, int_limit, NulFree,
}
use school_system.Tcp.Address.{SockAddr}
use school_system.Tcp.Conn.{ConnMap}
use school_system.Tcp.Socket.{TcpSocket, gets}
use school_system.Tcp.Socket.Reception.{stream_at}
use school_system.Tcp.Server.{poll}
use school_system.Tcp.Server.Selection.{poll-streams}
use school_system.ThreadPool.Threads.{submit, check}
use school_system.Server.Requests.{buf_len, message, request_roundtrip}
use school_system.Server.Loop.{Main, selecting, main_turn, round}

-- A round of the loop: `Select` finds a client, in whose stream a whole statement has arrived, of
-- at most 4095 characters, none of them 0, in front of whatever else. Then the round ends where the
-- next begins; a task for this client, with the statement as it was sent, has been made and given
-- to `AddTask` under its number; what stood behind the statement is left in the stream.
pub round_serves :
    (m : Main) (addr : SockAddr) (found : ConnMap) (sql rest : List ℕ)
    → m.phase ≡ selecting
    → poll m.socket.connect_map ≡ some (addr, found)
    → NulFree sql
    → length sql < buf_len
    → stream_at addr m.socket ≡ message sql ++ rest
    → length (message sql ++ rest) < int_limit
    → (m' : Main) × (round m ≡ gets m')
      × (m'.phase ≡ selecting)
      × (m'.tasks ≡ m.tasks ++ record { addr = addr; sql = sql } ∷ [])
      × (m'.pool ≡ check (submit (length m.tasks) m.pool))
      × (stream_at addr m'.socket ≡ rest)
unfolding round main_turn
round_serves m addr found sql rest at ready free small e fits =
    let s0 : TcpSocket = record m.socket { connect_map = found } in
    let e0 : stream_at addr s0 ≡ message sql ++ rest =
      ap (λ b. b.vt_buf) (poll-streams m.socket.connect_map addr ready) ∙ e in
    let (s1, s2, r1, r2, t) = request_roundtrip s0 addr sql rest free small e0 fits in
    let m' : Main = record {
      phase = selecting;
      socket = s2;
      pool = check (submit (length m.tasks) m.pool);
      tasks = m.tasks ++ record { addr = addr; sql = sql } ∷ [];
    } in
    (m', rw (at, ready, r1, r2), refl, refl, refl, t)
