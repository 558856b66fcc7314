-- ===== src/Tcp/Conn.antt =====
-- TcpSocketDll/CTcpSocket.h: `Conn`, what a socket keeps for each peer, and `m_connectMap`.
pub mod Laws
use school_system.Base.{ℕ, Bool, true, false, List, [], ◌∷◌, if◌then◌else◌}
use school_system.Tcp.ByteStream
use school_system.Tcp.ByteStream.{ByteStream}
use school_system.Tcp.Packet.{DataPacket}
use school_system.Tcp.Address.{SockAddr, less}

-- `m_nStatus`: 0, no data; 1, data that nobody handles; 2, data that is being handled.
pub data Status : Type 0 where
  no_data has_data in_use : Status

pub record Conn : Type 0 where
  pub next_send_seq : ℕ
  pub next_recv_seq : ℕ
  pub recv_list : List DataPacket
  pub byte_stream : ByteStream
  pub status : Status

-- `Conn()`
abbrev pub new_conn : Conn
new_conn = record {
  next_send_seq = 0;
  next_recv_seq = 0;
  recv_list = [];
  byte_stream = ByteStream.empty;
  status = no_data;
}

-- `map<sockaddr, Conn, Compare>`: the entries in the order of their keys.
abbrev pub ConnMap : Type 0
ConnMap = List (SockAddr × Conn)

-- `m_connectMap[addr]`, read: a missing key gives a new connection.
unfoldable pub conn_at : SockAddr → ConnMap → Conn
conn_at a [] = new_conn
conn_at a ((b, c) ∷ m) = if less b a then conn_at a m else if less a b then new_conn else c

-- `m_connectMap[addr]`, changed by `f`: a missing key is put in its place, with a new connection.
unfoldable pub modify : SockAddr → (Conn → Conn) → ConnMap → ConnMap
modify a f [] = (a, f new_conn) ∷ []
modify a f ((b, c) ∷ m) =
    if less b a
    then (b, c) ∷ modify a f m
    else if less a b
    then (a, f new_conn) ∷ (b, c) ∷ m
    else (b, f c) ∷ m
