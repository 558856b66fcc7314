-- ===== src/Tcp/Receive.antt =====
-- TcpSocketDll/CTcpSocket.cpp, `RecvThreadProc`, the case `DATA`: reassembly of the byte stream.
-- `none` stands for a write that reads behind the packet's data, which C++ leaves undefined.
pub mod Index
pub mod Refine
pub mod Delivery
pub mod Stall
use school_system.Base.{
  ℕ, Bool, true, false, Option, none, some, List, [], ◌∷◌, ◌==◌, if◌then◌else◌, ◌>>=◌, next_int,
  int_lt,
}
use school_system.Tcp.ByteStream.{write}
use school_system.Tcp.Packet.{DataPacket}
use school_system.Tcp.Conn.{Conn, Status, no_data, has_data, in_use}

-- `if (0 == conn.m_nStatus) conn.m_nStatus = 1;`
abbrev pub signal : Status → Status
signal no_data = has_data
signal has_data = has_data
signal in_use = in_use

-- The packet that the connection waits for: its data go to the stream.
unfoldable pub deliver : DataPacket → Conn → Option Conn
deliver p c = write c.byte_stream p.bytes p.n_len >>= λ s. some (record c {
  byte_stream = s;
  status = signal c.status;
  next_recv_seq = next_int c.next_recv_seq;
})

-- The `while` over `m_recvList`: its packets are delivered as long as they are consecutive.
unfoldable pub drain : List DataPacket → Conn → Option Conn
drain [] c = some (record c { recv_list = [] })
drain (q ∷ qs) c =
    if q.n_seq == c.next_recv_seq
    then (deliver q c >>= drain qs)
    else some (record c { recv_list = q ∷ qs })

-- A packet from further on is put in front of the first with a greater number.
unfoldable pub insert_packet : DataPacket → List DataPacket → List DataPacket
insert_packet p [] = p ∷ []
insert_packet p (q ∷ qs) = if int_lt p.n_seq q.n_seq then p ∷ q ∷ qs else q ∷ insert_packet p qs

-- The case `DATA`, behind the acknowledgement.
unfoldable pub on_data : DataPacket → Conn → Option Conn
on_data p c =
    if p.n_seq == c.next_recv_seq
    then (deliver p c >>= λ c'. drain c'.recv_list c')
    else if int_lt c.next_recv_seq p.n_seq
    then some (record c { recv_list = insert_packet p c.recv_list })
    else some c

-- The packets of a connection in the order in which they arrive.
unfoldable pub on_data_all : List DataPacket → Conn → Option Conn
on_data_all [] c = some c
on_data_all (p ∷ ps) c = on_data p c >>= on_data_all ps
