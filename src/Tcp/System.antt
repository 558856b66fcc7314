-- ===== src/Tcp/System.antt =====
-- TcpSocketDll as a whole: the threads of a server's socket in any interleaving of their turns.
-- The receive thread handles a packet, the send thread makes a turn, and the application's threads
-- call `Send`, `Recv`, `Select` and `UnSelect`, each whenever it can.
pub mod Invariant
pub mod Bounds
pub mod Exclusive
use school_system.Base.{
  ℕ, zero, suc, ◌<◌, ◌≡◌, refl, sym, ap, subst, ◌∙◌, ◌⊎◌, inl, inr, ◌≢◌, Bool, true, false, Option,
  none, some, List, [], ◌∷◌, ◌++◌, arith, ◌==◌, leb, ◌%◌, if◌then◌else◌, length, int_mod,
  is_negative, Bool-cases, of_some, Holds,
}
use school_system.Tcp.ByteStream.{get_size, get_size_lem}
use school_system.Tcp.Packet.{
  DataPacket, PackageType, establish_1, establish_2, data_package, ack, type_of, data_len,
}
use school_system.Tcp.Address.{SockAddr}
use school_system.Tcp.Conn.{
  Conn, ConnMap, Status, no_data, has_data, in_use, new_conn, conn_at, modify,
}
use school_system.Tcp.Conn.Laws.{
  Everywhere, conn_at-Everywhere, modify-Everywhere_at, Ordered, modify-Ordered,
}
use school_system.Tcp.Receive.{on_data}
use school_system.Tcp.Socket.{
  TcpSocket, SendListNode, Datagram, Receipt, waits, gets, undefined, Answers, resend, Ending,
  goes_on, put_conn, handle_by, ack_for, on_packet, put_packets, send, take_bytes, put_receipt,
  recv,
}
use school_system.Tcp.Socket.Wakeups.{IsAwake, new_conn-IsAwake, on_packet-IsAwake, send-IsAwake}
use school_system.Tcp.Socket.Reception.{recv-IsAwake}
use school_system.Tcp.Server.{poll, released, unselect, is_ready}
use school_system.Tcp.Server.Selection.{IsUnready, poll-Polled, poll-Everywhere, poll-Ordered}

-- One turn of one thread.
pub data Step (s t : TcpSocket) : Type 0 where
  arrives :
      (from : SockAddr) (p : DataPacket) (ok : Bool)
      → (on_packet s from p ok).ending ≡ goes_on
      → t ≡ (on_packet s from p ok).socket
      → Step s t
  transmits : (w : Answers) → t ≡ record s { send_list = (resend w 0 s.send_list).nodes } → Step s t
  sends : (to : SockAddr) (buf : List ℕ) (len n : ℕ) → send s to buf len ≡ some (t, n) → Step s t
  receives : (from : SockAddr) (n : ℕ) (bytes : List ℕ) → recv s from n ≡ gets (bytes, t) → Step s t
  selects :
      (a : SockAddr) (m : ConnMap)
      → poll s.connect_map ≡ some (a, m)
      → t ≡ record s { connect_map = m }
      → Step s t
  unselects :
      (a : SockAddr)
      → length (conn_at a s.connect_map).byte_stream.vt_buf < int_mod
      → t ≡ record s { connect_map = unselect a s.connect_map }
      → Step s t

-- A socket after `Listen`.
abbrev pub opened : TcpSocket
opened = record { connect_map = []; send_list = [] }

pub data Reach : TcpSocket → Type 0 where
  start : Reach opened
  next : {s t : TcpSocket} → Reach s → Step s t → Reach t
