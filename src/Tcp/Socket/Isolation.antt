-- ===== src/Tcp/Socket/Isolation.antt =====
-- What arrives from one peer leaves the connections of the others alone.
use school_system.Base.{
  List, [], ◌∷◌, ◌≡◌, refl, ◌∙◌, ◌⊎◌, inl, inr, Bool, true, false, Option, none, some,
}
use school_system.Tcp.Packet.{
  DataPacket, PackageType, establish_1, establish_2, data_package, ack, type_of,
}
use school_system.Tcp.Address.{SockAddr, less, less-asymm}
use school_system.Tcp.Conn.{Conn, ConnMap, conn_at, modify}
use school_system.Tcp.Conn.Laws.{conn_at-modify}
use school_system.Tcp.Receive.{on_data}
use school_system.Tcp.Socket.{TcpSocket, Datagram, ack_for, put_conn, handle_by, on_packet}

-- The addresses differ in host or port.
abbrev pub DifferentKeys : SockAddr → SockAddr → Type 0
DifferentKeys a b = (less a b ≡ true) ⊎ (less b a ≡ true)

pub conn_at-modify_apart :
    (a b : SockAddr) (f : Conn → Conn) (m : ConnMap)
    → DifferentKeys a b
    → conn_at b (modify a f m) ≡ conn_at b m
conn_at-modify_apart a b f m (inl h) = conn_at-modify a b f m ∙ rw h
conn_at-modify_apart a b f m (inr h) = conn_at-modify a b f m ∙ rw (less-asymm b a h, h)

put_conn_apart :
    (s : TcpSocket) (a b : SockAddr) (c : Option Conn) (sent : List Datagram)
    → DifferentKeys a b
    → conn_at b (put_conn s a c sent).socket.connect_map ≡ conn_at b s.connect_map
put_conn_apart s a b none sent h = refl
put_conn_apart s a b (some c) sent h = conn_at-modify_apart a b (λ _. c) s.connect_map h

handle_by_apart :
    (t : Option PackageType) (s : TcpSocket) (a b : SockAddr) (p : DataPacket) (ok : Bool)
    → DifferentKeys a b
    → conn_at b (handle_by t s a p ok).socket.connect_map ≡ conn_at b s.connect_map
handle_by_apart none s a b p ok h = conn_at-modify_apart a b _ s.connect_map h
handle_by_apart (some establish_1) s a b p ok h = conn_at-modify_apart a b _ s.connect_map h
handle_by_apart (some establish_2) s a b p true h = conn_at-modify_apart a b _ s.connect_map h
handle_by_apart (some establish_2) s a b p false h = conn_at-modify_apart a b _ s.connect_map h
handle_by_apart (some data_package) s a b p true h =
    put_conn_apart s a b (on_data p (conn_at a s.connect_map)) (ack_for a p.n_seq ∷ []) h
handle_by_apart (some data_package) s a b p false h = conn_at-modify_apart a b _ s.connect_map h
handle_by_apart (some ack) s a b p ok h = conn_at-modify_apart a b _ s.connect_map h

-- A packet of any type from one peer changes nothing in the connection of a peer with another host
-- or port: its numbers, waiting packets, stream and status stay.
pub on_packet_apart :
    (s : TcpSocket) (a b : SockAddr) (p : DataPacket) (ok : Bool)
    → DifferentKeys a b
    → conn_at b (on_packet s a p ok).socket.connect_map ≡ conn_at b s.connect_map
unfolding on_packet
on_packet_apart s a b p ok h = handle_by_apart (type_of p.n_type) s a b p ok h
