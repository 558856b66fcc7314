-- ===== src/Tcp/Socket/Wakeups.antt =====
-- Received data are never forgotten: a connection with data is ready for `Select`, or in use.
use school_system.Base.{
  ℕ, ◌≡◌, refl, subst, Holds, is_negative, leb, ◌%◌, inl, inr, ◌≢◌, Bool, true, false, Option, none,
  some, List, [], ◌∷◌, ◌==◌, Bool-cases, Option-cases, int_lt, length,
}
use school_system.Tcp.ByteStream
use school_system.Tcp.ByteStream.{ByteStream}
use school_system.Tcp.Packet.{
  data_len, DataPacket, PackageType, establish_1, establish_2, data_package, ack, type_of,
}
use school_system.Tcp.Address.{SockAddr}
use school_system.Tcp.Conn.{
  Conn, ConnMap, Status, no_data, has_data, in_use, new_conn, conn_at, modify,
}
use school_system.Tcp.Conn.Laws.{Everywhere, conn_at-Everywhere, modify-Everywhere}
use school_system.Tcp.Receive.{signal, deliver, drain, on_data}
use school_system.Tcp.Socket.{TcpSocket, Datagram, put_conn, handle_by, ack_for, on_packet, send}

-- A connection that is marked as having no data has none.
abbrev pub IsAwake : Conn → Type 0
IsAwake c = c.status ≡ no_data → c.byte_stream.vt_buf ≡ []

signal-ne : (t : Status) → signal t ≢ no_data
signal-ne no_data h = cc
signal-ne has_data h = cc
signal-ne in_use h = cc

deliver-IsAwake : (p : DataPacket) (c : Conn) → Holds IsAwake (deliver p c)
unfolding deliver
deliver-IsAwake p c = elim (Option-cases (ByteStream.write c.byte_stream p.bytes p.n_len)) [
  | inl n ↦ rw n tt
  | inr (b, w) ↦ rw w (λ h. absurd (signal-ne c.status h))
]

drain-IsAwake : (qs : List DataPacket) (c : Conn) → IsAwake c → Holds IsAwake (drain qs c)
unfolding drain
drain-IsAwake [] c a = a
drain-IsAwake (q ∷ qs) c a = elim (Bool-cases (q.n_seq == c.next_recv_seq)) [
  | inl hit ↦ elim (Option-cases (deliver q c)) [
    | inl n ↦ rw (hit, n) tt
    | inr (d, w) ↦ rw (hit, w) (drain-IsAwake qs d (subst (Holds IsAwake) w (deliver-IsAwake q c)))
  ]
  | inr miss ↦ rw miss a
]

on_data-IsAwake : (p : DataPacket) (c : Conn) → IsAwake c → Holds IsAwake (on_data p c)
unfolding on_data
on_data-IsAwake p c a = elim (Bool-cases (p.n_seq == c.next_recv_seq)) [
  | inl hit ↦ elim (Option-cases (deliver p c)) [
    | inl n ↦ rw (hit, n) tt
    | inr (d, w) ↦
        rw (hit, w) (drain-IsAwake d.recv_list d (subst (Holds IsAwake) w (deliver-IsAwake p c)))
  ]
  | inr miss ↦ elim (Bool-cases (int_lt c.next_recv_seq p.n_seq)) [
    | inl later ↦ rw (miss, later) a
    | inr old ↦ rw (miss, old) a
  ]
]

put_conn-IsAwake :
    (s : TcpSocket) (a : SockAddr) (c : Option Conn) (sent : List Datagram)
    → Holds IsAwake c
    → Everywhere IsAwake s.connect_map
    → Everywhere IsAwake (put_conn s a c sent).socket.connect_map
put_conn-IsAwake s a none sent k h = h
put_conn-IsAwake s a (some c) sent k h =
    modify-Everywhere IsAwake a (λ _. c) s.connect_map k (λ _ _. k) h

pub new_conn-IsAwake : IsAwake new_conn
new_conn-IsAwake h = refl

touch-IsAwake :
    (a : SockAddr) (m : ConnMap) → Everywhere IsAwake m → Everywhere IsAwake (modify a (λ c. c) m)
touch-IsAwake a m h = modify-Everywhere IsAwake a (λ c. c) m new_conn-IsAwake (λ c k. k) h

handle_by-IsAwake :
    (t : Option PackageType) (s : TcpSocket) (a : SockAddr) (p : DataPacket) (ok : Bool)
    → Everywhere IsAwake s.connect_map
    → Everywhere IsAwake (handle_by t s a p ok).socket.connect_map
handle_by-IsAwake none s a p ok h = touch-IsAwake a s.connect_map h
handle_by-IsAwake (some establish_1) s a p ok h =
    modify-Everywhere IsAwake a _ s.connect_map new_conn-IsAwake (λ c k. k) h
handle_by-IsAwake (some establish_2) s a p true h = touch-IsAwake a s.connect_map h
handle_by-IsAwake (some establish_2) s a p false h = touch-IsAwake a s.connect_map h
handle_by-IsAwake (some data_package) s a p true h =
    put_conn-IsAwake s a (on_data p (conn_at a s.connect_map)) (ack_for a p.n_seq ∷ [])
      (on_data-IsAwake p (conn_at a s.connect_map)
        (conn_at-Everywhere IsAwake a s.connect_map new_conn-IsAwake h))
      h
handle_by-IsAwake (some data_package) s a p false h = touch-IsAwake a s.connect_map h
handle_by-IsAwake (some ack) s a p ok h = touch-IsAwake a s.connect_map h

pub on_packet-IsAwake :
    (s : TcpSocket) (a : SockAddr) (p : DataPacket) (ok : Bool)
    → Everywhere IsAwake s.connect_map
    → Everywhere IsAwake (on_packet s a p ok).socket.connect_map
unfolding on_packet
on_packet-IsAwake s a p ok h = handle_by-IsAwake (type_of p.n_type) s a p ok h

pub send-IsAwake :
    (s : TcpSocket) (a : SockAddr) (buf : List ℕ) (len : ℕ)
    → Everywhere IsAwake s.connect_map
    → Holds (λ r. Everywhere IsAwake r.0.connect_map) (send s a buf len)
unfolding send
send-IsAwake s a buf len h = elim (Bool-cases (is_negative len)) [
  | inl e ↦ elim (Bool-cases (len % data_len == 0)) [
    | inl e' ↦ rw (e, e') (touch-IsAwake a s.connect_map h)
    | inr e' ↦ rw (e, e') tt
  ]
  | inr e ↦ elim (Bool-cases (leb len (length buf))) [
    | inl e' ↦
        rw (e, e') (modify-Everywhere IsAwake a _ s.connect_map new_conn-IsAwake (λ c k. k) h)
    | inr e' ↦ rw (e, e') tt
  ]
]
