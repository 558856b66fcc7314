-- ===== src/Tcp/Socket/Taken.antt =====
-- TcpSocketDll/CTcpSocket.cpp: a packet, `Send` and `Recv` leave a client that is being served as it is.
use school_system.Base.{
  ℕ, ◌≡◌, refl, sym, ap, subst, inl, inr, Bool, true, false, Option, none, some, List, [], ◌∷◌,
  ◌==◌, leb, ◌%◌, length, int_lt, is_negative, Bool-cases, Option-cases, Holds, next_int,
}
use school_system.Tcp.ByteStream
use school_system.Tcp.ByteStream.{ByteStream}
use school_system.Tcp.Packet.{
  DataPacket, PackageType, establish_1, establish_2, data_package, ack, type_of, data_len,
}
use school_system.Tcp.Address.{SockAddr, less, less-weak}
use school_system.Tcp.Conn.{Conn, ConnMap, in_use, conn_at, modify}
use school_system.Tcp.Conn.Laws.{conn_at-modify}
use school_system.Tcp.Receive.{signal, deliver, drain, on_data, insert_packet}
use school_system.Tcp.Socket.{
  TcpSocket, Datagram, Receipt, waits, gets, undefined, put_conn, handle_by, ack_for, on_packet,
  send, take_bytes, put_receipt, recv,
}

-- A thread handles the connection.
abbrev pub IsTaken : Conn → Type 0
IsTaken c = c.status ≡ in_use

-- What holds of a connection is kept by a data packet, if it bears what the packet changes.
module _ (P : Conn → Type 0)
    (bears_delivery : (c : Conn) (b : ByteStream) (n : ℕ)
      → P c
      → P (record c { byte_stream = b; status = signal c.status; next_recv_seq = n }))
    (bears_waiting : (c : Conn) (ps : List DataPacket)
      → P c
      → P (record c { recv_list = ps })) where
  deliver-keeps : (p : DataPacket) (c : Conn) → P c → Holds P (deliver p c)
  unfolding deliver
  deliver-keeps p c h = elim (Option-cases (ByteStream.write c.byte_stream p.bytes p.n_len)) [
    | inl n ↦ rw n tt
    | inr (b, w) ↦ rw w (bears_delivery c b (next_int c.next_recv_seq) h)
  ]

  drain-keeps : (qs : List DataPacket) (c : Conn) → P c → Holds P (drain qs c)
  unfolding drain
  drain-keeps [] c h = bears_waiting c [] h
  drain-keeps (q ∷ qs) c h = elim (Bool-cases (q.n_seq == c.next_recv_seq)) [
    | inl hit ↦ elim (Option-cases (deliver q c)) [
      | inl n ↦ rw (hit, n) tt
      | inr (d, w) ↦ rw (hit, w) (drain-keeps qs d (subst (Holds P) w (deliver-keeps q c h)))
    ]
    | inr miss ↦ rw miss (bears_waiting c (q ∷ qs) h)
  ]

  pub on_data-keeps : (p : DataPacket) (c : Conn) → P c → Holds P (on_data p c)
  unfolding on_data
  on_data-keeps p c h = elim (Bool-cases (p.n_seq == c.next_recv_seq)) [
    | inl hit ↦ elim (Option-cases (deliver p c)) [
      | inl n ↦ rw (hit, n) tt
      | inr (d, w) ↦
          rw (hit, w) (drain-keeps d.recv_list d (subst (Holds P) w (deliver-keeps p c h)))
    ]
    | inr miss ↦ elim (Bool-cases (int_lt c.next_recv_seq p.n_seq)) [
      | inl later ↦ rw (miss, later) (bears_waiting c (insert_packet p c.recv_list) h)
      | inr old ↦ rw (miss, old) h
    ]
  ]

on_data-IsTaken : (p : DataPacket) (c : Conn) → IsTaken c → Holds IsTaken (on_data p c)
on_data-IsTaken p c t = on_data-keeps IsTaken (λ c b n t. ap signal t) (λ c ps t. t) p c t

-- Addresses with the same key reach the same connection.
pub conn_at-same :
    (a b : SockAddr) (m : ConnMap) → less a b ≡ false → less b a ≡ false → conn_at a m ≡ conn_at b m
unfolding conn_at
conn_at-same a b [] p q = refl
conn_at-same a b ((d, c) ∷ m) p q =
    let (l, r) = less-weak a b d p q in rw (l, r, conn_at-same a b m p q)

-- A change at a key keeps what it has to keep at that key only.
pub modify-keeps :
    (P : Conn → Type 0) (a b : SockAddr) (f : Conn → Conn) (m : ConnMap)
    → (P (conn_at b m) → P (f (conn_at b m)))
    → P (conn_at a m)
    → P (conn_at a (modify b f m))
modify-keeps P a b f m k h = subst P (sym (conn_at-modify b a f m)) (elim (Bool-cases (less b a)) [
  | inl e ↦ rw e h
  | inr e ↦ elim (Bool-cases (less a b)) [
    | inl e' ↦ rw (e, e') h
    | inr e' ↦ rw (e, e') (k (subst P (conn_at-same a b m e' e) h))
  ]
])

-- The client `a` is being served.
abbrev pub Taken : SockAddr → TcpSocket → Type 0
Taken a s = IsTaken (conn_at a s.connect_map)

module _ (a : SockAddr) where
  put_conn-Taken :
      (s : TcpSocket) (b : SockAddr) (c : Option Conn) (sent : List Datagram)
      → (IsTaken (conn_at b s.connect_map) → Holds IsTaken c)
      → Taken a s
      → Taken a (put_conn s b c sent).socket
  put_conn-Taken s b none sent k h = h
  put_conn-Taken s b (some c) sent k h = modify-keeps IsTaken a b (λ _. c) s.connect_map k h

  handle_by-Taken :
      (t : Option PackageType) (s : TcpSocket) (b : SockAddr) (p : DataPacket) (ok : Bool)
      → Taken a s
      → Taken a (handle_by t s b p ok).socket
  handle_by-Taken none s b p ok h = modify-keeps IsTaken a b _ s.connect_map (λ k. k) h
  handle_by-Taken (some establish_1) s b p ok h =
      modify-keeps IsTaken a b _ s.connect_map (λ k. k) h
  handle_by-Taken (some establish_2) s b p true h =
      modify-keeps IsTaken a b _ s.connect_map (λ k. k) h
  handle_by-Taken (some establish_2) s b p false h =
      modify-keeps IsTaken a b _ s.connect_map (λ k. k) h
  handle_by-Taken (some data_package) s b p true h =
      put_conn-Taken s b (on_data p (conn_at b s.connect_map)) (ack_for b p.n_seq ∷ [])
        (on_data-IsTaken p (conn_at b s.connect_map)) h
  handle_by-Taken (some data_package) s b p false h =
      modify-keeps IsTaken a b _ s.connect_map (λ k. k) h
  handle_by-Taken (some ack) s b p ok h = modify-keeps IsTaken a b _ s.connect_map (λ k. k) h

  pub on_packet-Taken :
      (s : TcpSocket) (b : SockAddr) (p : DataPacket) (ok : Bool)
      → Taken a s
      → Taken a (on_packet s b p ok).socket
  unfolding on_packet
  on_packet-Taken s b p ok h = handle_by-Taken (type_of p.n_type) s b p ok h

  pub send-Taken :
      (s : TcpSocket) (b : SockAddr) (buf : List ℕ) (len : ℕ)
      → Taken a s
      → Holds (λ r. Taken a r.0) (send s b buf len)
  unfolding send
  send-Taken s b buf len h = elim (Bool-cases (is_negative len)) [
    | inl e ↦ elim (Bool-cases (len % data_len == 0)) [
      | inl e' ↦ rw (e, e') (modify-keeps IsTaken a b _ s.connect_map (λ k. k) h)
      | inr e' ↦ rw (e, e') tt
    ]
    | inr e ↦ elim (Bool-cases (leb len (length buf))) [
      | inl e' ↦ rw (e, e') (modify-keeps IsTaken a b _ s.connect_map (λ k. k) h)
      | inr e' ↦ rw (e, e') tt
    ]
  ]

  abbrev TakenAfter : Receipt (List ℕ × TcpSocket) → Type 0
  TakenAfter waits = Unit
  TakenAfter (gets (b, s)) = Taken a s
  TakenAfter undefined = Unit

  put_receipt-Taken :
      (s : TcpSocket) (b : SockAddr) (t : Receipt (List ℕ × ByteStream)) {bytes : List ℕ}
      {s' : TcpSocket}
      → Taken a s
      → put_receipt s b t ≡ gets (bytes, s')
      → Taken a s'
  put_receipt-Taken s b waits h e = cc
  put_receipt-Taken s b (gets (bs, c)) h e =
      subst TakenAfter e (modify-keeps IsTaken a b _ s.connect_map (λ k. k) h)
  put_receipt-Taken s b undefined h e = cc

  pub recv-Taken :
      (s : TcpSocket) (b : SockAddr) (n : ℕ) {bytes : List ℕ} {s' : TcpSocket}
      → Taken a s
      → recv s b n ≡ gets (bytes, s')
      → Taken a s'
  unfolding recv
  recv-Taken s b n h e =
      put_receipt-Taken s b (take_bytes (conn_at b s.connect_map).byte_stream n) h e
