-- ===== src/Tcp/Channel/Elsewhere.antt =====
-- What the threads of the two sides do besides: the other direction of the connection, and other
-- connections. It leaves alone what the channel stands on.
use school_system.Base.{
  ℕ, ◌≡◌, refl, sym, ap, subst, ◌∙◌, ◌⊎◌, inl, inr, Bool, true, false, Option, none, some, List, [],
  ◌∷◌, ◌%◌, ◌==◌, leb, length, Bool-cases, Holds, is_negative,
}
use school_system.Tcp.ByteStream.{ByteStream}
use school_system.Tcp.Address.{SockAddr}
use school_system.Tcp.Packet.{
  DataPacket, PackageType, establish_1, establish_2, data_package, ack, code_of, type_of, data_len,
}
use school_system.Tcp.Conn.{Conn, ConnMap, conn_at, modify}
use school_system.Tcp.Receive.{on_data}
use school_system.Tcp.Socket.{
  TcpSocket, Datagram, Receipt, waits, gets, undefined, put_conn, handle_by, on_packet, put_receipt,
  put_stream, take_bytes, recv, send, ack_for,
}
use school_system.Tcp.Socket.Isolation.{DifferentKeys, conn_at-modify_apart}
use school_system.Tcp.Socket.Taken.{modify-keeps, on_data-keeps}
use school_system.Tcp.Socket.Reception.{of_gets}
use school_system.Tcp.Server.{poll, released, unselect}
use school_system.Tcp.Server.Selection.{poll-fields}

-- The connection has the number for its next packet.
abbrev pub SendsNext : ℕ → Conn → Type 0
SendsNext q c = c.next_send_seq ≡ q

put_conn-SendsNext :
    (q : ℕ) (s : TcpSocket) (a b : SockAddr) (c : Option Conn) (sent : List Datagram)
    → (SendsNext q (conn_at b s.connect_map) → Holds (SendsNext q) c)
    → SendsNext q (conn_at a s.connect_map)
    → SendsNext q (conn_at a (put_conn s b c sent).socket.connect_map)
put_conn-SendsNext q s a b none sent k h = h
put_conn-SendsNext q s a b (some c) sent k h =
    modify-keeps (SendsNext q) a b (λ _. c) s.connect_map k h

put_conn-list :
    (s : TcpSocket) (b : SockAddr) (c : Option Conn) (sent : List Datagram)
    → (put_conn s b c sent).socket.send_list ≡ s.send_list
put_conn-list s b none sent = refl
put_conn-list s b (some c) sent = refl

-- What a data packet, or the answer to a first packet, changes on the side that it reaches.
answer_keeps :
    (a from : SockAddr) (q : ℕ) (s : TcpSocket) (p : DataPacket) (ok : Bool) (t : PackageType)
    → (t ≡ data_package) ⊎ (t ≡ establish_2)
    → SendsNext q (conn_at a s.connect_map)
    → SendsNext q (conn_at a (handle_by (some t) s from p ok).socket.connect_map)
      × ((handle_by (some t) s from p ok).socket.send_list ≡ s.send_list)
answer_keeps a from q s p ok establish_1 (inl e) h = cc
answer_keeps a from q s p ok establish_1 (inr e) h = cc
answer_keeps a from q s p true establish_2 k h =
    (modify-keeps (SendsNext q) a from _ s.connect_map (λ k. k) h, refl)
answer_keeps a from q s p false establish_2 k h =
    (modify-keeps (SendsNext q) a from _ s.connect_map (λ k. k) h, refl)
answer_keeps a from q s p true data_package k h =
    let c = on_data p (conn_at from s.connect_map) in
    let acks = ack_for from p.n_seq ∷ [] in
    (
      put_conn-SendsNext q s a from c acks
          (on_data-keeps (SendsNext q) (λ c b n t. t) (λ c ps t. t) p (conn_at from s.connect_map))
          h,
      put_conn-list s from c acks,
    )
answer_keeps a from q s p false data_package k h =
    (modify-keeps (SendsNext q) a from _ s.connect_map (λ k. k) h, refl)
answer_keeps a from q s p ok ack (inl e) h = cc
answer_keeps a from q s p ok ack (inr e) h = cc

pub heard-SendsNext :
    (a from : SockAddr) (q : ℕ) (s : TcpSocket) (p : DataPacket) (ok : Bool) (t : PackageType)
    → type_of p.n_type ≡ some t
    → (t ≡ data_package) ⊎ (t ≡ establish_2)
    → SendsNext q (conn_at a s.connect_map)
    → SendsNext q (conn_at a (on_packet s from p ok).socket.connect_map)
      × ((on_packet s from p ok).socket.send_list ≡ s.send_list)
unfolding on_packet
heard-SendsNext a from q s p ok t e k h = rw e (answer_keeps a from q s p ok t k h)

-- The connection of a client keeps all that reassembly works on.
abbrev pub Same : Conn → Conn → Type 0
Same c d =
    (d.next_recv_seq ≡ c.next_recv_seq)
    × (d.recv_list ≡ c.recv_list)
    × (d.byte_stream ≡ c.byte_stream)

abbrev pub SameAt : SockAddr → TcpSocket → TcpSocket → Type 0
SameAt a s t = Same (conn_at a s.connect_map) (conn_at a t.connect_map)

pub alike : {c d : Conn} → d ≡ c → Same c d
alike e = (ap (λ c. c.next_recv_seq) e, ap (λ c. c.recv_list) e, ap (λ c. c.byte_stream) e)

-- A change that keeps it in every connection.
modify-Same :
    (a b : SockAddr) (f : Conn → Conn) (m : ConnMap)
    → ((c : Conn) → Same c (f c))
    → Same (conn_at a m) (conn_at a (modify b f m))
modify-Same a b f m k =
    modify-keeps (Same (conn_at a m)) a b f m
      (λ h. let (x, y, z) = k (conn_at b m) in (x ∙ h.0, y ∙ h.1, z ∙ h.2)) (refl, refl, refl)

pub sent-Same :
    (a to : SockAddr) (s : TcpSocket) (buf : List ℕ) (len : ℕ)
    → Holds (λ r. SameAt a s r.0) (send s to buf len)
unfolding send
sent-Same a to s buf len = elim (Bool-cases (is_negative len)) [
  | inl e ↦ elim (Bool-cases (len % data_len == 0)) [
    | inl e' ↦ rw (e, e') (modify-Same a to _ s.connect_map (λ c. (refl, refl, refl)))
    | inr e' ↦ rw (e, e') tt
  ]
  | inr e ↦ elim (Bool-cases (leb len (length buf))) [
    | inl e' ↦ rw (e, e') (modify-Same a to _ s.connect_map (λ c. (refl, refl, refl)))
    | inr e' ↦ rw (e, e') tt
  ]
]

pub acked-Same :
    (a from : SockAddr) (s : TcpSocket) (p : DataPacket) (ok : Bool)
    → p.n_type ≡ code_of ack
    → SameAt a s (on_packet s from p ok).socket
unfolding on_packet
acked-Same a from s p ok typed =
    subst (λ t. SameAt a s (handle_by (type_of t) s from p ok).socket) (sym typed)
      (modify-Same a from _ s.connect_map (λ c. (refl, refl, refl)))

pub polled-Same :
    (a : SockAddr) (s : TcpSocket) (b : SockAddr) (m : ConnMap)
    → poll s.connect_map ≡ some (b, m)
    → Same (conn_at a s.connect_map) (conn_at a m)
polled-Same a s b m e = (
  poll-fields (λ c. c.next_recv_seq) (λ c t. refl) s.connect_map a e,
  poll-fields (λ c. c.recv_list) (λ c t. refl) s.connect_map a e,
  poll-fields (λ c. c.byte_stream) (λ c t. refl) s.connect_map a e,
)

pub unselected-Same : (a b : SockAddr) (m : ConnMap) → Same (conn_at a m) (conn_at a (unselect b m))
unfolding unselect
unselected-Same a b m = modify-Same a b released m (λ c. (refl, refl, refl))

-- What `Recv` on a connection leaves alone: the numbers and the send list, and other connections.
put_receipt-apart :
    (a from : SockAddr) (q : ℕ) (s : TcpSocket) (r : Receipt (List ℕ × ByteStream)) {bytes : List ℕ}
    {s' : TcpSocket}
    → put_receipt s from r ≡ gets (bytes, s')
    → (SendsNext q (conn_at a s.connect_map) → SendsNext q (conn_at a s'.connect_map))
      × (s'.send_list ≡ s.send_list)
      × (DifferentKeys from a → conn_at a s'.connect_map ≡ conn_at a s.connect_map)
put_receipt-apart a from q s waits e = cc
put_receipt-apart a from q s (gets (bs, b)) {bytes} {s'} e =
    let f : put_stream s from b ≡ s' = ap (λ p. p.1) (of_gets e) in
    subst
      (λ s'.
        (SendsNext q (conn_at a s.connect_map) → SendsNext q (conn_at a s'.connect_map))
        × (s'.send_list ≡ s.send_list)
        × (DifferentKeys from a → conn_at a s'.connect_map ≡ conn_at a s.connect_map))
      f
      (
        modify-keeps (SendsNext q) a from _ s.connect_map (λ k. k),
        refl,
        conn_at-modify_apart from a _ s.connect_map,
      )
put_receipt-apart a from q s undefined e = cc

pub recv-apart :
    (a from : SockAddr) (q : ℕ) (s : TcpSocket) (n : ℕ) {bytes : List ℕ} {s' : TcpSocket}
    → recv s from n ≡ gets (bytes, s')
    → (SendsNext q (conn_at a s.connect_map) → SendsNext q (conn_at a s'.connect_map))
      × (s'.send_list ≡ s.send_list)
      × (DifferentKeys from a → conn_at a s'.connect_map ≡ conn_at a s.connect_map)
unfolding recv
recv-apart a from q s n e =
    put_receipt-apart a from q s (take_bytes (conn_at from s.connect_map).byte_stream n) e
