-- ===== src/Tcp/System/Invariant.antt =====
-- What holds in every reachable state of a socket.
use school_system.Base.{
  ℕ, ◌<◌, ◌≡◌, refl, sym, subst, inl, inr, ◌≢◌, Bool, true, false, Option, none, some, List, [],
  ◌∷◌, ◌++◌, arith, ◌==◌, leb, ◌%◌, length, int_mod, is_negative, Bool-cases, Holds,
}
use school_system.Tcp.ByteStream.{ByteStream, get_size, get_size_lem}
use school_system.Tcp.Packet.{
  DataPacket, PackageType, establish_1, establish_2, data_package, ack, type_of, data_len,
}
use school_system.Tcp.Address.{SockAddr}
use school_system.Tcp.Conn.{Conn, ConnMap, Status, no_data, has_data, in_use, conn_at}
use school_system.Tcp.Conn.Laws.{Everywhere, modify-Everywhere_at, Ordered, modify-Ordered}
use school_system.Tcp.Receive.{on_data}
use school_system.Tcp.Socket.{
  TcpSocket, Datagram, Receipt, waits, gets, undefined, put_conn, handle_by, ack_for, on_packet,
  send, take_bytes, put_receipt, recv,
}
use school_system.Tcp.Socket.Wakeups.{IsAwake, on_packet-IsAwake, send-IsAwake}
use school_system.Tcp.Socket.Reception.{recv-IsAwake}
use school_system.Tcp.Server.{poll, released, unselect, is_ready}
use school_system.Tcp.Server.Selection.{IsUnready, poll-Polled, poll-Everywhere, poll-Ordered}
use school_system.Tcp.System.{
  Step, arrives, transmits, sends, receives, selects, unselects, Reach, start, next,
}

-- The connections are in the order of their keys, and none with data is marked as having none.
pub record IsValid (s : TcpSocket) : Type 0 where
  pub ordered : Ordered s.connect_map
  pub awake : Everywhere IsAwake s.connect_map

put_conn-Ordered :
    (s : TcpSocket) (a : SockAddr) (c : Option Conn) (sent : List Datagram)
    → Ordered s.connect_map
    → Ordered (put_conn s a c sent).socket.connect_map
put_conn-Ordered s a none sent h = h
put_conn-Ordered s a (some c) sent h = modify-Ordered a _ s.connect_map h

handle_by-Ordered :
    (t : Option PackageType) (s : TcpSocket) (a : SockAddr) (p : DataPacket) (ok : Bool)
    → Ordered s.connect_map
    → Ordered (handle_by t s a p ok).socket.connect_map
handle_by-Ordered none s a p ok h = modify-Ordered a _ s.connect_map h
handle_by-Ordered (some establish_1) s a p ok h = modify-Ordered a _ s.connect_map h
handle_by-Ordered (some establish_2) s a p true h = modify-Ordered a _ s.connect_map h
handle_by-Ordered (some establish_2) s a p false h = modify-Ordered a _ s.connect_map h
handle_by-Ordered (some data_package) s a p true h =
    put_conn-Ordered s a (on_data p (conn_at a s.connect_map)) (ack_for a p.n_seq ∷ []) h
handle_by-Ordered (some data_package) s a p false h = modify-Ordered a _ s.connect_map h
handle_by-Ordered (some ack) s a p ok h = modify-Ordered a _ s.connect_map h

on_packet-Ordered :
    (s : TcpSocket) (a : SockAddr) (p : DataPacket) (ok : Bool)
    → Ordered s.connect_map
    → Ordered (on_packet s a p ok).socket.connect_map
unfolding on_packet
on_packet-Ordered s a p ok h = handle_by-Ordered (type_of p.n_type) s a p ok h

send-Ordered :
    (s : TcpSocket) (a : SockAddr) (buf : List ℕ) (len : ℕ)
    → Ordered s.connect_map
    → Holds (λ r. Ordered r.0.connect_map) (send s a buf len)
unfolding send
send-Ordered s a buf len h = elim (Bool-cases (is_negative len)) [
  | inl e ↦ elim (Bool-cases (len % data_len == 0)) [
    | inl e' ↦ rw (e, e') (modify-Ordered a _ s.connect_map h)
    | inr e' ↦ rw (e, e') tt
  ]
  | inr e ↦ elim (Bool-cases (leb len (length buf))) [
    | inl e' ↦ rw (e, e') (modify-Ordered a _ s.connect_map h)
    | inr e' ↦ rw (e, e') tt
  ]
]

abbrev OrderedAfter : Receipt (List ℕ × TcpSocket) → Type 0
OrderedAfter waits = Unit
OrderedAfter (gets (b, s)) = Ordered s.connect_map
OrderedAfter undefined = Unit

empty_of_length : (b : List ℕ) → length b ≡ 0 → b ≡ []
empty_of_length [] e = refl
empty_of_length (x ∷ b) e = absurd (omega arith)

put_receipt-Ordered :
    (s : TcpSocket) (a : SockAddr) (t : Receipt (List ℕ × ByteStream)) {bytes : List ℕ}
    {s' : TcpSocket}
    → Ordered s.connect_map
    → put_receipt s a t ≡ gets (bytes, s')
    → Ordered s'.connect_map
put_receipt-Ordered s a waits h e = cc
put_receipt-Ordered s a (gets (bs, b)) h e =
    subst OrderedAfter e (modify-Ordered a _ s.connect_map h)
put_receipt-Ordered s a undefined h e = cc

released-IsAwake : (c : Conn) → length c.byte_stream.vt_buf < int_mod → IsAwake (released c)
released-IsAwake c h = elim (Bool-cases (get_size c.byte_stream == 0)) [
  | inl e ↦ λ _. empty_of_length c.byte_stream.vt_buf (ground (arith, get_size_lem c.byte_stream h))
  | inr e ↦ rw e (λ k. cc)
]

recv-Ordered :
    (s : TcpSocket) (a : SockAddr) (n : ℕ) {bytes : List ℕ} {s' : TcpSocket}
    → Ordered s.connect_map
    → recv s a n ≡ gets (bytes, s')
    → Ordered s'.connect_map
unfolding recv
recv-Ordered s a n h e =
    put_receipt-Ordered s a (take_bytes (conn_at a s.connect_map).byte_stream n) h e

unselected :
    (s : TcpSocket) (a : SockAddr)
    → length (conn_at a s.connect_map).byte_stream.vt_buf < int_mod
    → IsValid s
    → IsValid (record s { connect_map = unselect a s.connect_map })
unfolding unselect
unselected s a small v = record {
  ordered = modify-Ordered a released s.connect_map v.ordered;
  awake =
      modify-Everywhere_at IsAwake a released s.connect_map
        (released-IsAwake (conn_at a s.connect_map) small) v.awake;
}

pub Step-IsValid : {s t : TcpSocket} → Step s t → IsValid s → IsValid t
Step-IsValid {s} (arrives from p ok goes e) v = subst IsValid (sym e) (record {
  ordered = on_packet-Ordered s from p ok v.ordered;
  awake = on_packet-IsAwake s from p ok v.awake;
})
Step-IsValid {s} (transmits w e) v =
    subst IsValid (sym e) (record { ordered = v.ordered; awake = v.awake })
Step-IsValid {s} (sends to buf len n e) v = record {
  ordered = subst (Holds (λ r. Ordered r.0.connect_map)) e (send-Ordered s to buf len v.ordered);
  awake =
      subst (Holds (λ r. Everywhere IsAwake r.0.connect_map)) e (send-IsAwake s to buf len v.awake);
}
Step-IsValid {s} (receives from n bytes e) v = record {
  ordered = recv-Ordered s from n v.ordered e;
  awake = recv-IsAwake s from n v.awake e;
}
Step-IsValid {s} (selects a m found e) v = subst IsValid (sym e) (record {
  ordered = poll-Ordered s.connect_map v.ordered found;
  awake = poll-Everywhere IsAwake s.connect_map (λ c k h. cc) v.awake found;
})
Step-IsValid {s} (unselects a small e) v = subst IsValid (sym e) (unselected s a small v)

-- In every state that the threads can reach, in any interleaving of their turns, where a stream
-- that is given back by `UnSelect` holds fewer than 2 ^ 32 bytes, the connections stand in strictly
-- rising order of their addresses, and no connection that has data in its stream is marked as
-- having none.
pub Reach-IsValid : {s : TcpSocket} → Reach s → IsValid s
Reach-IsValid start = record { ordered = tt; awake = tt }
Reach-IsValid (next r st) = Step-IsValid st (Reach-IsValid r)

-- Some connection holds data, and no thread handles it.
abbrev pub Pending : ConnMap → Type 0
Pending m =
    (before : ConnMap) × (a : SockAddr) × (c : Conn) × (after : ConnMap) × (m
      ≡ before ++ (a, c) ∷ after)
    × (c.byte_stream.vt_buf ≢ [])
    × (c.status ≢ in_use)

Everywhere-mid :
    (P : Conn → Type 0) (before : ConnMap) (a : SockAddr) (c : Conn) (after : ConnMap)
    → Everywhere P (before ++ (a, c) ∷ after)
    → P c
Everywhere-mid P [] a c after h = h.0
Everywhere-mid P ((b, d) ∷ before) a c after h = Everywhere-mid P before a c after h.1

unready-no_data : (t : Status) → is_ready t ≡ false → t ≢ in_use → t ≡ no_data
unready-no_data no_data h k = refl
unready-no_data has_data h k = cc
unready-no_data in_use h k = absurd (k refl)

-- No received data are forgotten: in a reachable state in which some connection has data that
-- no thread handles, the next look of `Select` finds a connection.
pub Pending-poll :
    {s : TcpSocket}
    → Reach s
    → Pending s.connect_map
    → (a : SockAddr) × (m : ConnMap) × (poll s.connect_map ≡ some (a, m))
Pending-poll {s} r p = elim (poll-Polled s.connect_map) [
  | inl (u, n) ↦
      let (before, a, c, after, eq, data_left, free) = p in
      let unready = Everywhere-mid IsUnready before a c after (subst (Everywhere IsUnready) eq u) in
      let awake =
        Everywhere-mid IsAwake before a c after
          (subst (Everywhere IsAwake) eq (Reach-IsValid r).awake) in
      absurd (data_left (awake (unready-no_data c.status unready free)))
  | inr (before, a, c, after, eq, u, h, e) ↦
      (a, before ++ (a, record c { status = in_use }) ∷ after, e)
]
