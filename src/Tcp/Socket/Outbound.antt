-- ===== src/Tcp/Socket/Outbound.antt =====
-- What stands on the send list can be sent: each packet fits a datagram, and only a `DataPacket` is
-- cast to one.
use school_system.Base.{
  ℕ, zero, suc, ◌-◌, ◌*◌, ◌/◌, ◌%◌, ◌≤◌, ◌≡◌, refl, subst, inl, inr, ◌≢◌, Bool, true, false, Option,
  none, some, List, [], ◌∷◌, ◌++◌, map, arith, leb, ◌==◌, length, drop, length-take, length-drop,
  All, Bool-cases, Holds, is_negative,
}
use school_system.Tcp.Packet.{
  DataPacket, data_packet, PackageType, establish_1, establish_2, data_package, ack, code_of,
  type_of, data_len, data_image, length-data_image, length-packet_image, size, image_len,
}
use school_system.Tcp.Address.{SockAddr}
use school_system.Tcp.Conn.{Conn, conn_at}
use school_system.Tcp.Receive.{on_data}
use school_system.Tcp.Socket.{
  Outgoing, plain, payload, SendListNode, TcpSocket, Datagram, Answers, Pass, Emission, nothing,
  image, bad_cast, emission, pass_node, resend, undefined, is_due, remove_acked, full_packets,
  last_packet, send, put_conn, handle_by, on_packet, ack_for,
}
use school_system.Tcp.Socket.Resend.{entry, resend_entries}

-- A `Packet` is one of the handshake's, and a `DataPacket` holds data, at most 1024 bytes, all of
-- them copied.
abbrev pub Sendable : Outgoing → Type 0
Sendable (plain p) = p.n_type ≡ code_of establish_2
Sendable (payload p) =
    (p.n_type ≡ code_of data_package) × (p.n_len ≤ data_len) × (p.n_len ≤ length p.bytes)

abbrev pub AllSendable : List SendListNode → Type 0
AllSendable = All (λ n. Sendable n.packet)

All-append {ℓ κ} :
    {A : Type ℓ} (P : A → Type κ) (xs ys : List A) → All P xs → All P ys → All P (xs ++ ys)
All-append P [] ys h k = k
All-append P (x ∷ xs) ys h k = (h.0, All-append P xs ys h.1 k)

-- The bytes handed to `sendto` fit the buffer of the receiver.
abbrev IsFit : Emission → Type 0
IsFit nothing = Unit
IsFit (image b) = length b ≤ image_len
IsFit bad_cast = ⊥

length-data_image-le :
    (p : DataPacket)
    → p.n_len ≤ data_len
    → p.n_len ≤ length p.bytes
    → length (data_image p) ≤ image_len
unfolding size
length-data_image-le p small room = omega (arith, length-data_image p room)

emission-IsFit : (p : Outgoing) → Sendable p → IsFit (emission p)
unfolding emission
emission-IsFit (plain p) h =
    rw h (omega (arith, length-packet_image (record p { n_type = code_of establish_2 })))
emission-IsFit (payload p) h =
    rw h.0 (length-data_image-le (record p { n_type = code_of data_package }) h.1 h.2)

-- The datagram fits the buffer of the receiver, `sizeof(DataPacket)`.
abbrev pub Fits : Datagram → Type 0
Fits d = length d.content ≤ image_len

-- What a turn sends fits, and it casts no `Packet` to a `DataPacket`.
abbrev pub Bounded : Pass → Type 0
Bounded r = All Fits r.sent × (r.ending ≢ undefined)

pass_node-Bounded :
    (now : ℕ) (ok : Bool) (n : SendListNode) (ns : List SendListNode) (e : Emission) (rest : Pass)
    → IsFit e
    → Bounded rest
    → Bounded (pass_node now ok n ns e rest)
pass_node-Bounded now ok n ns nothing rest f h = h
pass_node-Bounded now true n ns (image b) rest f h = ((f, h.0), h.1)
pass_node-Bounded now false n ns (image b) rest f h = (tt, λ e. cc)
pass_node-Bounded now ok n ns bad_cast rest f h = absurd f

pub resend-Bounded :
    (w : Answers) (i : ℕ) (ns : List SendListNode) → AllSendable ns → Bounded (resend w i ns)
unfolding resend
resend-Bounded w i [] h = (tt, λ e. cc)
resend-Bounded w i (n ∷ ns) h =
    let rest = resend-Bounded w (suc i) ns h.1 in
    elim (Bool-cases (is_due (w.clock_test i) n)) [
      | inl e ↦ rw e (
          pass_node-Bounded (w.clock_set i) (w.sendto_ok i) n ns (emission n.packet)
            (resend w (suc i) ns) (emission-IsFit n.packet h.0) rest)
      | inr e ↦ rw e rest
    ]

same_packets :
    (ns ms : List SendListNode) → map entry ns ≡ map entry ms → AllSendable ms → AllSendable ns
same_packets [] ms e h = tt
same_packets (n ∷ ns) [] e h = cc
same_packets (n ∷ ns) (m ∷ ms) e h =
    let p : m.packet ≡ n.packet = cc in
    let q : map entry ns ≡ map entry ms = cc in (subst Sendable p h.0, same_packets ns ms q h.1)

pub resend-Sendable :
    (w : Answers) (i : ℕ) (ns : List SendListNode)
    → AllSendable ns
    → AllSendable (resend w i ns).nodes
resend-Sendable w i ns h = same_packets (resend w i ns).nodes ns (resend_entries w i ns) h

remove_acked-Sendable :
    (q : ℕ) (ns : List SendListNode) → AllSendable ns → AllSendable (remove_acked q ns)
unfolding remove_acked
remove_acked-Sendable q [] h = tt
remove_acked-Sendable q (n ∷ ns) h = ground (arith, remove_acked-Sendable q ns h.1)

put_conn-Sendable :
    (s : TcpSocket) (a : SockAddr) (c : Option Conn) (sent : List Datagram)
    → AllSendable s.send_list
    → AllSendable (put_conn s a c sent).socket.send_list
put_conn-Sendable s a none sent h = h
put_conn-Sendable s a (some c) sent h = h

handle_by-Sendable :
    (t : Option PackageType) (s : TcpSocket) (a : SockAddr) (p : DataPacket) (ok : Bool)
    → AllSendable s.send_list
    → AllSendable (handle_by t s a p ok).socket.send_list
handle_by-Sendable none s a p ok h = h
handle_by-Sendable (some establish_1) s a p ok h =
    All-append (λ n. Sendable n.packet) s.send_list _ h (refl, tt)
handle_by-Sendable (some establish_2) s a p true h = h
handle_by-Sendable (some establish_2) s a p false h = h
handle_by-Sendable (some data_package) s a p true h =
    put_conn-Sendable s a (on_data p (conn_at a s.connect_map)) (ack_for a p.n_seq ∷ []) h
handle_by-Sendable (some data_package) s a p false h = h
handle_by-Sendable (some ack) s a p ok h = remove_acked-Sendable p.n_seq s.send_list h

pub on_packet-Sendable :
    (s : TcpSocket) (a : SockAddr) (p : DataPacket) (ok : Bool)
    → AllSendable s.send_list
    → AllSendable (on_packet s a p ok).socket.send_list
unfolding on_packet
on_packet-Sendable s a p ok h = handle_by-Sendable (type_of p.n_type) s a p ok h

-- A packet of `k` bytes of the buffer.
queue_packet :
    (addr : SockAddr) (seq k : ℕ) (b : List ℕ) (ns : List SendListNode)
    → k ≤ data_len
    → k ≤ length b
    → AllSendable ns
    → AllSendable (
        ns
        ++ record {
          time = 0;
          addr = addr;
          packet = payload (data_packet (code_of data_package) seq k b);
        }
          ∷ [])
unfolding data_packet
queue_packet addr seq k b ns small room h =
    All-append (λ n. Sendable n.packet) ns _ h ((refl, small, omega (arith, length-take k b)), tt)

full_packets-Sendable :
    (cnt : ℕ) (addr : SockAddr) (seq : ℕ) (b : List ℕ) (ns : List SendListNode)
    → data_len * cnt ≤ length b
    → AllSendable ns
    → let r = full_packets cnt addr seq b ns in
      AllSendable r.2 × (length r.1 ≡ length b - data_len * cnt)
unfolding full_packets
full_packets-Sendable zero addr seq b ns room h = (h, omega arith)
full_packets-Sendable (suc cnt) addr seq b ns room h =
    let (a, e) =
      full_packets-Sendable cnt addr _ (drop data_len b) _ (omega (arith, length-drop data_len b))
        (queue_packet addr seq data_len b ns (omega arith) (omega arith) h) in
    (a, omega (arith, e, length-drop data_len b))

last_packet-Sendable :
    (rest : ℕ) (addr : SockAddr) (r : ℕ × List ℕ × List SendListNode)
    → rest ≤ data_len
    → rest ≤ length r.1
    → AllSendable r.2
    → AllSendable (last_packet rest addr r).1
unfolding last_packet
last_packet-Sendable rest addr (seq, b, ns) small room h = elim (Bool-cases (rest == 0)) [
  | inl e ↦ rw e h
  | inr e ↦ rw e (queue_packet addr seq rest b ns small room h)
]

pub send-Sendable :
    (s : TcpSocket) (a : SockAddr) (buf : List ℕ) (len : ℕ)
    → AllSendable s.send_list
    → Holds (λ r. AllSendable r.0.send_list) (send s a buf len)
unfolding send
send-Sendable s a buf len h = elim (Bool-cases (is_negative len)) [
  | inl e ↦ elim (Bool-cases (len % data_len == 0)) [
    | inl e' ↦ rw (e, e') h
    | inr e' ↦ rw (e, e') tt
  ]
  | inr e ↦ elim (Bool-cases (leb len (length buf))) [
    | inl e' ↦
        let room : len ≤ length buf = ground arith in
        let (ok, l) =
          full_packets-Sendable (len / data_len) a (conn_at a s.connect_map).next_send_seq buf
            s.send_list (omega arith) h in
        rw (e, e') (last_packet-Sendable (len % data_len) a _ (omega arith) (omega (arith, l)) ok)
    | inr e' ↦ rw (e, e') tt
  ]
]
