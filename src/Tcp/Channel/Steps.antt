-- ===== src/Tcp/Channel/Steps.antt =====
-- What the two sides of a channel and the network have in common is kept by `Send`, by `Recv` and by
-- the thread that sends.
use school_system.Base.{
  ℕ, ◌+◌, ◌≤◌, ◌<◌, ◌≡◌, sym, ap, subst, ◌∙◌, inl, inr, true, List, [], ◌++◌, append_assoc, arith,
  ltb, ◌-◌, All-append, Bool-cases, length, int_limit,
}
use school_system.Tcp.Address.{SockAddr}
use school_system.Tcp.Packet.{data_image}
use school_system.Tcp.Conn.{conn_at}
use school_system.Tcp.Receive.Refine.{Represents}
use school_system.Tcp.Socket.{TcpSocket, gets, Answers, resend, recv}
use school_system.Tcp.Socket.Fragments.{fragment, fragment_count, nodes_of}
use school_system.Tcp.Socket.Splices.{spliced, spliced-low, spliced-high}
use school_system.Tcp.Socket.Reception.{stream_at, recv-gets}
use school_system.Tcp.Channel.{Channel}
use school_system.Tcp.Channel.Lists.{
  lists, lists-append, lists-resend, lists-nodes_of, AllPackets, resend-AllPackets,
  nodes_of-AllPackets, resend-AllContents,
}
use school_system.Tcp.Channel.Growth.{Represents-spliced}
use school_system.Tcp.Channel.Flow.{
  IsOneOf, HoldsOneOf, Flow, All-map, send-Packets, append-Packets,
}
use school_system.Tcp.Channel.Elsewhere.{SameAt}

module _ {there here : SockAddr} {base : ℕ} where
  -- `Send`
  pub sends-Flow :
      {x : Channel} (v : Flow there here base x) (buf : List ℕ) (s : TcpSocket)
      → base + v.n + fragment_count (length buf) < int_limit
      → (conn_at there s.connect_map).next_send_seq ≡ base + v.n + fragment_count (length buf)
      → s.send_list
        ≡ x.sender.send_list
          ++ nodes_of there (base + v.n) buf (length buf) 0 (fragment_count (length buf))
      → Flow there here base (record x { sender = s; sent = x.sent ++ buf })
  sends-Flow {x} v buf s room at list =
      let m = fragment_count (length buf) in
      let more = send-Packets (base + v.n) buf room in
      let pk = fragment (base + v.n) buf (length buf) in
      let (both, pieces, packets) = append-Packets v.made more in
      let low : (i : ℕ) → i < v.n → v.packet i ≡ spliced v.n v.packet pk i =
        λ i h. sym (spliced-low v.n v.packet pk i h) in
      let fresh = nodes_of there (base + v.n) buf (length buf) 0 m in
      record {
        n = v.n + m;
        packet = spliced v.n v.packet pk;
        made = both;
        number = at ∙ omega arith;
        listed = subst (AllPackets (IsOneOf (v.n + m) (spliced v.n v.packet pk))) (sym list) (
            All-append _ x.sender.send_list fresh
              (All-map (λ node (p, e, (i, h, f)). (p, e, (i, omega arith, f ∙ low i h)))
                x.sender.send_list v.listed)
              (nodes_of-AllPackets (IsOneOf (v.n + m) (spliced v.n v.packet pk)) there (base + v.n)
                buf (length buf) 0 m
                (λ j k. (v.n + j, omega arith, sym (spliced-high v.n v.packet pk j)))));
        flying =
            All-map (λ d (i, h, f). (i, omega arith, f ∙ ap data_image (low i h))) x.datagrams
              v.flying;
        arrived = v.arrived;
        reassembly =
            subst
              (λ f.
                Represents base (v.n + m) f both.batch.seen x.taken [] v.arrived
                  (conn_at here x.receiver.connect_map))
              (sym pieces)
              (subst
                (λ f.
                  Represents base (v.n + m) (spliced v.n v.made.batch.piece more.batch.piece) f
                    x.taken [] v.arrived (conn_at here x.receiver.connect_map))
                (sym packets) (Represents-spliced m more.batch.piece more.batch.seen v.reassembly));
        acked = All-map (λ d (i, h, k, f). (i, omega arith, k, f)) x.acks v.acked;
        kept = λ i h. elim (Bool-cases (ltb i v.n)) [
          | inl e ↦
              let both = lists-append (base + i) x.sender.send_list fresh in
              rw (list, both) (ground (arith, v.kept i))
          | inr e ↦
              let both = lists-append (base + i) x.sender.send_list fresh in
              let past : v.n ≤ i = ground arith in
              let same : base + v.n + (i - v.n) ≡ base + i = omega arith in
              let here : lists (base + i) fresh ≡ true =
                subst (λ q. lists q fresh ≡ true) same
                  (lists-nodes_of there (base + v.n) buf (length buf) 0 m (i - v.n) (omega arith)
                    (omega arith)) in
              rw (list, both) (ground (arith, here))
        ];
      }

  -- A turn of the send thread.
  pub transmits-Flow :
      {x : Channel} (v : Flow there here base x) (w : Answers)
      → Flow there here base (record x {
        sender = record x.sender { send_list = (resend w 0 x.sender.send_list).nodes };
        datagrams = x.datagrams ++ (resend w 0 x.sender.send_list).sent;
      })
  transmits-Flow {x} v w =
      let ns = x.sender.send_list in
      record {
        n = v.n;
        packet = v.packet;
        made = v.made;
        number = v.number;
        listed = resend-AllPackets (IsOneOf v.n v.packet) w ns v.listed;
        flying = All-append _ x.datagrams (resend w 0 ns).sent v.flying (
            resend-AllContents (HoldsOneOf v.n v.packet) w 0 ns (
              All-map
                (λ node (p, e, (i, h, f)).
                  (p, e, (ap (λ q. q.n_type) f ∙ v.made.typed i h, (i, h, ap data_image f))))
                ns v.listed));
        arrived = v.arrived;
        reassembly = v.reassembly;
        acked = v.acked;
        kept = λ i h. rw (lists-resend (base + i) w ns) (v.kept i h);
      }

  -- `Recv`
  pub takes-Flow :
      {x : Channel} (v : Flow there here base x) (n : ℕ) (bytes : List ℕ) (r : TcpSocket)
      → recv x.receiver here n ≡ gets (bytes, r)
      → Flow there here base (record x { receiver = r; taken = x.taken ++ bytes })
  takes-Flow {x} v n bytes r e =
      let (stream, number, list) = recv-gets x.receiver here n e in
      let was = v.reassembly in
      record {
        n = v.n;
        packet = v.packet;
        made = v.made;
        number = v.number;
        listed = v.listed;
        flying = v.flying;
        arrived = v.arrived;
        reassembly = record {
          below = was.below;
          ahead_below = was.ahead_below;
          next = number ∙ was.next;
          list = list ∙ was.list;
          stream =
              append_assoc x.taken bytes (stream_at here r)
              ∙ ap (λ b. x.taken ++ b) (sym stream)
              ∙ was.stream;
        };
        acked = v.acked;
        kept = v.kept;
      }

  -- The sender does something that leaves its send list and its number alone.
  pub sender-Flow :
      {x : Channel} (v : Flow there here base x) (s : TcpSocket)
      → ((conn_at there x.sender.connect_map).next_send_seq ≡ base + v.n
          → (conn_at there s.connect_map).next_send_seq ≡ base + v.n)
      → s.send_list ≡ x.sender.send_list
      → Flow there here base (record x { sender = s })
  sender-Flow v s number list = record {
    n = v.n;
    packet = v.packet;
    made = v.made;
    number = number v.number;
    listed = subst (AllPackets (IsOneOf v.n v.packet)) (sym list) v.listed;
    flying = v.flying;
    arrived = v.arrived;
    reassembly = v.reassembly;
    acked = v.acked;
    kept = λ i h. rw list (v.kept i h);
  }

  -- The receiver does something that leaves the reassembly of this connection alone.
  pub receiver-Flow :
      {x : Channel} (v : Flow there here base x) (r : TcpSocket)
      → SameAt here x.receiver r
      → Flow there here base (record x { receiver = r })
  receiver-Flow {x} v r (number, list, stream) =
      let was = v.reassembly in
      record {
        n = v.n;
        packet = v.packet;
        made = v.made;
        number = v.number;
        listed = v.listed;
        flying = v.flying;
        arrived = v.arrived;
        reassembly = record {
          below = was.below;
          ahead_below = was.ahead_below;
          next = number ∙ was.next;
          list = list ∙ was.list;
          stream = ap (λ b. x.taken ++ b.vt_buf) stream ∙ was.stream;
        };
        acked = v.acked;
        kept = v.kept;
      }
