-- ===== src/Tcp/Channel/Kept.antt =====
-- What the two sides of a channel and the network have in common is kept by a turn of a thread that
-- receives.
use school_system.Base.{
  ℕ, ◌+◌, ◌<◌, ◌≡◌, sym, ap, subst, ◌∙◌, inl, inr, Bool, true, false, some, [], ◌∷◌, ◌++◌, arith,
  ◌==◌, All-append, Bool-cases, of_some, ==_iff, ◌≢◌,
}
use school_system.Tcp.Address.{SockAddr}
use school_system.Tcp.Packet.{
  DataPacket, code_of, type_of, data_package, ack, packet_image, received, received-packet_image,
}
use school_system.Tcp.Conn.{Conn, conn_at}
use school_system.Tcp.Conn.Laws.{conn_at-modify_self}
use school_system.Tcp.Receive.Index.{absorb, known-absorb}
use school_system.Tcp.Receive.Refine.{Represents, on_data_lem}
use school_system.Tcp.Socket.{
  TcpSocket, Datagram, goes_on, on_packet, handle_by, put_conn, ack_for, remove_acked,
}
use school_system.Tcp.Socket.Batches.{data_turn}
use school_system.Tcp.Channel.{Channel}
use school_system.Tcp.Channel.Lists.{
  lists-remove_acked, AllPackets, remove_acked-AllPackets, AllContents,
}
use school_system.Tcp.Channel.Flow.{IsOneOf, HoldsOneOf, Acknowledges, Flow, All-map}

pub after_data :
    (here : SockAddr) (r : TcpSocket) (q : DataPacket) (c' : Conn)
    → on_packet r here q true ≡ put_conn r here (some c') (ack_for here q.n_seq ∷ [])
    → (conn_at here (on_packet r here q true).socket.connect_map ≡ c')
      × ((on_packet r here q true).sent ≡ ack_for here q.n_seq ∷ [])
after_data here r q c' e = (
  ap (λ h. conn_at here h.socket.connect_map) e ∙ conn_at-modify_self here (λ _. c') r.connect_map,
  ap (λ h. h.sent) e,
)

refuses :
    (here : SockAddr) (r : TcpSocket) (q : DataPacket)
    → q.n_type ≡ code_of data_package
    → (on_packet r here q false).ending ≢ goes_on
unfolding on_packet
refuses here r q typed e =
    let f : (handle_by (type_of (code_of data_package)) r here q false).ending ≡ goes_on =
      subst (λ t. (handle_by (type_of t) r here q false).ending ≡ goes_on) typed e in
    cc

after_ack :
    (there : SockAddr) (s : TcpSocket) (p : DataPacket) (ok : Bool)
    → p.n_type ≡ code_of ack
    → ((on_packet s there p ok).socket.send_list ≡ remove_acked p.n_seq s.send_list)
      × (conn_at there (on_packet s there p ok).socket.connect_map ≡ conn_at there s.connect_map)
unfolding on_packet
after_ack there s p ok typed =
    let e = ap (λ t. (handle_by (type_of t) s there p ok).socket) typed in
    (
      ap (λ k. k.send_list) e,
      ap (λ k. conn_at there k.connect_map) e ∙ conn_at-modify_self there (λ c. c) s.connect_map,
    )

module _ {there here : SockAddr} {base : ℕ} where
  -- Packet `i` reaches the receiver.
  packet-Flow :
      {x : Channel} (v : Flow there here base x) (i : ℕ) (ok : Bool)
      → i < v.n
      → (on_packet x.receiver here (v.made.batch.seen i) ok).ending ≡ goes_on
      → Flow there here base (record x {
        receiver = (on_packet x.receiver here (v.made.batch.seen i) ok).socket;
        acks = x.acks ++ (on_packet x.receiver here (v.made.batch.seen i) ok).sent;
      })
  packet-Flow {x} v i false h ends =
      absurd (refuses here x.receiver (v.made.batch.seen i) (v.made.batch.typed i h) ends)
  packet-Flow {x} v i true h ends =
      let q = v.made.batch.seen i in
      let (c', e, now) =
        on_data_lem v.made.batch.stream x.taken [] i v.arrived (conn_at here x.receiver.connect_map)
          h v.reassembly in
      let (at, replies) =
        after_data here x.receiver q c'
          (data_turn x.receiver here q c' (v.made.batch.typed i h) e) in
      let seq : q.n_seq ≡ base + i = (v.made.batch.stream.carries i h).numbered in
      record {
        n = v.n;
        packet = v.packet;
        made = v.made;
        number = v.number;
        listed = v.listed;
        flying = v.flying;
        arrived = absorb i v.arrived;
        reassembly =
            subst
              (λ c.
                Represents base v.n v.made.batch.piece v.made.batch.seen x.taken []
                  (absorb i v.arrived) c)
              (sym at) now;
        acked =
            All-append _ x.acks (on_packet x.receiver here q true).sent
              (All-map (λ d (j, k, a, f). (j, k, ground (arith, known-absorb j i v.arrived), f))
                x.acks v.acked)
              (subst (AllContents (Acknowledges base v.n (absorb i v.arrived))) (sym replies) (
                (
                  i,
                  h,
                  ground (arith, known-absorb i i v.arrived),
                  ap (λ t. packet_image (record { n_type = code_of ack; n_seq = t })) seq,
                ),
                tt,
              ));
        kept = λ j k. ground (arith, known-absorb j i v.arrived, v.kept j k);
      }

  pub arrives-Flow :
      {x : Channel} (v : Flow there here base x) (d : Datagram) (p : DataPacket) (ok : Bool)
      → HoldsOneOf v.n v.packet d.content
      → received d.content ≡ some p
      → (on_packet x.receiver here p ok).ending ≡ goes_on
      → Flow there here base (record x {
        receiver = (on_packet x.receiver here p ok).socket;
        acks = x.acks ++ (on_packet x.receiver here p ok).sent;
      })
  arrives-Flow {x} v d p ok (i, h, f) e ends =
      let same : v.made.batch.seen i ≡ p =
        of_some (sym (v.made.batch.arrives i h) ∙ ap received (sym f) ∙ e) in
      subst
        (λ p.
          (on_packet x.receiver here p ok).ending ≡ goes_on
          → Flow there here base (record x {
            receiver = (on_packet x.receiver here p ok).socket;
            acks = x.acks ++ (on_packet x.receiver here p ok).sent;
          }))
        same (packet-Flow v i ok h) ends

  -- The acknowledgement of a packet that has arrived reaches the sender.
  pub acknowledged-Flow :
      {x : Channel} (v : Flow there here base x) (d : Datagram) (p : DataPacket) (ok : Bool)
      → Acknowledges base v.n v.arrived d.content
      → received d.content ≡ some p
      → Flow there here base (record x { sender = (on_packet x.sender there p ok).socket })
  acknowledged-Flow {x} v d p ok (i, h, k, f) e =
      let room = v.made.batch.stream.bound in
      let image : received d.content ≡ some _ =
        ap received f
        ∙ received-packet_image (record { n_type = code_of ack; n_seq = base + i }) (omega arith)
            (omega arith) in
      let same = of_some (sym image ∙ e) in
      let seq : p.n_seq ≡ base + i = sym (ap (λ p. p.n_seq) same) in
      let (list, conn) = after_ack there x.sender p ok (sym (ap (λ p. p.n_type) same)) in
      record {
        n = v.n;
        packet = v.packet;
        made = v.made;
        number = ap (λ c. c.next_send_seq) conn ∙ v.number;
        listed =
            subst (AllPackets (IsOneOf v.n v.packet)) (sym list)
              (remove_acked-AllPackets (IsOneOf v.n v.packet) p.n_seq x.sender.send_list v.listed);
        flying = v.flying;
        arrived = v.arrived;
        reassembly = v.reassembly;
        acked = v.acked;
        kept = λ j l. elim (Bool-cases (j == i)) [
          | inl hit ↦ let j_is : j ≡ i = (==_iff j i).0 hit in rw (j_is, k) (ground arith)
          | inr miss ↦
              let other : ((base + j) == p.n_seq) ≡ false = ground arith in
              rw (list, lists-remove_acked (base + j) p.n_seq x.sender.send_list other) (v.kept j l)
        ];
      }
