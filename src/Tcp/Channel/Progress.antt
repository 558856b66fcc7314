-- ===== src/Tcp/Channel/Progress.antt =====
-- From every state of a channel the two sides can bring everything to the receiver's stream, if it
-- holds nothing back: the send thread sends again what is on the send list, and the packets come.
use school_system.Base.{
  ℕ, zero, suc, ◌+◌, ◌-◌, ◌≤◌, ◌<◌, ◌≡◌, refl, sym, ap, subst, ◌∙◌, inl, inr, Bool, true, false,
  ◌||◌, List, [], ◌∷◌, ◌++◌, map, arith, ◌==◌, Bool-cases, ==_iff,
}
use school_system.Tcp.Address.{SockAddr}
use school_system.Tcp.Packet.{DataPacket, code_of, type_of, data_package, data_image, received}
use school_system.Tcp.Conn.{conn_at}
use school_system.Tcp.Receive.Index.{Arrived, absorb, advance, known, member}
use school_system.Tcp.Receive.Refine.{Represents, joined, on_data_lem}
use school_system.Tcp.Socket.{
  SendListNode, payload, seq_of, Datagram, Answers, resend, is_due, emission, emission_by, image,
  pass_node, on_packet,
}
use school_system.Tcp.Socket.Batches.{Batch, data_turn}
use school_system.Tcp.Socket.Reception.{stream_at}
use school_system.Tcp.Channel.{Channel, Step, transmits, arrives, Reach}
use school_system.Tcp.Channel.Lists.{lists, AllPackets}
use school_system.Tcp.Channel.Flow.{All-map}
use school_system.Tcp.Channel.Kept.{after_data}
use school_system.Tcp.Channel.Reached.{Reach-Flow}

-- A turn of the sender's send thread, or of the receiver's receive thread with one of its datagrams: no
-- call of `Send` or `Recv`, and nothing of another connection or of the other direction.
abbrev pub IsTransport : {there here : SockAddr} {x y : Channel} → Step there here x y → Type 0
IsTransport (transmits w e) = Unit {0}
IsTransport (arrives before d after p ok at i ends e) = Unit {0}
IsTransport _ = ⊥

-- Some of these turns, one after the other.
pub data Runs (there here : SockAddr) : Channel → Channel → Type 0 where
  still : {x : Channel} → Runs there here x x
  goes :
      {x y z : Channel} (m : Step there here x y)
      → IsTransport m
      → Runs there here y z
      → Runs there here x z

-- Some datagram has these bytes.
abbrev Present : List ℕ → List Datagram → Type 0
Present b ds =
    (before : List Datagram) × (d : Datagram) × (after : List Datagram) × (ds ≡ before ++ d ∷ after)
    × (d.content ≡ b)

Present-cons : {b : List ℕ} {ds : List Datagram} (d : Datagram) → Present b ds → Present b (d ∷ ds)
Present-cons d (before, e, after, f, g) = (d ∷ before, e, after, ap (◌∷◌ d) f, g)

Present-append :
    {b : List ℕ} (ds : List Datagram) {es : List Datagram} → Present b es → Present b (ds ++ es)
Present-append [] h = h
Present-append (d ∷ ds) h = Present-cons d (Present-append ds h)

-- A moment by which every packet is due again, and no call fails.
abbrev times : List SendListNode → ℕ
times [] = 1000
times (n ∷ ns) = n.time + times ns

abbrev late : ℕ → Answers
late t = record { clock_test = λ _. t; clock_set = λ _. t; sendto_ok = λ _. true }

due_late : (t : ℕ) (n : SendListNode) → n.time + 1000 ≤ t → is_due t n ≡ true
unfolding is_due
due_late t n h = ground arith

times_bound : (ns : List SendListNode) → 1000 ≤ times ns
times_bound [] = omega arith
times_bound (n ∷ ns) = omega (arith, times_bound ns)

resend-Present :
    (q : ℕ) (b : List ℕ) (t i : ℕ) (ns : List SendListNode)
    → times ns ≤ t
    → AllPackets (λ p. (p.n_type ≡ code_of data_package) × (p.n_seq ≡ q → data_image p ≡ b)) ns
    → lists q ns ≡ true
    → Present b (resend (late t) i ns).sent
unfolding resend emission
resend-Present q b t i [] h a l = cc
resend-Present q b t i (n ∷ ns) h a l =
    let (p, e, tq) = a.0 in
    let due : is_due t n ≡ true = due_late t n (omega (arith, times_bound ns)) in
    let here : emission n.packet ≡ image (data_image p) =
      ap emission e ∙ ap (λ k. emission_by (type_of k) (payload p)) tq.0 in
    let d : Datagram = record { to = n.addr; content = data_image p } in
    let sent : (resend (late t) i (n ∷ ns)).sent ≡ d ∷ (resend (late t) (suc i) ns).sent =
      rw due (ap (λ m. (pass_node t true n ns m (resend (late t) (suc i) ns)).sent) here) in
    subst (Present b) (sym sent) (elim (Bool-cases (seq_of n.packet == q)) [
      | inl hit ↦
          let same : p.n_seq ≡ q = ap seq_of (sym e) ∙ (==_iff (seq_of n.packet) q).0 hit in
          ([], d, (resend (late t) (suc i) ns).sent, refl, tq.1 same)
      | inr miss ↦ Present-cons d (resend-Present q b t (suc i) ns (omega arith) a.1 (rw miss at l))
    ])

absorb_next :
    (k : ℕ)
    → absorb k (record { expected = k; ahead = [] }) ≡ record { expected = suc k; ahead = [] }
unfolding absorb advance
absorb_next k = ground arith

map-nil : {A B : Type 0} (f : A → B) (xs : List A) → map f xs ≡ [] → xs ≡ []
map-nil f [] e = refl
map-nil f (x ∷ xs) e = cc

same_number : (base i j : ℕ) → base + j ≡ base + i → j ≡ i
same_number base i j e = omega arith

-- A packet behind those that were delivered, if none is held back, stands on the send list.
listed_if_missing :
    (b : Bool) (i : ℕ) (s : Arrived)
    → s.ahead ≡ []
    → s.expected ≤ i
    → (b || known i s) ≡ true
    → b ≡ true
listed_if_missing true i s a h k = refl
listed_if_missing false i s a h k =
    let e : member i s.ahead ≡ false = rw a refl in ground (arith, e)

module _ (there here : SockAddr) {base n : ℕ} {bytes : List ℕ} {packet : ℕ → DataPacket}
    (batch : Batch base n bytes packet) where
  -- The packets that are missing come, one after the other.
  missing_come :
      (m k : ℕ) (x : Channel)
      → k + m ≡ n
      → ((i : ℕ) → k ≤ i → i < n → Present (data_image (packet i)) x.datagrams)
      → Represents base n batch.piece batch.seen x.taken []
          (record { expected = k; ahead = [] })
          (conn_at here x.receiver.connect_map)
      → (y : Channel) × Runs there here x y
        × (y.sent ≡ x.sent)
        × (y.taken ≡ x.taken)
        × (x.taken ++ stream_at here y.receiver ≡ joined batch.piece n)
  missing_come zero k x e there_are r =
      (x, still, refl, refl, r.stream ∙ ap (joined batch.piece) {x = k} {y = n} (omega arith))
  missing_come (suc m) k x e there_are r =
      let q = batch.seen k in
      let typed = batch.typed k (omega arith) in
      let (before, d, after, at, content) = there_are k (omega arith) (omega arith) in
      let (c', f, now) =
        on_data_lem batch.stream x.taken [] k (record { expected = k; ahead = [] })
          (conn_at here x.receiver.connect_map) (omega arith) r in
      let turn = data_turn x.receiver here q c' typed f in
      let (conn, answers) = after_data here x.receiver q c' turn in
      let x' : Channel = record x {
        receiver = (on_packet x.receiver here q true).socket;
        acks = x.acks ++ (on_packet x.receiver here q true).sent;
      } in
      let r' : Represents base n batch.piece batch.seen x.taken []
          (record { expected = suc k; ahead = [] }) (conn_at here x'.receiver.connect_map) =
        subst
          (λ s.
            Represents base n batch.piece batch.seen x.taken [] s
              (conn_at here x'.receiver.connect_map))
          (absorb_next k)
          (subst
            (λ c.
              Represents base n batch.piece batch.seen x.taken []
                (absorb k (record { expected = k; ahead = [] })) c)
            (sym conn) now) in
      let (y, runs, sent, taken, stream) =
        missing_come m (suc k) x' (omega arith) (λ i h. there_are i (omega arith)) r' in
      (
        y,
        goes
            (arrives before d after q true at (ap received content ∙ batch.arrives k (omega arith))
              (ap (λ h. h.ending) turn) refl)
            tt runs,
        sent,
        taken,
        stream,
      )

pub delivered :
    {there here : SockAddr} {base : ℕ} {x : Channel}
    → Reach there here base x
    → (conn_at here x.receiver.connect_map).recv_list ≡ []
    → (y : Channel) × Runs there here x y
      × (y.sent ≡ x.sent)
      × (y.taken ≡ x.taken)
      × (x.sent ≡ x.taken ++ stream_at here y.receiver)
delivered {there} {here} {base} {x} r none_back =
    let v = Reach-Flow r in
    let batch = v.made.batch in
    let k = v.arrived.expected in
    let ns = x.sender.send_list in
    let nothing_ahead : v.arrived.ahead ≡ [] =
      map-nil batch.seen v.arrived.ahead (sym v.reassembly.list ∙ none_back) in
    let arrived_is : v.arrived ≡ record { expected = k; ahead = [] } =
      λ i. record { expected = k; ahead = nothing_ahead i } in
    let now =
      subst
        (λ s.
          Represents base v.n batch.piece batch.seen x.taken [] s
            (conn_at here x.receiver.connect_map))
        arrived_is v.reassembly in
    let x' : Channel = record x {
      sender = record x.sender { send_list = (resend (late (times ns)) 0 ns).nodes };
      datagrams = x.datagrams ++ (resend (late (times ns)) 0 ns).sent;
    } in
    let (y, runs, sent, taken, stream) =
      missing_come there here batch (v.n - k) k x' (omega (arith, v.reassembly.below))
        (λ i low high. Present-append x.datagrams (
          resend-Present (base + i) (data_image (v.packet i)) (times ns) 0 ns (omega arith)
            (All-map
              (λ node (p, e, (j, h, f)). (
                p,
                e,
                (
                  ap (λ p. p.n_type) f ∙ v.made.typed j h,
                  λ g. ap data_image (
                      f
                      ∙ ap v.packet (
                          same_number base i j
                            (sym (v.made.numbered j h) ∙ ap (λ p. p.n_seq) (sym f) ∙ g))),
                ),
              ))
              ns v.listed)
            (listed_if_missing (lists (base + i) ns) i v.arrived nothing_ahead low
              (v.kept i high))))
        now in
    (y, goes (transmits (late (times ns)) refl) tt runs, sent, taken, sym batch.whole ∙ sym stream)
