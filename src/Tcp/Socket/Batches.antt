-- ===== src/Tcp/Socket/Batches.antt =====
-- Several calls of `Send`, one after the other: their packets are one stream to the other side.
use school_system.Base.{
  ℕ, ◌+◌, ◌-◌, ◌*◌, ◌≤◌, ◌<◌, min, ◌≡◌, refl, ap, ap₂, ◌∙◌, true, Option, some, none, List, [], ◌∷◌,
  ◌++◌, map, arith, ltb, ◌>>=◌, All, length, take_all, take, subst, int_limit, inl, inr, Bool-cases,
}
use school_system.Tcp.Packet.{
  code_of, type_of, data_package, data_packet, DataPacket, data_len, data_image, received,
}
use school_system.Tcp.Conn.{Conn}
use school_system.Tcp.Receive.{on_data, on_data_all}
use school_system.Tcp.Receive.Index.{member, Distinct}
use school_system.Tcp.Receive.Refine.{Carries, Stream, joined}
use school_system.Tcp.Receive.Delivery.{IsFresh, stream_complete}
use school_system.Tcp.Address.{SockAddr}
use school_system.Tcp.Socket.Reception.{stream_at}
use school_system.Tcp.Conn.{conn_at, modify}
use school_system.Tcp.Conn.Laws.{conn_at-modify_self}
use school_system.Base.{of_some, Option-cases}
use school_system.Tcp.Socket.{
  TcpSocket, Handled, Ending, goes_on, returns, on_packet, put_conn, ack_for, handle_by,
}
use school_system.Tcp.Socket.Splices.{spliced, joined-spliced}
use school_system.Tcp.Socket.Fragments.{fragment, fragment_count}
use school_system.Tcp.Socket.Transfer.{
  piece_of, arrived, joined-piece_of, arrived-Stream, received-fragment,
}

-- `n` packets, from the number `base` on, that bring some bytes, and their datagrams.
pub record Batch (base n : ℕ) (bytes : List ℕ) (packet : ℕ → DataPacket) : Type 0 where
  pub seen : ℕ → DataPacket
  pub piece : ℕ → List ℕ
  pub stream : Stream base n piece seen
  pub arrives : (i : ℕ) → i < n → received (data_image (packet i)) ≡ some (seen i)
  pub whole : joined piece n ≡ bytes
  pub typed : (i : ℕ) → i < n → (seen i).n_type ≡ code_of data_package

-- One call of `Send`, of the first bytes of a buffer.
pub part-Batch :
    (seq : ℕ) (buf : List ℕ) (len : ℕ)
    → len ≤ length buf
    → seq + fragment_count len < int_limit
    → Batch seq (fragment_count len) (take len buf) (fragment seq buf len)
unfolding fragment data_packet
part-Batch seq buf len fits room = record {
  seen = arrived seq buf len;
  piece = piece_of buf len;
  stream = arrived-Stream seq buf len fits room;
  arrives = λ i h. received-fragment seq buf len i fits room h;
  whole =
      joined-piece_of buf len (fragment_count len)
      ∙ ap (λ t. take t buf) {x = min len (data_len * fragment_count len)} {y = len} (omega arith);
  typed = λ i h. refl;
}

-- And of all of them.
pub send-Batch :
    (seq : ℕ) (buf : List ℕ)
    → seq + fragment_count (length buf) < int_limit
    → Batch seq (fragment_count (length buf)) buf (fragment seq buf (length buf))
send-Batch seq buf room =
    subst (λ b. Batch seq (fragment_count (length buf)) b (fragment seq buf (length buf)))
      (take_all (length buf) buf (omega arith)) (part-Batch seq buf (length buf) (omega arith) room)

module _ {base n m : ℕ} {b b' : List ℕ} {pk pk' : ℕ → DataPacket} (first : Batch base n b pk)
    (second : Batch (base + n) m b' pk') where
  spliced-Carries :
      (i : ℕ)
      → i < n + m
      → Carries base i (spliced n first.piece second.piece i) (spliced n first.seen second.seen i)
  spliced-Carries i h = elim (Bool-cases (ltb i n)) [
    | inl e ↦ rw e (first.stream.carries i (ground arith))
    | inr e ↦
        let c = second.stream.carries (i - n) (ground arith) in
        let past : n ≤ i = ground arith in
        rw e (record {
          numbered = omega (arith, c.numbered);
          small = c.small;
          room = c.room;
          holds = c.holds;
        })
  ]

  -- What two batches bring, the second behind the first.
  pub appended :
      (b : Batch base (n + m) (b ++ b') (spliced n pk pk')) × (b.piece
        ≡ spliced n first.piece second.piece)
      × (b.seen ≡ spliced n first.seen second.seen)
  appended = (
    record {
      seen = spliced n first.seen second.seen;
      piece = spliced n first.piece second.piece;
      stream = record { bound = omega (arith, second.stream.bound); carries = spliced-Carries };
      arrives = λ i h. elim (Bool-cases (ltb i n)) [
        | inl e ↦ rw e (first.arrives i (ground arith))
        | inr e ↦ rw e (second.arrives (i - n) (ground arith))
      ];
      typed = λ i h. elim (Bool-cases (ltb i n)) [
        | inl e ↦ rw e (first.typed i (ground arith))
        | inr e ↦ rw e (second.typed (i - n) (ground arith))
      ];
      whole =
          joined-spliced n first.piece second.piece m
          ∙ ap₂ (λ x y. x ++ y) first.whole second.whole;
    },
    refl,
    refl,
  )

  pub append-Batch : Batch base (n + m) (b ++ b') (spliced n pk pk')
  append-Batch = appended.0

module _ {base n : ℕ} {bytes : List ℕ} {packet : ℕ → DataPacket}
    (batch : Batch base n bytes packet) where
  -- The packets of a batch, each of which arrives exactly once, in any order.
  pub batch_arrives :
      (is : List ℕ) (c : Conn)
      → All (λ i. i < n) is
      → Distinct is
      → ((i : ℕ) → member i is ≡ ltb i n)
      → IsFresh base c
      → (c' : Conn) × (on_data_all (map batch.seen is) c ≡ some c')
        × (c'.byte_stream.vt_buf ≡ c.byte_stream.vt_buf ++ bytes)
        × (c'.next_recv_seq ≡ base + n)
        × (c'.recv_list ≡ [])
  batch_arrives is c a d h f =
      let (c', e, stream, number, list) = stream_complete batch.stream is c a d h f in
      (c', e, stream ∙ ap (λ b. c.byte_stream.vt_buf ++ b) batch.whole, number, list)

abbrev went_at : TcpSocket → Ending → Option TcpSocket
went_at s goes_on = some s
went_at s returns = none
went_at s Ending.undefined = none

-- The socket after a turn, if the thread goes on.
abbrev pub went_on : Handled → Option TcpSocket
went_on h = went_at h.socket h.ending

-- Datagrams that reach a socket from one peer, each in a turn of the receive thread; the calls of
-- `sendto` for their acknowledgements succeed.
unfoldable pub arrivals : SockAddr → List (List ℕ) → TcpSocket → Option TcpSocket
arrivals from [] s = some s
arrivals from (d ∷ ds) s =
    received d >>= λ p. went_on (on_packet s from p true) >>= arrivals from ds

-- A data packet that is handled, and its acknowledgement.
pub data_turn :
    (s : TcpSocket) (from : SockAddr) (p : DataPacket) (d : Conn)
    → p.n_type ≡ code_of data_package
    → on_data p (conn_at from s.connect_map) ≡ some d
    → on_packet s from p true ≡ put_conn s from (some d) (ack_for from p.n_seq ∷ [])
unfolding on_packet
data_turn s from p d typed e =
    ap (λ t. handle_by (type_of t) s from p true) typed
    ∙ ap (λ o. put_conn s from o (ack_for from p.n_seq ∷ [])) e

-- What the socket does with data packets is what the peer's connection does.
Batch-taken :
    {base n : ℕ} {bytes : List ℕ} {packet : ℕ → DataPacket} (batch : Batch base n bytes packet)
    (is : List ℕ) (from : SockAddr) (s : TcpSocket) (c' : Conn)
    → All (λ i. i < n) is
    → on_data_all (map batch.seen is) (conn_at from s.connect_map) ≡ some c'
    → (s' : TcpSocket) × (arrivals from (map (λ i. data_image (packet i)) is) s ≡ some s')
      × (conn_at from s'.connect_map ≡ c')
      × (s'.send_list ≡ s.send_list)
unfolding on_data_all arrivals
Batch-taken batch [] from s c' a e = (s, refl, of_some e, refl)
Batch-taken {packet} batch (i ∷ is) from s c' a e =
    elim (Option-cases (on_data (batch.seen i) (conn_at from s.connect_map))) [
      | inl n ↦ let f = rw n at e in cc
      | inr (d, n) ↦
          let f = rw n at e in
          let s1 : TcpSocket = record s { connect_map = modify from (λ _. d) s.connect_map } in
          let same : conn_at from s1.connect_map ≡ d =
            conn_at-modify_self from (λ _. d) s.connect_map in
          let (s', g, h, k) =
            Batch-taken batch is from s1 c' a.1 (ap (on_data_all (map batch.seen is)) same ∙ f) in
          let ds = map (λ i. data_image (packet i)) is in
          (
            s',
            ap (λ o. o >>= λ p. went_on (on_packet s from p true) >>= arrivals from ds)
                  (batch.arrives i a.0)
                ∙ ap (λ t. went_on t >>= arrivals from ds)
                    (data_turn s from (batch.seen i) d (batch.typed i a.0) n)
                ∙ g,
            h,
            k,
          )
    ]

-- The packets of a batch reach a socket, each exactly once and in any order.
pub Batch-stream :
    {base n : ℕ} {bytes : List ℕ} {packet : ℕ → DataPacket} (batch : Batch base n bytes packet)
    (is : List ℕ) (from : SockAddr) (s : TcpSocket)
    → All (λ i. i < n) is
    → Distinct is
    → ((i : ℕ) → member i is ≡ ltb i n)
    → IsFresh base (conn_at from s.connect_map)
    → (s' : TcpSocket) × (arrivals from (map (λ i. data_image (packet i)) is) s ≡ some s')
      × (stream_at from s' ≡ stream_at from s ++ bytes)
      × IsFresh (base + n) (conn_at from s'.connect_map)
      × (s'.send_list ≡ s.send_list)
Batch-stream batch is from s a d h f =
    let (c', e, stream, number, list) =
      batch_arrives batch is (conn_at from s.connect_map) a d h f in
    let (s', g, same, sends) = Batch-taken batch is from s c' a e in
    (
      s',
      g,
      ap (λ c. c.byte_stream.vt_buf) same ∙ stream,
      record {
        next = ap (λ c. c.next_recv_seq) same ∙ number;
        empty = ap (λ c. c.recv_list) same ∙ list;
      },
      sends,
    )
