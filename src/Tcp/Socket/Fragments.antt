-- ===== src/Tcp/Socket/Fragments.antt =====
-- `Send` cuts a buffer into packets; the other side gets the buffer back.
use school_system.Base.{
  ℕ, zero, suc, ◌+◌, ◌-◌, ◌*◌, ◌/◌, ◌%◌, ◌≤◌, ◌<◌, min, ◌≡◌, refl, sym, ap, ◌∙◌, some, List, [],
  ◌∷◌, ◌++◌, map, append_assoc, append-nil, arith, ◌==◌, length, drop, range_from, drop-drop,
  next_int, int_limit, inl, inr, Bool-cases, ==_iff, le→leb, lt→leb,
}
use school_system.Tcp.Packet.{DataPacket, data_len, data_packet, code_of, data_package}
use school_system.Tcp.Address.{SockAddr}
use school_system.Tcp.Conn.{conn_at, modify}
use school_system.Tcp.Socket.{
  TcpSocket, SendListNode, payload, put_packets, full_packets, last_packet, send,
}

-- Packet `i` of the buffer, if the first packet has the number `seq`.
unfoldable pub fragment : ℕ → List ℕ → ℕ → ℕ → DataPacket
fragment seq buf len i =
    data_packet (code_of data_package) (seq + i) (min data_len (len - data_len * i))
      (drop (data_len * i) buf)

-- The number of packets.
abbrev pub fragment_count : ℕ → ℕ
fragment_count len = (len + 1023) / data_len

-- A packet as it is put on the send list.
abbrev pub queued : SockAddr → DataPacket → SendListNode
queued addr p = record { time = 0; addr = addr; packet = payload p }

module _ (addr : SockAddr) (seq : ℕ) (buf : List ℕ) (len : ℕ) where
  abbrev pub nodes_of : ℕ → ℕ → List SendListNode
  nodes_of i n = map (λ j. queued addr (fragment seq buf len j)) (range_from i n)

  fragment_full :
      (i s : ℕ) (b : List ℕ)
      → s ≡ seq + i
      → b ≡ drop (data_len * i) buf
      → (k : ℕ) → k ≡ min data_len (len - data_len * i)
      → data_packet (code_of data_package) s k b ≡ fragment seq buf len i
  unfolding fragment
  fragment_full i s b e f k g = λ j. data_packet (code_of data_package) (e j) (g j) (f j)

  full_packets_lem :
      (cnt i s : ℕ) (b : List ℕ) (nodes : List SendListNode)
      → s ≡ seq + i
      → b ≡ drop (data_len * i) buf
      → data_len * (i + cnt) ≤ len
      → seq + i + cnt < int_limit
      → full_packets cnt addr s b nodes
        ≡ (seq + (i + cnt), drop (data_len * (i + cnt)) buf, nodes ++ nodes_of i cnt)
  unfolding full_packets
  full_packets_lem zero i s b nodes e f h k = λ j. (number j, rest j, sym (append-nil nodes) j)
    where
      number : s ≡ seq + (i + 0)
      number = omega arith

      rest : b ≡ drop (data_len * (i + 0)) buf
      rest = f ∙ ap (λ t. drop t buf) (omega arith)
  full_packets_lem (suc cnt) i s b nodes e f h k =
      full_packets_lem cnt (suc i) (next_int s) (drop data_len b) (nodes ++ node ∷ []) (omega arith)
        (ap (drop data_len) f
          ∙ drop-drop data_len (data_len * i) (data_len * suc i) buf (omega arith))
        (omega arith) (omega arith)
      ∙ (λ j. (number j, rest j, list j))
    where
      node : SendListNode
      node = queued addr (data_packet (code_of data_package) s data_len b)

      number : seq + (suc i + cnt) ≡ seq + (i + suc cnt)
      number = omega arith

      rest : drop (data_len * (suc i + cnt)) buf ≡ drop (data_len * (i + suc cnt)) buf
      rest = ap (λ t. drop t buf) (omega arith)

      same : node ≡ queued addr (fragment seq buf len i)
      same = ap (queued addr) (fragment_full i s b e f data_len (omega arith))

      list : (nodes ++ node ∷ []) ++ nodes_of (suc i) cnt ≡ nodes ++ nodes_of i (suc cnt)
      list =
          append_assoc nodes (node ∷ []) (nodes_of (suc i) cnt)
          ∙ ap (λ x. nodes ++ x ∷ nodes_of (suc i) cnt) same

  nodes_of-suc : (i m k : ℕ) → i + m ≡ k → nodes_of i (suc m) ≡ nodes_of i m ++ nodes_of k 1
  nodes_of-suc i zero k e = ap (λ t. nodes_of t 1) (omega arith)
  nodes_of-suc i (suc m) k e =
      ap (◌∷◌ (queued addr (fragment seq buf len i))) (nodes_of-suc (suc i) m k (omega arith))

  last_packet_lem :
      (n : ℕ) (nodes : List SendListNode)
      → n ≡ len / data_len
      → seq + fragment_count len < int_limit
      → last_packet (len % data_len) addr (seq + n, drop (data_len * n) buf, nodes ++ nodes_of 0 n)
        ≡ (seq + fragment_count len, nodes ++ nodes_of 0 (fragment_count len))
  unfolding last_packet
  last_packet_lem n nodes e h = elim (Bool-cases (len % data_len == 0)) [
    | inl exact ↦
        let z : len % data_len ≡ 0 = (==_iff (len % data_len) 0).0 exact in
        let number : seq + n ≡ seq + fragment_count len = omega arith in
        let count : n ≡ fragment_count len = omega arith in
        rw exact (λ j. (number j, nodes ++ nodes_of 0 (count j)))
    | inr part ↦
        let z : 0 < len % data_len = ground arith in
        let number : next_int (seq + n) ≡ seq + fragment_count len = omega arith in
        let count : suc n ≡ fragment_count len = omega arith in
        let same = ap (queued addr) (
          fragment_full n (seq + n) (drop (data_len * n) buf) refl refl (len % data_len)
            (omega arith)) in
        let list =
          append_assoc nodes (nodes_of 0 n) (
            queued addr (
              data_packet (code_of data_package) (seq + n) (len % data_len)
                (drop (data_len * n) buf))
            ∷ [])
          ∙ ap (λ x. nodes ++ (nodes_of 0 n ++ x ∷ [])) same
          ∙ ap (λ x. nodes ++ x) (sym (nodes_of-suc 0 n n (omega arith)))
          ∙ ap (λ t. nodes ++ nodes_of 0 t) count in
        rw part (λ j. (number j, list j))
  ]

-- `Send` of `len` bytes that the buffer has, on a connection whose numbers stay below 2 ^ 31,
-- appends the packets 0, …, ⌈len / 1024⌉ - 1 of the buffer to the send list, in order, and moves the
-- connection's next number on by as many; it returns `len`.
pub send_lem :
    (s : TcpSocket) (addr : SockAddr) (buf : List ℕ) (len : ℕ)
    → len < int_limit
    → len ≤ length buf
    → (conn_at addr s.connect_map).next_send_seq + fragment_count len < int_limit
    → let seq = (conn_at addr s.connect_map).next_send_seq in
      send s addr buf len
      ≡ some (
        record {
          connect_map =
              modify addr
                (λ c. record c { next_send_seq = seq + fragment_count len })
                s.connect_map;
          send_list = s.send_list ++ nodes_of addr seq buf len 0 (fragment_count len);
        },
        len,
      )
unfolding send
send_lem s addr buf len small fits room =
    rw (lt→leb int_limit len small, le→leb len (length buf) fits)
      (ap (λ r. some (put_packets s addr r, len)) (full ∙ last))
  where
    seq : ℕ
    seq = (conn_at addr s.connect_map).next_send_seq

    cnt : ℕ
    cnt = len / data_len

    z : 0 + cnt ≡ cnt
    z = omega arith

    full :
        last_packet (len % data_len) addr (full_packets cnt addr seq buf s.send_list)
        ≡ last_packet
            (len % data_len)
            addr
            (seq + cnt, drop (data_len * cnt) buf, s.send_list ++ nodes_of addr seq buf len 0 cnt)
    full = ap (last_packet (len % data_len) addr) (
        full_packets_lem addr seq buf len cnt 0 seq buf s.send_list (omega arith) refl (omega arith)
          (omega arith)
        ∙ (λ j.
            (seq + z j, drop (data_len * z j) buf, s.send_list ++ nodes_of addr seq buf len 0 cnt)))

    last :
        last_packet
          (len % data_len)
          addr
          (seq + cnt, drop (data_len * cnt) buf, s.send_list ++ nodes_of addr seq buf len 0 cnt)
        ≡ (
          seq + fragment_count len,
          s.send_list ++ nodes_of addr seq buf len 0 (fragment_count len),
        )
    last = last_packet_lem addr seq buf len cnt s.send_list refl room
