-- ===== src/Dialog/Arrival.antt =====
-- From `SendResByteAry` on the server, SchoolSystemServer/CServer.cpp, to `ShowList` in the window,
-- SchoolSystem/SchoolSystemDlg.cpp, and the transport on both sides.
use school_system.Base.{
  ℕ, ◌+◌, ◌≤◌, ◌<◌, ◌≡◌, refl, ap, sym, ◌∙◌, some, List, [], ◌∷◌, ◌++◌, map, append_assoc,
  append-nil, arith, ltb, All, length, range_from, int_bytes, int_limit,
}
use school_system.Tcp.Address.{SockAddr}
use school_system.Tcp.Packet.{DataPacket, data_image}
use school_system.Tcp.Conn.{conn_at}
use school_system.Tcp.Receive.Index.{member, Distinct}
use school_system.Tcp.Receive.Delivery.{IsFresh}
use school_system.Tcp.Socket.{TcpSocket, gets}
use school_system.Tcp.Socket.Fragments.{fragment, fragment_count, queued}
use school_system.Tcp.Socket.Reception.{stream_at}
use school_system.Tcp.Socket.Splices.{spliced, map-spliced}
use school_system.Tcp.Socket.Batches.{Batch, send-Batch, append-Batch, arrivals, Batch-stream}
use school_system.Server.Requests.{buf_len}
use school_system.Server.Results.{field_bytes, block, send_res}
use school_system.Server.Sending.{block_nodes, send_res_lem}
use school_system.Dialog.Show.{shown, show_list}
use school_system.Dialog.Show.Loops.{Clean, IsTable, full_rows, table_bytes, rows_bytes_lem}
use school_system.Dialog.RoundTrip.{length-blocks, result_roundtrip}

-- The packets of a length and of as many bytes.
abbrev block_packet : ℕ → List ℕ → ℕ → DataPacket
block_packet seq b =
    spliced 1 (fragment seq (int_bytes (length b)) 4) (fragment (seq + 1) b (length b))

abbrev block_count : List ℕ → ℕ
block_count b = 1 + fragment_count (length b)

block-Batch :
    (seq : ℕ) (b : List ℕ)
    → seq + block_count b < int_limit
    → Batch seq (block_count b) (block b) (block_packet seq b)
block-Batch seq b room =
    append-Batch (send-Batch seq (int_bytes (length b)) (omega arith))
      (send-Batch (seq + 1) b (omega arith))

map-block_packet :
    (addr : SockAddr) (seq : ℕ) (b : List ℕ)
    → map (λ i. queued addr (block_packet seq b i)) (range_from 0 (block_count b))
      ≡ block_nodes addr seq b
map-block_packet addr seq b =
    map-spliced (queued addr) 1 (fragment_count (length b)) (fragment seq (int_bytes (length b)) 4)
      (fragment (seq + 1) b (length b))

-- The packets of a table: those of the names of its columns, and then those of its rows.
abbrev pub table_packet : ℕ → List (List ℕ) → List (List (List ℕ)) → ℕ → DataPacket
table_packet seq fs rs =
    let n = block_count (field_bytes fs) in
    spliced n (block_packet seq (field_bytes fs)) (block_packet (seq + n) (table_bytes rs))

abbrev pub table_count : List (List ℕ) → List (List (List ℕ)) → ℕ
table_count fs rs = block_count (field_bytes fs) + block_count (table_bytes rs)

table-Batch :
    (seq : ℕ) (fs : List (List ℕ)) (rs : List (List (List ℕ)))
    → seq + table_count fs rs < int_limit
    → Batch seq
        (table_count fs rs)
        (block (field_bytes fs) ++ block (table_bytes rs))
        (table_packet seq fs rs)
table-Batch seq fs rs room =
    append-Batch (block-Batch seq (field_bytes fs) (omega arith))
      (block-Batch (seq + block_count (field_bytes fs)) (table_bytes rs) (omega arith))

map-table_packet :
    (addr : SockAddr) (seq : ℕ) (fs : List (List ℕ)) (rs : List (List (List ℕ)))
    → map (λ i. queued addr (table_packet seq fs rs i)) (range_from 0 (table_count fs rs))
      ≡ block_nodes addr seq (field_bytes fs)
        ++ block_nodes addr (seq + 1 + fragment_count (length (field_bytes fs))) (table_bytes rs)
map-table_packet addr seq fs rs =
    let n = block_count (field_bytes fs) in
    map-spliced (queued addr) n (block_count (table_bytes rs)) (block_packet seq (field_bytes fs))
      (block_packet (seq + n) (table_bytes rs))
    ∙ ap
        (λ l.
          l
          ++ map (λ i. queued addr (block_packet (seq + n) (table_bytes rs) i))
              (range_from 0 (block_count (table_bytes rs))))
        (map-block_packet addr seq (field_bytes fs))
    ∙ ap (λ l. block_nodes addr seq (field_bytes fs) ++ l)
        (map-block_packet addr (seq + n) (table_bytes rs)
          ∙ ap (λ m. block_nodes addr m (table_bytes rs)) {x = seq + n}
              {y = seq + 1 + fragment_count (length (field_bytes fs))} (omega arith))

-- A table gets through: let the server answer with a result set without NULL, with at least one
-- column, texts without 0 and sizes that fit the buffers, while the client waits for the number that
-- the server sends next, holds nothing back and has an empty stream, and the numbers stay below
-- 2 ^ 31. Then the packets that were put on the server's send list, if their datagrams reach
-- the client each exactly once and in any order, make `ShowList` return, without a wait, with the
-- columns under their headings and every row with its cells; and nothing is left in the stream.
pub result_arrives :
    (f : List ℕ) (fs : List (List ℕ)) (rs : List (List (List ℕ))) (s : TcpSocket)
    (client : SockAddr) (k : TcpSocket) (server : SockAddr) (is : List ℕ)
    → let seq = (conn_at client s.connect_map).next_send_seq in
      let n = table_count (f ∷ fs) rs in
      Clean (f ∷ fs)
      → IsTable (length (f ∷ fs)) rs
      → length (field_bytes (f ∷ fs)) ≤ buf_len
      → length (table_bytes rs) ≤ buf_len
      → seq + 10 < int_limit
      → All (λ i. i < n) is
      → Distinct is
      → ((i : ℕ) → member i is ≡ ltb i n)
      → IsFresh seq (conn_at server k.connect_map)
      → stream_at server k ≡ []
      → (t : TcpSocket) × (k1 : TcpSocket) × (k2 : TcpSocket) × (send_res
            (record { fields = f ∷ fs; rows = full_rows rs })
            client
            s
          ≡ some t)
        × (t.send_list
            ≡ s.send_list
              ++ map (λ i. queued client (table_packet seq (f ∷ fs) rs i)) (range_from 0 n))
        × (arrivals server (map (λ i. data_image (table_packet seq (f ∷ fs) rs i)) is) k ≡ some k1)
        × (show_list k1 server ≡ gets (shown (f ∷ fs) rs, k2))
        × (stream_at server k2 ≡ [])
result_arrives f fs rs s client k server is c is_table fits fits' room a d h fresh empty =
    let seq = (conn_at client s.connect_map).next_send_seq in
    let front = field_bytes (f ∷ fs) in
    let (_, (t, sent, nodes)) =
      send_res_lem (record { fields = f ∷ fs; rows = full_rows rs }) (table_bytes rs) client s seq
        refl fits (rows_bytes_lem rs) fits' room in
    let (k1, arrive, stream, _, _) =
      Batch-stream (table-Batch seq (f ∷ fs) rs (omega arith)) is server k a d h fresh in
    let came : stream_at server k1 ≡ block front ++ (block (table_bytes rs) ++ []) =
      stream
      ∙ ap (λ l. l ++ (block front ++ block (table_bytes rs))) empty
      ∙ ap (λ l. block front ++ l) (sym (append-nil (block (table_bytes rs)))) in
    let (_, (k2, shows, left)) =
      result_roundtrip f fs rs [] k1 server c is_table fits fits'
        (omega (arith, length-blocks front (table_bytes rs) [])) came in
    (
      t,
      k1,
      k2,
      sent,
      nodes
          ∙ append_assoc s.send_list (block_nodes client seq front) _
          ∙ ap (λ l. s.send_list ++ l) (sym (map-table_packet client seq (f ∷ fs) rs)),
      arrive,
      shows,
      left,
    )
