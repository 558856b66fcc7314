-- ===== src/Server/Arrival.antt =====
-- From `SendSql` on the client to the stream of the server: SchoolSystem/SchoolSystemDlg.cpp, and the
-- transport on both sides.
use school_system.Base.{
  ℕ, ◌+◌, ◌<◌, ◌≡◌, ap, ◌∙◌, some, List, [], ◌∷◌, ◌++◌, map, append_assoc, arith, ltb, All, length,
  length-append, range_from, int_bytes, int_limit, sym,
}
use school_system.Tcp.Address.{SockAddr}
use school_system.Tcp.Packet.{DataPacket, data_image}
use school_system.Tcp.Conn.{conn_at}
use school_system.Tcp.Receive.Index.{member, Distinct}
use school_system.Tcp.Receive.Delivery.{IsFresh}
use school_system.Tcp.Socket.{TcpSocket}
use school_system.Tcp.Socket.Fragments.{fragment, fragment_count, queued, nodes_of}
use school_system.Tcp.Socket.Reception.{stream_at}
use school_system.Tcp.Socket.Splices.{spliced, map-spliced}
use school_system.Tcp.Socket.Batches.{Batch, send-Batch, append-Batch, arrivals, Batch-stream}
use school_system.Server.Requests.{message, send_sql}
use school_system.Server.Sending.{send_sql_lem}

-- The packets of a statement, the first of which has the number `seq`: one with the length, and then
-- those of the text with its final 0.
abbrev pub sql_packet : ℕ → List ℕ → ℕ → DataPacket
sql_packet seq sql =
    spliced 1 (fragment seq (int_bytes (length sql + 1)) 4)
      (fragment (seq + 1) (sql ++ 0 ∷ []) (length (sql ++ 0 ∷ [])))

-- How many there are.
abbrev pub sql_count : List ℕ → ℕ
sql_count sql = 1 + fragment_count (length (sql ++ 0 ∷ []))

sql-Batch :
    (seq : ℕ) (sql : List ℕ)
    → seq + sql_count sql < int_limit
    → Batch seq (sql_count sql) (message sql) (sql_packet seq sql)
sql-Batch seq sql room =
    append-Batch (send-Batch seq (int_bytes (length sql + 1)) (omega arith))
      (send-Batch (seq + 1) (sql ++ 0 ∷ []) (omega arith))

-- A statement gets through: let `SendSql` hand it to the client's socket, while the server waits
-- for the number that the client sends next and holds nothing back, and the numbers stay below 2 ^
-- 31. Then the packets that were put on the client's send list, if their datagrams reach the server
-- each exactly once and in any order, bring the length and the text to the stream of that client,
-- behind what stood there; the server waits for the next number again, and holds nothing back.
pub statement_arrives :
    (k : TcpSocket) (server : SockAddr) (sql : List ℕ) (s : TcpSocket) (client : SockAddr)
    (is : List ℕ)
    → let seq = (conn_at server k.connect_map).next_send_seq in
      length sql + 1 < int_limit
      → seq + sql_count sql < int_limit
      → All (λ i. i < sql_count sql) is
      → Distinct is
      → ((i : ℕ) → member i is ≡ ltb i (sql_count sql))
      → IsFresh seq (conn_at client s.connect_map)
      → (k' : TcpSocket) × (s' : TcpSocket) × (send_sql k server sql ≡ some k')
        × (k'.send_list
            ≡ k.send_list
              ++ map (λ i. queued server (sql_packet seq sql i)) (range_from 0 (sql_count sql)))
        × (arrivals client (map (λ i. data_image (sql_packet seq sql i)) is) s ≡ some s')
        × (stream_at client s' ≡ stream_at client s ++ message sql)
        × IsFresh (seq + sql_count sql) (conn_at client s'.connect_map)
statement_arrives k server sql s client is small room a d h f =
    let seq = (conn_at server k.connect_map).next_send_seq in
    let body = sql ++ 0 ∷ [] in
    let l : length body ≡ length sql + 1 = length-append sql (0 ∷ []) in
    let (k', sent, nodes) = send_sql_lem k server sql small (omega (arith, l)) in
    let (s', arrive, stream, fresh, _) =
      Batch-stream (sql-Batch seq sql room) is client s a d h f in
    let first = nodes_of server seq (int_bytes (length sql + 1)) 4 0 1 in
    let together =
      map-spliced (queued server) 1 (fragment_count (length body))
        (fragment seq (int_bytes (length sql + 1)) 4) (fragment (seq + 1) body (length body)) in
    (
      k',
      s',
      sent,
      nodes
          ∙ append_assoc k.send_list first _
          ∙ ap
              (λ n. k.send_list ++ (first ++ nodes_of server (seq + 1) body n 0 (fragment_count n)))
              (sym l)
          ∙ ap (λ r. k.send_list ++ r) (sym together),
      arrive,
      stream,
      fresh,
    )
