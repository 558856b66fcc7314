-- ===== src/Server/Sending.antt =====
-- SchoolSystem/SchoolSystemDlg.cpp, `SendSql`, and SchoolSystemServer/CServer.cpp,
-- `SendResByteAry`: the packets that a statement and a result set become.
use school_system.Base.{
  ℕ, ◌+◌, ◌<◌, ◌≡◌, ap, ◌∙◌, some, List, [], ◌∷◌, ◌++◌, ◌>>=◌, arith, length, length-append,
  int_bytes, int_limit,
}
use school_system.Tcp.Address.{SockAddr}
use school_system.Tcp.Conn.{conn_at, modify}
use school_system.Tcp.Conn.Laws.{conn_at-modify_self}
use school_system.Tcp.Socket.{TcpSocket, SendListNode, send}
use school_system.Tcp.Socket.Fragments.{fragment_count, nodes_of, send_lem}
use school_system.Base.{append_assoc, ◌≤◌, le→ltb}
use school_system.Mysql.{MysqlRes}
use school_system.Server.Requests.{buf_len, send_sql, framed}
use school_system.Server.Results.{field_bytes, rows_bytes, send_block, send_res, block, res_bytes}

-- `SendSql` puts on the send list one packet with the length of the statement and its final 0, and
-- behind it the packets of the text with the 0, whose numbers go on from there, as long as the
-- numbers stay below 2 ^ 31.
pub send_sql_lem :
    (s : TcpSocket) (addr : SockAddr) (sql : List ℕ)
    → let seq = (conn_at addr s.connect_map).next_send_seq in
      let len = length sql + 1 in
      len < int_limit
      → seq + 1 + fragment_count len < int_limit
      → (t : TcpSocket) × (send_sql s addr sql ≡ some t)
        × (t.send_list
            ≡ (s.send_list ++ nodes_of addr seq (int_bytes len) 4 0 1)
              ++ nodes_of addr (seq + 1) (sql ++ 0 ∷ []) len 0 (fragment_count len))
unfolding send_sql
send_sql_lem s addr sql small fits =
    let seq = (conn_at addr s.connect_map).next_send_seq in
    let len = length sql + 1 in
    let body = sql ++ 0 ∷ [] in
    let l : length body ≡ len = length-append sql (0 ∷ []) in
    let s1 : TcpSocket = record {
      connect_map = modify addr (λ c. record c { next_send_seq = seq + 1 }) s.connect_map;
      send_list = s.send_list ++ nodes_of addr seq (int_bytes len) 4 0 1;
    } in
    let n1 : (conn_at addr s1.connect_map).next_send_seq ≡ seq + 1 =
      ap (λ c. c.next_send_seq)
        (conn_at-modify_self addr (λ c. record c { next_send_seq = seq + 1 }) s.connect_map) in
    let second = send_lem s1 addr body len small (omega arith) (omega arith) in
    (
      _,
      ap (λ r. r >>= framed addr sql)
            (send_lem s addr (int_bytes len) 4 (omega arith) (omega arith) (omega arith))
          ∙ ap (λ r. r >>= λ q. some q.0) second,
      (λ i. s1.send_list ++ nodes_of addr (n1 i) body len 0 (fragment_count len)),
    )

-- The packets of a length and of as many bytes, from the number `seq` on.
abbrev pub block_nodes : SockAddr → ℕ → List ℕ → List SendListNode
block_nodes addr seq b =
    nodes_of addr seq (int_bytes (length b)) 4 0 1
    ++ nodes_of addr (seq + 1) b (length b) 0 (fragment_count (length b))

send_block_lem :
    (s : TcpSocket) (addr : SockAddr) (b : List ℕ) (seq : ℕ)
    → (conn_at addr s.connect_map).next_send_seq ≡ seq
    → length b ≤ buf_len
    → seq + 5 < int_limit
    → (t : TcpSocket) × (send_block addr b s ≡ some t)
      × (t.send_list ≡ s.send_list ++ block_nodes addr seq b)
      × ((conn_at addr t.connect_map).next_send_seq ≡ seq + 1 + fragment_count (length b))
unfolding send_block
send_block_lem s addr b seq0 e small fits =
    let seq = (conn_at addr s.connect_map).next_send_seq in
    let len = length b in
    let s1 : TcpSocket = record {
      connect_map = modify addr (λ c. record c { next_send_seq = seq + 1 }) s.connect_map;
      send_list = s.send_list ++ nodes_of addr seq (int_bytes len) 4 0 1;
    } in
    let n1 : (conn_at addr s1.connect_map).next_send_seq ≡ seq + 1 =
      ap (λ c. c.next_send_seq)
        (conn_at-modify_self addr (λ c. record c { next_send_seq = seq + 1 }) s.connect_map) in
    let second = send_lem s1 addr b len (omega arith) (omega arith) (omega arith) in
    let n2 =
      ap (λ c. c.next_send_seq)
        (conn_at-modify_self addr
          (λ c. record c {
            next_send_seq = (conn_at addr s1.connect_map).next_send_seq + fragment_count len;
          })
          s1.connect_map) in
    (
      _,
      ap (λ r. r >>= λ q. send q.0 addr b len >>= λ t. some t.0)
            (send_lem s addr (int_bytes len) 4 (omega arith) (omega arith) (omega arith))
          ∙ ap (λ r. r >>= λ q. some q.0) second,
      (λ i. s1.send_list ++ nodes_of addr (n1 i) b len 0 (fragment_count len))
          ∙ append_assoc s.send_list (nodes_of addr seq (int_bytes len) 4 0 1) _
          ∙ ap (λ n. s.send_list ++ block_nodes addr n b) e,
      n2 ∙ omega (arith, n1, e),
    )

-- A result set without NULL that fits the buffers becomes, behind what stands on the send list, the
-- packets of the length and of the bytes of its columns, and then those of its rows, with
-- consecutive numbers.
pub send_res_lem :
    (res : MysqlRes) (rows : List ℕ) (addr : SockAddr) (s : TcpSocket) (seq : ℕ)
    → (conn_at addr s.connect_map).next_send_seq ≡ seq
    → length (field_bytes res.fields) ≤ buf_len
    → rows_bytes res.rows ≡ some rows
    → length rows ≤ buf_len
    → seq + 10 < int_limit
    → let next = seq + 1 + fragment_count (length (field_bytes res.fields)) in
      (res_bytes res ≡ some (block (field_bytes res.fields) ++ block rows))
      × ((t : TcpSocket) × (send_res res addr s ≡ some t)
          × (t.send_list
              ≡ (s.send_list ++ block_nodes addr seq (field_bytes res.fields))
                ++ block_nodes addr next rows))
unfolding send_res res_bytes
send_res_lem res rows addr s seq e small d small' fits =
    let next = seq + 1 + fragment_count (length (field_bytes res.fields)) in
    let (t1, r1, l1, n1) =
      send_block_lem s addr (field_bytes res.fields) seq e small (omega arith) in
    let (t2, r2, l2, n2) = send_block_lem t1 addr rows next n1 small' (omega arith) in
    let b1 = le→ltb buf_len (length (field_bytes res.fields)) small in
    let b2 = le→ltb buf_len (length rows) small' in
    (rw (b1, d, b2), (t2, rw (b1, r1, d, b2) r2, l2 ∙ ap (λ l. l ++ block_nodes addr next rows) l1))
