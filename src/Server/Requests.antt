-- ===== src/Server/Requests.antt =====
-- SchoolSystemServer/CServer.cpp, the loop of `CServer::CServer`: how a statement is read from the
-- stream of the selected client, and SchoolSystem/SchoolSystemDlg.cpp, `SendSql`, which writes it.
use school_system.Base.{
  ℕ, suc, ◌+◌, ◌-◌, ◌≤◌, ◌<◌, min, ◌≡◌, refl, sym, ap, ◌∙◌, Bool, true, false, Option, none, some,
  List, [], ◌∷◌, ◌++◌, ◌>>=◌, arith, ltb, ◌==◌, if◌then◌else◌, length, take, drop, replicate,
  append_assoc, length-append, take_append, drop_append, take_all, int_bytes, read_int,
  read_int-int_bytes, int_limit, int_mod, c_string, c_string_lem, NulFree, le→ltb,
}
use school_system.Tcp.Address.{SockAddr}
use school_system.Tcp.Client
use school_system.Tcp.Socket.{TcpSocket, Receipt, gets, undefined, and_then, recv}
use school_system.Tcp.Socket.Reception.{stream_at, recv_lem}

-- The size of the server's and of the client's buffers, 0x1000.
abbrev pub buf_len : ℕ
buf_len = 4096

-- The number in an `int` variable with the value `old`, when `bytes`, at most four, are written
-- over its first bytes.
abbrev first : Option (ℕ × List ℕ) → ℕ
first none = 0
first (some r) = r.0

unfoldable pub int_over : ℕ → List ℕ → ℕ
int_over old bytes = first (read_int (bytes ++ drop (length bytes) (int_bytes old)))

abbrev pub int_read : ℕ → List ℕ × TcpSocket → Receipt (ℕ × TcpSocket)
int_read old (bytes, s) = gets (int_over old bytes, s)

-- `m_tcpServer.Recv(addr, (char*)&nLen, sizeof(nLen))`, with `nLen` 0 before
unfoldable pub recv_int : TcpSocket → SockAddr → Receipt (ℕ × TcpSocket)
recv_int s addr = and_then (recv s addr 4) (int_read 0)

-- There is a 0 in the text.
abbrev pub has_zero : List ℕ → Bool
has_zero [] = false
has_zero (c ∷ cs) = if c == 0 then true else has_zero cs

-- What `Recv` wrote to a buffer of 0x1000 zeros. More bytes than that are written behind it.
abbrev pub filled : List ℕ → List ℕ
filled bytes = bytes ++ replicate (buf_len - length bytes) 0

abbrev sql_read : List ℕ × TcpSocket → Receipt (List ℕ × TcpSocket)
sql_read (bytes, s) =
    if ltb buf_len (length bytes)
    then undefined
    else if has_zero (filled bytes)
    then gets (c_string (filled bytes), s)
    else undefined

-- `m_tcpServer.Recv(addr, buf, nLen)`, and `string(buf)`, which reads up to the first 0.
unfoldable pub recv_sql : TcpSocket → SockAddr → ℕ → Receipt (List ℕ × TcpSocket)
recv_sql s addr len = and_then (recv s addr len) sql_read

-- `CSchoolSystemDlg::SendSql`: the length with the final 0, and then the text with it.
abbrev pub framed : SockAddr → List ℕ → TcpSocket × ℕ → Option TcpSocket
framed addr sql (s, n) = Client.send s addr (sql ++ 0 ∷ []) (length sql + 1) >>= λ r. some r.0

unfoldable pub send_sql : TcpSocket → SockAddr → List ℕ → Option TcpSocket
send_sql s addr sql = Client.send s addr (int_bytes (length sql + 1)) 4 >>= framed addr sql

-- The bytes that `SendSql` hands to the transport.
abbrev pub message : List ℕ → List ℕ
message sql = int_bytes (length sql + 1) ++ (sql ++ 0 ∷ [])

pub recv_front :
    (s : TcpSocket) (addr : SockAddr) (front rest : List ℕ)
    → stream_at addr s ≡ front ++ rest
    → 0 < length front
    → length (front ++ rest) < int_limit
    → (s' : TcpSocket) × (recv s addr (length front) ≡ gets (front, s'))
      × (stream_at addr s' ≡ rest)
recv_front s addr front rest e pos small =
    let l : length (stream_at addr s) ≡ length front + length rest =
      ap length e ∙ length-append front rest in
    let small' : length front + length rest < int_limit = omega (arith, length-append front rest) in
    let m : min (length (stream_at addr s)) (length front) ≡ length front = omega arith in
    let (s', r, t) = recv_lem s addr (length front) (omega arith) (omega arith) (omega arith) in
    (
      s',
      r ∙ (λ i. gets (take (m i) (e i), s')) ∙ ap (λ b. gets (b, s')) (take_append front rest),
      t ∙ (λ i. drop (m i) (e i)) ∙ drop_append front rest,
    )

pub int_over_lem : (old n : ℕ) → n < int_mod → int_over old (int_bytes n) ≡ n
unfolding int_over
int_over_lem old n h = ap first (read_int-int_bytes n [] h)

pub has_zero_lem : (s rest : List ℕ) → has_zero (s ++ 0 ∷ rest) ≡ true
has_zero_lem [] rest = refl
has_zero_lem (c ∷ s) rest = ground (arith, has_zero_lem s rest)

sql_read_lem :
    (sql : List ℕ) (s : TcpSocket)
    → NulFree sql
    → length sql < buf_len
    → sql_read (sql ++ 0 ∷ [], s) ≡ gets (sql, s)
sql_read_lem sql s free small =
    let l : length (sql ++ 0 ∷ []) ≡ length sql + 1 = length-append sql (0 ∷ []) in
    let shape = append_assoc sql (0 ∷ []) (replicate (buf_len - length (sql ++ 0 ∷ [])) 0) in
    rw
      (
        le→ltb buf_len (length (sql ++ 0 ∷ [])) (omega arith),
        shape,
        has_zero_lem sql (replicate (buf_len - length (sql ++ 0 ∷ [])) 0),
      )
      (ap (λ t. gets (t, s)) (c_string_lem sql _ free))

-- A statement of at most 4095 characters, none of them 0, that has arrived whole in the stream of
-- a client, in front of whatever else, is read by the server exactly as it was sent, and the
-- stream is left with what stood behind it.
pub request_roundtrip :
    (s : TcpSocket) (addr : SockAddr) (sql rest : List ℕ)
    → NulFree sql
    → length sql < buf_len
    → stream_at addr s ≡ message sql ++ rest
    → length (message sql ++ rest) < int_limit
    → (s1 : TcpSocket) × (s2 : TcpSocket) × (recv_int s addr ≡ gets (length sql + 1, s1))
      × (recv_sql s1 addr (length sql + 1) ≡ gets (sql, s2))
      × (stream_at addr s2 ≡ rest)
unfolding recv_int recv_sql
request_roundtrip s addr sql rest free small e fits =
    let body = sql ++ 0 ∷ [] in
    let l : length body ≡ length sql + 1 = length-append sql (0 ∷ []) in
    let (s1, r1, t1) =
      recv_front s addr (int_bytes (length sql + 1)) (body ++ rest) e (omega arith) fits in
    let (s2, r2, t2) = recv_front s1 addr body rest t1 (omega arith) (omega arith) in
    (
      s1,
      s2,
      ap (λ r. and_then r (int_read 0)) r1
          ∙ ap (λ n. gets (n, s1)) (int_over_lem 0 (length sql + 1) (omega arith)),
      ap (λ n. and_then (recv s1 addr n) sql_read) (sym l)
          ∙ ap (λ r. and_then r sql_read) r2
          ∙ sql_read_lem sql s2 free small,
      t2,
    )

part_read :
    (part : List ℕ) (s : TcpSocket)
    → NulFree part
    → length part < buf_len
    → sql_read (part, s) ≡ gets (part, s)
part_read part s free small =
    let more : buf_len - length part ≡ suc (buf_len - length part - 1) = omega arith in
    rw
      (
        le→ltb buf_len (length part) (omega arith),
        more,
        has_zero_lem part (replicate (buf_len - length part - 1) 0),
      )
      (ap (λ t. gets (t, s)) (c_string_lem part _ free))

drop_all : (xs : List ℕ) → drop (length xs) xs ≡ []
drop_all [] = refl
drop_all (x ∷ xs) = drop_all xs

-- A weakness: the server does not wait for the rest of a statement. If only a part of it has
-- arrived, not empty, without a 0 and shorter than the buffer of 0x1000 bytes, it takes that part
-- for the statement, and the stream is left empty, so that the rest will be read as the length of
-- the next statement.
pub request_truncated :
    (s : TcpSocket) (addr : SockAddr) (part : List ℕ) (len : ℕ)
    → NulFree part
    → 0 < length part
    → length part < buf_len
    → length part ≤ len
    → len < int_limit
    → stream_at addr s ≡ part
    → (s' : TcpSocket) × (recv_sql s addr len ≡ gets (part, s')) × (stream_at addr s' ≡ [])
unfolding recv_sql
request_truncated s addr part len free pos small short fits e =
    let l : length (stream_at addr s) ≡ length part = ap length e in
    let m : min (length (stream_at addr s)) len ≡ length part = omega arith in
    let (s', r, t) = recv_lem s addr len (omega arith) (omega arith) fits in
    (
      s',
      ap (λ r. and_then r sql_read)
            (r
              ∙ (λ i. gets (take (m i) (e i), s'))
              ∙ ap (λ b. gets (b, s')) (take_all (length part) part (omega arith)))
          ∙ part_read part s' free small,
      t ∙ (λ i. drop (m i) (e i)) ∙ drop_all part,
    )
