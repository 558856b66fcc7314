-- ===== src/Server/Results.antt =====
-- SchoolSystemServer/CServer.cpp, `CServer::SendResByteAry`: a result set as bytes. `none` stands
-- for what C++ leaves undefined: a write behind the buffer, or `strlen(NULL)`.
use school_system.Base.{
  ℕ, Option, none, some, List, [], ◌∷◌, ◌++◌, ◌>>=◌, ltb, if◌then◌else◌, length, int_bytes,
  c_string,
}
use school_system.Mysql.{MysqlRes}
use school_system.Tcp.Address.{SockAddr}
use school_system.Tcp.Socket.{TcpSocket, send}
use school_system.Server.Requests.{buf_len}

-- `memcpy(p, s, strlen(s) + 1)`
abbrev pub text_bytes : List ℕ → List ℕ
text_bytes s = c_string s ++ 0 ∷ []

-- The loop over the fields.
unfoldable pub field_bytes : List (List ℕ) → List ℕ
field_bytes [] = []
field_bytes (f ∷ fs) = text_bytes f ++ field_bytes fs

-- The loop over the columns of a row.
unfoldable pub row_bytes : List (Option (List ℕ)) → Option (List ℕ)
row_bytes [] = some []
row_bytes (none ∷ cs) = none
row_bytes (some c ∷ cs) = row_bytes cs >>= λ rest. some (text_bytes c ++ rest)

-- The loop over the rows.
unfoldable pub rows_bytes : List (List (Option (List ℕ))) → Option (List ℕ)
rows_bytes [] = some []
rows_bytes (r ∷ rs) = row_bytes r >>= λ front. rows_bytes rs >>= λ rest. some (front ++ rest)

-- The bytes that fit the buffer.
abbrev pub in_buffer : List ℕ → Option (List ℕ)
in_buffer b = if ltb buf_len (length b) then none else some b

-- A length, and as many bytes.
unfoldable pub send_block : SockAddr → List ℕ → TcpSocket → Option TcpSocket
send_block addr b s =
    send s addr (int_bytes (length b)) 4 >>= λ r. send r.0 addr b (length b) >>= λ t. some t.0

-- `CServer::SendResByteAry`
unfoldable pub send_res : MysqlRes → SockAddr → TcpSocket → Option TcpSocket
send_res res addr s = in_buffer (field_bytes res.fields) >>= λ fields.
    send_block addr fields s >>= λ s'.
    rows_bytes res.rows >>= λ rows. in_buffer rows >>= λ rows'. send_block addr rows' s'

-- The bytes of the four calls of `Send`, in order.
abbrev pub block : List ℕ → List ℕ
block b = int_bytes (length b) ++ b

unfoldable pub res_bytes : MysqlRes → Option (List ℕ)
res_bytes res = in_buffer (field_bytes res.fields) >>= λ fields.
    rows_bytes res.rows >>= λ rows. in_buffer rows >>= λ rows'. some (block fields ++ block rows')
