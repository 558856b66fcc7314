-- ===== src/Tcp/Socket/Reception.antt =====
-- `Recv`: how much of the stream a call takes.
use school_system.Base.{
  ℕ, ◌<◌, min, ◌≡◌, refl, sym, ap₂, ◌∙◌, ◌++◌, take-drop, Bool-cases, inl, inr, leb, is_negative,
  subst, ap, false, List, [], arith, ◌==◌, if◌then◌else◌, length, take, drop, int_lt, int_limit,
  int_lt_small,
}
use school_system.Tcp.ByteStream.{ByteStream, read, get_size, read_lem, get_size_lem, get_size_nil}
use school_system.Tcp.Address.{SockAddr}
use school_system.Tcp.Conn.{Conn, conn_at}
use school_system.Tcp.Conn.Laws.{
  Everywhere, conn_at-Everywhere, modify-Everywhere_at, conn_at-modify_self,
}
use school_system.Tcp.Socket.{
  TcpSocket, Receipt, waits, gets, undefined, take_bytes, put_receipt, put_stream, recv, of_read,
}
use school_system.Tcp.Socket.Wakeups.{IsAwake, new_conn-IsAwake}

min_int_lem : (a b : ℕ) → a < int_limit → b < int_limit → (if int_lt b a then b else a) ≡ min a b
min_int_lem a b ha hb = rw (int_lt_small b a hb ha) (ground arith)

-- A property of every connection after a receipt.
abbrev HoldsFor : (Conn → Type 0) → Receipt (List ℕ × TcpSocket) → Type 0
HoldsFor P waits = Unit
HoldsFor P (gets (b, s)) = Everywhere P s.connect_map
HoldsFor P undefined = Unit

waits≢gets :
    {t : Receipt (List ℕ × ByteStream)} {bs : List ℕ} {b : ByteStream}
    → t ≡ waits
    → t ≡ gets (bs, b)
    → ⊥
waits≢gets e f = cc

-- On an empty stream `Recv` waits, whatever it is asked for.
pub take_bytes_empty : (s : ByteStream) (n : ℕ) → s.vt_buf ≡ [] → take_bytes s n ≡ waits
unfolding take_bytes
take_bytes_empty s n e = rw (get_size_nil s e)

-- A stream that is not empty and shorter than 2 ^ 31 gives as many of its bytes as it has and as
-- are wanted, from the front.
pub take_bytes_lem :
    (s : ByteStream) (n : ℕ)
    → 0 < length s.vt_buf
    → length s.vt_buf < int_limit
    → n < int_limit
    → take_bytes s n
      ≡ gets (
        take (min (length s.vt_buf) n) s.vt_buf,
        record { vt_buf = drop (min (length s.vt_buf) n) s.vt_buf },
      )
unfolding take_bytes
take_bytes_lem s n pos fits small =
    rw (get_size_lem s (omega arith), some_bytes, min_int_lem (length s.vt_buf) n fits small)
      (ap of_read (read_lem s (min (length s.vt_buf) n) (omega arith) (omega arith)))
  where
    some_bytes : (length s.vt_buf == 0) ≡ false
    some_bytes = ground arith

-- What a property of the connections has to bear for `Recv` to keep it.
put_receipt-Everywhere :
    (P : Conn → Type 0) (s : TcpSocket) (a : SockAddr) (t : Receipt (List ℕ × ByteStream))
    {bytes : List ℕ} {s' : TcpSocket}
    → ((bs : List ℕ) (b : ByteStream)
        → t ≡ gets (bs, b)
        → P (record (conn_at a s.connect_map) { byte_stream = b }))
    → Everywhere P s.connect_map
    → put_receipt s a t ≡ gets (bytes, s')
    → Everywhere P s'.connect_map
put_receipt-Everywhere P s a waits k h e = cc
put_receipt-Everywhere P s a (gets (bs, b)) k h e =
    subst (λ r. HoldsFor P r) e
      (modify-Everywhere_at P a (λ c. record c { byte_stream = b }) s.connect_map (k bs b refl) h)
put_receipt-Everywhere P s a undefined k h e = cc

-- `Recv` keeps what reads the stream only: no connection with data is forgotten.
pub recv-IsAwake :
    (s : TcpSocket) (a : SockAddr) (n : ℕ) {bytes : List ℕ} {s' : TcpSocket}
    → Everywhere IsAwake s.connect_map
    → recv s a n ≡ gets (bytes, s')
    → Everywhere IsAwake s'.connect_map
unfolding recv
recv-IsAwake s a n h e =
    put_receipt-Everywhere IsAwake s a (take_bytes (conn_at a s.connect_map).byte_stream n)
      (λ bs b t idle.
        let empty = conn_at-Everywhere IsAwake a s.connect_map new_conn-IsAwake h idle in
        absurd (waits≢gets (take_bytes_empty (conn_at a s.connect_map).byte_stream n empty) t))
      h e

-- The stream of a connection.
abbrev pub stream_at : SockAddr → TcpSocket → List ℕ
stream_at addr s = (conn_at addr s.connect_map).byte_stream.vt_buf

-- `Recv` on a connection whose stream has some bytes, fewer than 2 ^ 31, does not wait for more: it
-- returns the first bytes of the stream, as many as there are or as are wanted, and leaves the rest.
pub recv_lem :
    (s : TcpSocket) (addr : SockAddr) (n : ℕ)
    → 0 < length (stream_at addr s)
    → length (stream_at addr s) < int_limit
    → n < int_limit
    → (s' : TcpSocket) × (recv s addr n
        ≡ gets (take (min (length (stream_at addr s)) n) (stream_at addr s), s'))
      × (stream_at addr s' ≡ drop (min (length (stream_at addr s)) n) (stream_at addr s))
unfolding recv
recv_lem s addr n pos fits small =
    let b = (conn_at addr s.connect_map).byte_stream in
    let m = min (length b.vt_buf) n in
    (
      put_stream s addr (record { vt_buf = drop m b.vt_buf }),
      ap (put_receipt s addr) (take_bytes_lem b n pos fits small),
      ap (λ c. c.byte_stream.vt_buf)
          (conn_at-modify_self addr
            (λ c. record c { byte_stream = record { vt_buf = drop m b.vt_buf } }) s.connect_map),
    )

pub of_gets : {A : Type 0} {a b : A} → gets a ≡ gets b → a ≡ b
of_gets e = cc

of_read-gets :
    (s : ByteStream) (n : ℕ) {bytes : List ℕ} {b : ByteStream}
    → of_read (read s n) ≡ gets (bytes, b)
    → s.vt_buf ≡ bytes ++ b.vt_buf
unfolding read of_read
of_read-gets s n {bytes} {b} e = elim (Bool-cases (is_negative n)) [
  | inl neg ↦ let f = rw neg at e in cc
  | inr pos ↦ elim (Bool-cases (leb n (length s.vt_buf))) [
    | inl fits ↦
        let f : gets (take n s.vt_buf, record { vt_buf = drop n s.vt_buf }) ≡ gets (bytes, b) =
          rw (pos, fits) at e in
        sym (take-drop n s.vt_buf)
        ∙ ap₂ (λ x y. x ++ y.vt_buf) (ap (λ p. p.0) (of_gets f)) (ap (λ p. p.1) (of_gets f))
    | inr past ↦ let f = rw (pos, past) at e in cc
  ]
]

take_bytes-gets :
    (s : ByteStream) (n : ℕ) {bytes : List ℕ} {b : ByteStream}
    → take_bytes s n ≡ gets (bytes, b)
    → s.vt_buf ≡ bytes ++ b.vt_buf
unfolding take_bytes
take_bytes-gets s n e = elim (Bool-cases (get_size s == 0)) [
  | inl empty ↦ let f = rw empty at e in cc
  | inr some_bytes ↦
      of_read-gets s (if int_lt n (get_size s) then n else get_size s) (rw some_bytes at e)
]

-- Whenever `Recv` returns, the bytes that it gives stood at the front of the stream, and only they
-- are gone.
pub recv-gets :
    (s : TcpSocket) (a : SockAddr) (n : ℕ) {bytes : List ℕ} {s' : TcpSocket}
    → recv s a n ≡ gets (bytes, s')
    → (stream_at a s ≡ bytes ++ stream_at a s')
      × ((conn_at a s'.connect_map).next_recv_seq ≡ (conn_at a s.connect_map).next_recv_seq)
      × ((conn_at a s'.connect_map).recv_list ≡ (conn_at a s.connect_map).recv_list)
unfolding recv
recv-gets s a n {bytes} {s'} e =
    put_receipt-gets (take_bytes (conn_at a s.connect_map).byte_stream n) refl e
  where
    put_receipt-gets :
        (t : Receipt (List ℕ × ByteStream))
        → take_bytes (conn_at a s.connect_map).byte_stream n ≡ t
        → put_receipt s a t ≡ gets (bytes, s')
        → (stream_at a s ≡ bytes ++ stream_at a s')
          × ((conn_at a s'.connect_map).next_recv_seq ≡ (conn_at a s.connect_map).next_recv_seq)
          × ((conn_at a s'.connect_map).recv_list ≡ (conn_at a s.connect_map).recv_list)
    put_receipt-gets waits t f = cc
    put_receipt-gets (gets (bs, b)) t f =
        let f1 : bs ≡ bytes = ap (λ p. p.0) (of_gets f) in
        let f2 : put_stream s a b ≡ s' = ap (λ p. p.1) (of_gets f) in
        let here : conn_at a s'.connect_map ≡ record (conn_at a s.connect_map) { byte_stream = b } =
          ap (λ k. conn_at a k.connect_map) (sym f2)
          ∙ conn_at-modify_self a (λ c. record c { byte_stream = b }) s.connect_map in
        (
          take_bytes-gets (conn_at a s.connect_map).byte_stream n t
              ∙ ap₂ (λ x y. x ++ y) f1 (ap (λ c. c.byte_stream.vt_buf) (sym here)),
          ap (λ c. c.next_recv_seq) here,
          ap (λ c. c.recv_list) here,
        )
    put_receipt-gets undefined t f = cc
