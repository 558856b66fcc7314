-- ===== src/Dialog/RoundTrip.antt =====
-- A result set that the server writes is what the client shows: `SendResByteAry` against `ShowList`.
use school_system.Base.{
  ℕ, suc, ◌+◌, ◌≤◌, ◌<◌, ◌≡◌, refl, ap, ◌∙◌, false, some, List, [], ◌∷◌, ◌++◌, ◌==◌, if◌then◌else◌,
  length, drop, replicate, append_assoc, length-append, arith, int_bytes, int_limit, int_mod,
  le→ltb,
}
use school_system.Tcp.Address.{SockAddr}
use school_system.Tcp.Socket.{TcpSocket, gets, undefined, and_then, recv}
use school_system.Tcp.Socket.Reception.{stream_at}
use school_system.Server.Requests.{buf_len, int_over_lem, int_read, recv_front}
use school_system.Server.Results.{field_bytes, block, res_bytes}
use school_system.Dialog.Show.{over_buffer, recv_buffer, shown, show_records, show_list}
use school_system.Dialog.Show.Loops.{
  Clean, full_rows, table_bytes, rows_bytes_lem, length-field_bytes-cons, show_fields_lem, IsTable,
  row_positive, length-table_bytes-cons, show_rows_lem,
}

pub length-blocks :
    (b c rest : List ℕ)
    → length (block b ++ (block c ++ rest)) ≡ 8 + length b + length c + length rest
length-blocks b c rest =
    let l : length (block b ++ (block c ++ rest)) ≡ 4 + length (b ++ (block c ++ rest)) =
      omega arith in
    let m : length (block c ++ rest) ≡ 4 + length (c ++ rest) = omega arith in
    omega (arith, l, m, length-append b (block c ++ rest), length-append c rest)

pub int_front :
    (s : TcpSocket) (addr : SockAddr) (old n : ℕ) (rest : List ℕ)
    → n < int_mod
    → stream_at addr s ≡ int_bytes n ++ rest
    → length (int_bytes n ++ rest) < int_limit
    → (s' : TcpSocket) × (and_then (recv s addr 4) (int_read old) ≡ gets (n, s'))
      × (stream_at addr s' ≡ rest)
int_front s addr old n rest big e small =
    let (s', r, t) = recv_front s addr (int_bytes n) rest e (omega arith) small in
    (s', ap (λ r. and_then r (int_read old)) r ∙ ap (λ m. gets (m, s')) (int_over_lem old n big), t)

buffer_front :
    (s : TcpSocket) (addr : SockAddr) (old b rest : List ℕ)
    → stream_at addr s ≡ b ++ rest
    → 0 < length b
    → length b ≤ buf_len
    → length (b ++ rest) < int_limit
    → (s' : TcpSocket) × (recv_buffer s addr (length b) old ≡ gets (b ++ drop (length b) old, s'))
      × (stream_at addr s' ≡ rest)
unfolding recv_buffer
buffer_front s addr old b rest e pos fits small =
    let (s', r, t) = recv_front s addr b rest e pos small in
    (
      s',
      ap (λ r. and_then r (over_buffer old)) r
          ∙ ap (λ c. if c then undefined else gets (b ++ drop (length b) old, s'))
              (le→ltb buf_len (length b) fits),
      t,
    )

show_records_lem :
    (fs : List (List ℕ)) (rs : List (List (List ℕ))) (old : ℕ) (buf rest : List ℕ) (s : TcpSocket)
    (addr : SockAddr)
    → 0 < length fs
    → IsTable (length fs) rs
    → length (table_bytes rs) ≤ buf_len
    → stream_at addr s ≡ block (table_bytes rs) ++ rest
    → length (block (table_bytes rs) ++ rest) < int_limit
    → (s' : TcpSocket) × (show_records fs old buf s addr ≡ gets (shown fs rs, s'))
      × (stream_at addr s' ≡ rest)
unfolding show_records
show_records_lem fs [] old buf rest s addr pos t fits e small =
    let (s1, r1, t1) = int_front s addr old 0 rest (omega arith) e small in (s1, rw r1, t1)
show_records_lem fs (r ∷ rs) old buf rest s addr pos t fits e small =
    let b = table_bytes (r ∷ rs) in
    let l = length-table_bytes-cons r rs in
    let p = row_positive r (omega (arith, t.0.0)) t.0.1 in
    let small' : suc (suc (suc (suc (length (b ++ rest))))) < int_limit = small in
    let (s1, r1, t1) =
      int_front s addr old (length b) (b ++ rest) (omega arith)
        (e ∙ append_assoc (int_bytes (length b)) b rest) small in
    let (s2, r2, t2) = buffer_front s1 addr buf b rest t1 (omega arith) fits (omega arith) in
    let more : (length b == 0) ≡ false = ground (arith, l, p) in
    (
      s2,
      rw (
        r1,
        more,
        r2,
        le→ltb buf_len (length b) fits,
        show_rows_lem (r ∷ rs) (length b) (length fs) (length b) (drop (length b) buf) pos t refl
            (omega arith),
      ),
      t2,
    )

-- What the server sends for a result set without NULL, with at least one column, whose texts have
-- no 0 and which fits the buffers, is defined; and when these bytes have arrived whole in the
-- stream of the server, which holds fewer than 2 ^ 31 bytes, `ShowList` does not block, shows the
-- columns under their headings and every row with its cells in order, and leaves in the stream what
-- stood behind them.
pub result_roundtrip :
    (f : List ℕ) (fs : List (List ℕ)) (rs : List (List (List ℕ))) (rest : List ℕ) (s : TcpSocket)
    (addr : SockAddr)
    → Clean (f ∷ fs)
    → IsTable (length (f ∷ fs)) rs
    → length (field_bytes (f ∷ fs)) ≤ buf_len
    → length (table_bytes rs) ≤ buf_len
    → length (block (field_bytes (f ∷ fs)) ++ (block (table_bytes rs) ++ rest)) < int_limit
    → stream_at addr s ≡ block (field_bytes (f ∷ fs)) ++ (block (table_bytes rs) ++ rest)
    → (res_bytes (record { fields = f ∷ fs; rows = full_rows rs })
        ≡ some (block (field_bytes (f ∷ fs)) ++ block (table_bytes rs)))
      × ((s' : TcpSocket) × (show_list s addr ≡ gets (shown (f ∷ fs) rs, s'))
          × (stream_at addr s' ≡ rest))
unfolding res_bytes show_list
result_roundtrip f fs rs rest s addr c t fits fits' short e =
    let b = field_bytes (f ∷ fs) in
    let later = block (table_bytes rs) ++ rest in
    let l0 : length later ≡ suc (suc (suc (suc (length (table_bytes rs ++ rest))))) = refl in
    let l : length later ≡ 4 + length (table_bytes rs) + length rest =
      omega (arith, l0, length-append (table_bytes rs) rest) in
    let l' = length-append b later in
    let l1 : length (block b ++ later) ≡ suc (suc (suc (suc (length (b ++ later))))) = refl in
    let p = length-field_bytes-cons f fs c.0 in
    let (s1, r1, t1) = int_front s addr 0 (length b) (b ++ later) (omega arith) e (omega arith) in
    let (s2, r2, t2) =
      buffer_front s1 addr (replicate buf_len 0) b later t1 (omega arith) fits (omega arith) in
    let (s3, r3, t3) =
      show_records_lem (f ∷ fs) rs (length b) (b ++ drop (length b) (replicate buf_len 0)) rest s2
        addr (omega arith) t fits' t2 (omega arith) in
    (
      rw (
        le→ltb buf_len (length b) fits,
        rows_bytes_lem rs,
        le→ltb buf_len (length (table_bytes rs)) fits',
      ),
      (
        s3,
        rw (
          r1,
          r2,
          le→ltb buf_len (length b) fits,
          show_fields_lem (f ∷ fs) (length b) (length b) (drop (length b) (replicate buf_len 0)) c
              refl (omega arith),
          r3,
        ),
        t3,
      ),
    )
