-- ===== src/Dialog/Window/Tables.antt =====
-- SchoolSystem/SchoolSystemDlg.cpp: the tables that the main window shows.
use school_system.Base.{
  ℕ, ◌+◌, ◌≤◌, ◌<◌, ◌≡◌, refl, ap, false, some, List, [], ◌∷◌, ◌++◌, length, arith, int_limit,
}
use school_system.Tcp.Address.{SockAddr}
use school_system.Tcp.Conn.{conn_at}
use school_system.Tcp.Socket.{TcpSocket, waits, gets, recv, put_receipt}
use school_system.Tcp.Socket.Reception.{stream_at, take_bytes_empty}
use school_system.Tcp.Client.{Peer, connect}
use school_system.Server.Requests.{buf_len, send_sql}
use school_system.Server.Results.{field_bytes, block}
use school_system.Server.Sending.{send_sql_lem}
use school_system.Dialog.Show.{shown, show_list}
use school_system.Dialog.Show.Loops.{Clean, IsTable, table_bytes}
use school_system.Dialog.RoundTrip.{result_roundtrip}
use school_system.Dialog.Edit.{Tab, students, courses, classes, selections}
use school_system.Dialog.Window.{Window, tab_sql, show_table, on_selchange_tab, on_init_window}

-- The statement has been put on the send list, and the answer has come.
table_shown :
    (server : SockAddr) (between : TcpSocket → TcpSocket) (sql : List ℕ) (win : Window) (f : List ℕ)
    (fs : List (List ℕ)) (rs : List (List (List ℕ))) (rest : List ℕ) (t : TcpSocket)
    → Clean (f ∷ fs)
    → IsTable (length (f ∷ fs)) rs
    → length (field_bytes (f ∷ fs)) ≤ buf_len
    → length (table_bytes rs) ≤ buf_len
    → length (block (field_bytes (f ∷ fs)) ++ (block (table_bytes rs) ++ rest)) < int_limit
    → send_sql win.tcp_client server sql ≡ some t
    → stream_at server (between t)
      ≡ block (field_bytes (f ∷ fs)) ++ (block (table_bytes rs) ++ rest)
    → (win' : Window) × (show_table server between sql win ≡ gets win')
      × (win'.cur_tab_sel ≡ win.cur_tab_sel)
      × (win'.list ≡ shown (f ∷ fs) rs)
      × (stream_at server win'.tcp_client ≡ rest)
unfolding show_table
table_shown server between sql win f fs rs rest t c is_table fits fits' short sent came =
    let (_, (s, shows, left)) =
      result_roundtrip f fs rs rest (between t) server c is_table fits fits' short came in
    let win' : Window = record win {
      list = shown (f ∷ fs) rs;
      tcp_client = s;
      complains = false;
    } in
    (win', rw (sent, shows), refl, refl, left)

tab_sql-length : (tab : Tab) → length (tab_sql tab) < 30
unfolding tab_sql
tab_sql-length students = omega arith
tab_sql-length courses = omega arith
tab_sql-length classes = omega arith
tab_sql-length selections = omega arith

-- A click on a tab: the statement for its table is put on the send list, as long as the numbers
-- stay below 2 ^ 31; and when, by whatever the threads of the socket do then, a result set has
-- arrived whole, without NULL, with at least one column, texts without 0 and sizes that fit the
-- buffers, in front of whatever else in a stream of fewer than 2 ^ 31 bytes, then the handler
-- returns, with this tab as the current one and with its table in the list: the columns under their
-- headings, and every row.
pub on_selchange_tab_lem :
    (server : SockAddr) (between : TcpSocket → TcpSocket) (tab : Tab) (win : Window) (f : List ℕ)
    (fs : List (List ℕ)) (rs : List (List (List ℕ))) (rest : List ℕ)
    → (conn_at server win.tcp_client.connect_map).next_send_seq + 2 < int_limit
    → Clean (f ∷ fs)
    → IsTable (length (f ∷ fs)) rs
    → length (field_bytes (f ∷ fs)) ≤ buf_len
    → length (table_bytes rs) ≤ buf_len
    → length (block (field_bytes (f ∷ fs)) ++ (block (table_bytes rs) ++ rest)) < int_limit
    → ((t : TcpSocket)
        → send_sql win.tcp_client server (tab_sql tab) ≡ some t
        → stream_at server (between t)
          ≡ block (field_bytes (f ∷ fs)) ++ (block (table_bytes rs) ++ rest))
    → (t : TcpSocket) × (win' : Window) × (send_sql win.tcp_client server (tab_sql tab) ≡ some t)
      × (on_selchange_tab server between tab win ≡ gets win')
      × (win'.cur_tab_sel ≡ tab)
      × (win'.list ≡ shown (f ∷ fs) rs)
      × (stream_at server win'.tcp_client ≡ rest)
unfolding on_selchange_tab
on_selchange_tab_lem server between tab win f fs rs rest room c is_table fits fits' short came =
    let short' = tab_sql-length tab in
    let (t, sent, _) =
      send_sql_lem win.tcp_client server (tab_sql tab) (omega arith) (omega arith) in
    let (win', shows, kept, listed, left) =
      table_shown server between (tab_sql tab) (record win { cur_tab_sel = tab }) f fs rs rest t c
        is_table fits fits' short sent (came t sent) in
    (t, win', sent, shows, kept, listed, left)

recv_nothing :
    (s : TcpSocket) (addr : SockAddr) (n : ℕ) → stream_at addr s ≡ [] → recv s addr n ≡ waits
unfolding recv
recv_nothing s addr n e =
    ap (put_receipt s addr) (take_bytes_empty (conn_at addr s.connect_map).byte_stream n e)

-- The start of the window when `Connect` has failed: the window does not stop there. As long as the
-- numbers stay below 2 ^ 31, it puts the statement for the students on the send list, and waits, as
-- long as nothing arrives.
pub refused_waits :
    (server : SockAddr) (between : TcpSocket → TcpSocket) (net : Peer) (win : Window)
    → let c = connect net server win.tcp_client in
      c.ok ≡ false
      → (conn_at server c.socket.connect_map).next_send_seq + 2 < int_limit
      → ((t : TcpSocket)
          → send_sql c.socket server (tab_sql students) ≡ some t
          → stream_at server (between t) ≡ [])
      → (t : TcpSocket) × (send_sql c.socket server (tab_sql students) ≡ some t)
        × (on_init_window server between net win ≡ waits)
unfolding on_init_window show_table show_list
refused_waits server between net win refused room nothing =
    let c = connect net server win.tcp_client in
    let short = tab_sql-length students in
    let (t, sent, _) =
      send_sql_lem c.socket server (tab_sql students) (omega arith) (omega arith) in
    (t, sent, rw (sent, recv_nothing (between t) server 4 (nothing t sent)))
