-- ===== src/Dialog/Window/Changes.antt =====
-- SchoolSystem/SchoolSystemDlg.cpp: the buttons Insert, Delete and Update, from the click to the list.
use school_system.Base.{
  ℕ, ◌+◌, ◌<◌, ◌≡◌, refl, ap, ◌∙◌, inl, inr, Bool, Bool-cases, Option, some, List, ◌∷◌, ◌++◌, ◌==◌,
  if◌then◌else◌, length, arith, int_bytes, int_limit, int_mod, minus_one,
}
use school_system.Tcp.Address.{SockAddr}
use school_system.Tcp.Conn.{conn_at}
use school_system.Tcp.Socket.{TcpSocket, gets}
use school_system.Tcp.Socket.Fragments.{fragment_count}
use school_system.Tcp.Socket.Reception.{stream_at}
use school_system.Server.Requests.{send_sql}
use school_system.Server.Sending.{send_sql_lem}
use school_system.Dialog.ListCtrl.{ListCtrl, get_item_text}
use school_system.Dialog.RoundTrip.{int_front}
use school_system.Dialog.Statements.{Entry, values, insert_sql, update_sql}
use school_system.Dialog.Edit.{
  Shown, insert_answered, insert_answered_lem, delete_sql, delete_answered, delete_answered_lem,
  prefilled, update_answered, updated_row, update_answered_lem,
}
use school_system.Dialog.Inputs.{new_dialog}
use school_system.Dialog.Window.{
  Window, change_table, on_insert, on_delete, on_update, delete_at, update_at, update_with,
}

-- The packets of a statement have numbers below 2 ^ 31.
abbrev pub HasRoom : SockAddr → List ℕ → TcpSocket → Type 0
HasRoom server sql s =
    (conn_at server s.connect_map).next_send_seq + 1 + fragment_count (length sql + 1) < int_limit

-- When the statement has been put on the send list and the threads have done what they do, the
-- answer stands in front of the stream.
abbrev pub Answered : SockAddr → (TcpSocket → TcpSocket) → List ℕ → TcpSocket → ℕ → List ℕ → Type 0
Answered server between sql s n rest =
    (t : TcpSocket)
    → send_sql s server sql ≡ some t
    → stream_at server (between t) ≡ int_bytes n ++ rest

-- A handler has sent the statement and changed the window: its rows are these, and it has told of a
-- failure or not.
abbrev pub Changed :
    SockAddr → List ℕ → Window → Bool → List (List (List ℕ)) → List ℕ → Window → Type 0
Changed server sql win failed rows rest win' =
    (win'.list.rows ≡ rows)
    × (win'.complains ≡ failed)
    × (win'.cur_tab_sel ≡ win.cur_tab_sel)
    × (stream_at server win'.tcp_client ≡ rest)
    × ((t : TcpSocket) × (send_sql win.tcp_client server sql ≡ some t))

change_table_lem :
    (server : SockAddr) (between : TcpSocket → TcpSocket) (sql : List ℕ)
    (change : ℕ → ListCtrl → Shown) (win : Window) (n : ℕ) (rest : List ℕ) (failed : Bool)
    (rows : List (List (List ℕ)))
    → ((change n win.list).list.rows ≡ rows) × ((change n win.list).complains ≡ failed)
    → length sql + 1 < int_limit
    → HasRoom server sql win.tcp_client
    → n < int_mod
    → length (int_bytes n ++ rest) < int_limit
    → Answered server between sql win.tcp_client n rest
    → (win' : Window) × (change_table server between sql change win ≡ gets win')
      × Changed server sql win failed rows rest win'
unfolding change_table
change_table_lem server between sql change win n rest failed rows shows small room big short came =
    let (t, sent, _) = send_sql_lem win.tcp_client server sql small room in
    let (s, reads, left) = int_front (between t) server 0 n rest big (came t sent) short in
    let r = change n win.list in
    let win' : Window = record win { list = r.list; tcp_client = s; complains = r.complains } in
    (win', rw (sent, reads), (shows.0, shows.1, refl, left, (t, sent)))

-- What the three changes make of the rows, after any answer.
insert_shows :
    (e : Entry) (n : ℕ) (l : ListCtrl)
    → ((insert_answered e n l).list.rows ≡ (if n == minus_one then l.rows else values e ∷ l.rows))
      × ((insert_answered e n l).complains ≡ (n == minus_one))
unfolding insert_answered
insert_shows e n l = elim (Bool-cases (n == minus_one)) [
  | inl y ↦ rw y (refl, refl)
  | inr y ↦ rw y (rw y at (insert_answered_lem e n l (ground (arith, y))).0, refl)
]

module _ (before : List (List (List ℕ))) (r : List (List ℕ)) (after : List (List (List ℕ)))
    (l : ListCtrl) (is_there : l.rows ≡ before ++ r ∷ after) where
  delete_shows :
      (n : ℕ)
      → ((delete_answered (length before) n l).list.rows
          ≡ (if n == minus_one then l.rows else before ++ after))
        × ((delete_answered (length before) n l).complains ≡ (n == minus_one))
  unfolding delete_answered
  delete_shows n = elim (Bool-cases (n == minus_one)) [
    | inl y ↦ rw y (refl, refl)
    | inr y ↦
        rw y (rw y at (delete_answered_lem n l before r after is_there (ground (arith, y))).0, refl)
  ]

  update_shows :
      (e : Entry) (n : ℕ)
      → ((update_answered (length before) e n l).list.rows
          ≡ (if n == minus_one then l.rows else before ++ updated_row e r ∷ after))
        × ((update_answered (length before) e n l).complains ≡ (n == minus_one))
  unfolding update_answered
  update_shows e n = elim (Bool-cases (n == minus_one)) [
    | inl y ↦ rw y (refl, refl)
    | inr y ↦
        rw y
          (rw y at (update_answered_lem n e l before r after is_there (ground (arith, y))).0, refl)
  ]

-- The button Insert, when the dialog gives texts, and an answer comes: as long as the numbers of
-- the packets and the bytes of the stream stay below 2 ^ 31, the statement made of the texts was
-- sent, the answer was taken from the stream and nothing else, and the handler returns. If the
-- answer is -1, the rows are as they were and a message box tells of it; else the new row stands on
-- top of them, with the texts in the order of the columns of the tab's table, and there is no
-- message box.
pub on_insert_lem :
    (server : SockAddr) (between : TcpSocket → TcpSocket) (dialog : Entry → Option Entry)
    (win : Window) (e : Entry) (n : ℕ) (rest : List ℕ)
    → dialog (new_dialog win.cur_tab_sel) ≡ some e
    → length (insert_sql e) + 1 < int_limit
    → HasRoom server (insert_sql e) win.tcp_client
    → n < int_mod
    → length (int_bytes n ++ rest) < int_limit
    → Answered server between (insert_sql e) win.tcp_client n rest
    → (win' : Window) × (on_insert server between dialog win ≡ gets win')
      × Changed server
          (insert_sql e)
          win
          (n == minus_one)
          (if n == minus_one then win.list.rows else values e ∷ win.list.rows)
          rest
          win'
unfolding on_insert
on_insert_lem server between dialog win e n rest given small room big short came = rw given (
    change_table_lem server between (insert_sql e) (insert_answered e) win n rest _ _
      (insert_shows e n win.list) small room big short came)

-- The button Delete, when a row is selected, and an answer comes: as long as the numbers of the
-- packets and the bytes of the stream stay below 2 ^ 31, the statement made of the key of this row
-- was sent, the answer was taken from the stream and nothing else, and the handler returns. If the
-- answer is -1, the rows are as they were and a message box tells of it; else the selected row is
-- gone and the others stand as they stood, and there is no message box.
pub on_delete_lem :
    (server : SockAddr) (between : TcpSocket → TcpSocket) (win : Window)
    (before : List (List (List ℕ))) (r : List (List ℕ)) (after : List (List (List ℕ))) (n : ℕ)
    (rest : List ℕ)
    → win.list.selection_mark ≡ some (length before)
    → win.list.rows ≡ before ++ r ∷ after
    → let sql = delete_sql win.cur_tab_sel win.list (length before) in
      length sql + 1 < int_limit
      → HasRoom server sql win.tcp_client
      → n < int_mod
      → length (int_bytes n ++ rest) < int_limit
      → Answered server between sql win.tcp_client n rest
      → (win' : Window) × (on_delete server between win ≡ gets win')
        × Changed server sql win
            (n == minus_one)
            (if n == minus_one then win.list.rows else before ++ after)
            rest
            win'
unfolding on_delete
on_delete_lem server between win before r after n rest selected is_there small room big short came =
    let (win', runs, changed) =
      change_table_lem server between (delete_sql win.cur_tab_sel win.list (length before))
        (delete_answered (length before)) win n rest _ _
        (delete_shows before r after win.list is_there n) small room big short came in
    (win', ap (delete_at server between win) selected ∙ runs, changed)

-- The button Update, when a row is selected, the dialog, which shows the cells of this row, gives
-- texts, and an answer comes: as long as the numbers of the packets and the bytes of the stream
-- stay below 2 ^ 31, the statement made of the texts and of the key of the row was sent, the answer
-- was taken from the stream and nothing else, and the handler returns. If the answer is -1, the
-- rows are as they were and a message box tells of it; else the selected row holds the texts (of a
-- selection of a course only the new score) and the others stand as they stood, and there is no
-- message box.
pub on_update_lem :
    (server : SockAddr) (between : TcpSocket → TcpSocket) (dialog : Entry → Option Entry)
    (win : Window) (e : Entry) (before : List (List (List ℕ))) (r : List (List ℕ))
    (after : List (List (List ℕ))) (n : ℕ) (rest : List ℕ)
    → win.list.selection_mark ≡ some (length before)
    → win.list.rows ≡ before ++ r ∷ after
    → dialog (prefilled win.cur_tab_sel win.list (length before)) ≡ some e
    → let sql = update_sql e (get_item_text win.list (length before) 0) in
      length sql + 1 < int_limit
      → HasRoom server sql win.tcp_client
      → n < int_mod
      → length (int_bytes n ++ rest) < int_limit
      → Answered server between sql win.tcp_client n rest
      → (win' : Window) × (on_update server between dialog win ≡ gets win')
        × Changed server sql win
            (n == minus_one)
            (if n == minus_one then win.list.rows else before ++ updated_row e r ∷ after)
            rest
            win'
unfolding on_update
on_update_lem server between dialog win e before r after n rest selected is_there given small room
      big short came =
    let (win', runs, changed) =
      change_table_lem server between (update_sql e (get_item_text win.list (length before) 0))
        (update_answered (length before) e) win n rest _ _
        (update_shows before r after win.list is_there e n) small room big short came in
    (
      win',
      ap (update_at server between dialog win) selected
          ∙ ap (update_with server between win (length before)) given
          ∙ runs,
      changed,
    )
