-- ===== src/Tests/Windows.antt =====
-- SchoolSystem/SchoolSystemDlg.cpp and its dialogs: edit controls that keep their texts, and answers
-- that have come.
use school_system.Base.{
  ℕ, ◌<◌, ◌≡◌, refl, Bool, true, false, none, some, List, [], ◌∷◌, ◌++◌, ◌==◌, if◌then◌else◌, arith,
  length, codes, int_bytes,
}
use school_system.Tcp.Address.{less}
use school_system.Tcp.Conn.{conn_at, modify}
use school_system.Tcp.Socket.{TcpSocket, waits, gets}
use school_system.Tcp.Socket.Reception.{stream_at}
use school_system.Tcp.Client.{Peer, connect}
use school_system.Server.Requests.{send_sql}
use school_system.Dialog.Show.{shown}
use school_system.Dialog.Statements.{insert_sql, update_sql, values}
use school_system.Dialog.Edit.{students, classes, delete_sql, updated_row}
use school_system.Dialog.Inputs.{Controls, IsExchange, on_init_dialog, texts, do_modal}
use school_system.Dialog.Inputs.Exchange.{do_modal_lem}
use school_system.Dialog.Window.{
  Window, tab_sql, on_selchange_tab, on_init_window, on_insert, on_delete, on_update,
}
use school_system.Dialog.Window.Tables.{on_selchange_tab_lem, refused_waits}
use school_system.Dialog.Window.Changes.{Changed, on_insert_lem, on_delete_lem, on_update_lem}
use school_system.Base.{map, ltb, range_from, ap, sym, ◌∙◌, c_string}
use school_system.Tcp.Packet.{data_image}
use school_system.Tcp.Receive.Index.{member}
use school_system.Tcp.Receive.Delivery.{IsFresh}
use school_system.Tcp.Socket.Fragments.{queued}
use school_system.Tcp.Socket.Batches.{arrivals}
use school_system.Server.Results.{field_bytes, send_res}
use school_system.Dialog.Show.{show_list}
use school_system.Dialog.Show.Loops.{full_rows}
use school_system.Dialog.Arrival.{table_packet, table_count, result_arrives}
use school_system.Tests.Messages.{
  client, socket_with, socket_with_lem, one_row, answer_bytes, names_short, rows_short,
  answer_short, li_lei, first_row, old_row, last_row, old_list, first_number,
}

-- The text of each control.
abbrev Screen : Type 0
Screen = ℕ → List ℕ

abbrev exchanged : Bool → ℕ → List ℕ → Screen → List ℕ × Screen
exchanged true id t w = (w id, w)
exchanged false id t w = (t, λ j. if j == id then t else w j)

abbrev screen : Controls Screen
screen = record { edit_text = λ id w. w id; ddx_text = exchanged }

screen-IsExchange : IsExchange screen
screen-IsExchange = record {
  saves = λ id t w. refl;
  keeps = λ id t w. refl;
  loads = λ id j t w. refl;
}

-- The user types a name, the control of which is 1014.
abbrev types_name : Screen → Screen
types_name w = λ j. if j == 1014 then codes "Han" else w j

abbrev blank : Screen
blank = λ j. []

do_modal_lem_example :
    let opened = (on_init_dialog screen li_lei blank).1 in
    (texts screen li_lei opened ≡ li_lei)
    × (do_modal screen types_name true li_lei blank
        ≡ some (texts screen li_lei (types_name opened)))
    × (do_modal screen (λ v. v) true li_lei blank ≡ some li_lei)
    × (do_modal screen types_name false li_lei blank ≡ none)
do_modal_lem_example = do_modal_lem screen screen-IsExchange types_name li_lei blank

abbrev old_window : Window
old_window = record {
  cur_tab_sel = students;
  list = old_list;
  tcp_client = socket_with [];
  complains = false;
}

on_selchange_tab_lem_example :
    (t : TcpSocket) × (win' : Window) × (send_sql (socket_with []) client (tab_sql classes)
      ≡ some t)
    × (on_selchange_tab client (λ _. socket_with answer_bytes) classes old_window ≡ gets win')
    × (win'.cur_tab_sel ≡ classes)
    × (win'.list ≡ shown (codes "class_id" ∷ codes "class_name" ∷ []) one_row)
    × (stream_at client win'.tcp_client ≡ [])
on_selchange_tab_lem_example =
    on_selchange_tab_lem client (λ _. socket_with answer_bytes) classes old_window
      (codes "class_id") (codes "class_name" ∷ []) one_row [] (omega (arith, first_number))
      (omega arith) ((refl, omega arith), tt) names_short rows_short answer_short
      (λ t sent. socket_with_lem answer_bytes)

insert_short : length (insert_sql li_lei) < 200
unfolding insert_sql
insert_short = omega arith

delete_short : length (delete_sql students old_list 1) < 200
unfolding delete_sql
delete_short = omega arith

update_short : length (update_sql li_lei (codes "s0")) < 200
unfolding update_sql
update_short = omega arith

-- The answer: one row was changed.
abbrev one_changed : TcpSocket
one_changed = socket_with (int_bytes 1 ++ [])

on_insert_lem_example :
    (win' : Window) × (on_insert client (λ _. one_changed) (λ _. some li_lei) old_window
      ≡ gets win')
    × Changed client (insert_sql li_lei) old_window false (values li_lei ∷ old_list.rows) [] win'
on_insert_lem_example =
    on_insert_lem client (λ _. one_changed) (λ _. some li_lei) old_window li_lei 1 [] refl
      (omega (arith, insert_short)) (omega (arith, insert_short, first_number)) (omega arith)
      (omega arith) (λ t sent. socket_with_lem (int_bytes 1 ++ []))

on_delete_lem_example :
    (win' : Window) × (on_delete client (λ _. one_changed) old_window ≡ gets win')
    × Changed client
        (delete_sql students old_list 1)
        old_window
        false
        (first_row ∷ last_row ∷ [])
        []
        win'
on_delete_lem_example =
    on_delete_lem client (λ _. one_changed) old_window (first_row ∷ []) old_row (last_row ∷ []) 1 []
      refl refl (omega (arith, delete_short)) (omega (arith, delete_short, first_number))
      (omega arith) (omega arith) (λ t sent. socket_with_lem (int_bytes 1 ++ []))

on_update_lem_example :
    (win' : Window) × (on_update client (λ _. one_changed) (λ _. some li_lei) old_window
      ≡ gets win')
    × Changed client
        (update_sql li_lei (codes "s0"))
        old_window
        false
        (first_row ∷ updated_row li_lei old_row ∷ last_row ∷ [])
        []
        win'
on_update_lem_example =
    on_update_lem client (λ _. one_changed) (λ _. some li_lei) old_window li_lei (first_row ∷ [])
      old_row (last_row ∷ []) 1 [] refl refl refl (omega (arith, update_short))
      (omega (arith, update_short, first_number)) (omega arith) (omega arith)
      (λ t sent. socket_with_lem (int_bytes 1 ++ []))

-- The system gives no socket.
abbrev no_peer : Peer
no_peer = record { socket_ok = false; hello_ok = false; now = 0; reply = none; ack_ok = false }

refused_lem : (connect no_peer client (socket_with [])).ok ≡ false
unfolding connect
refused_lem = refl

refused_number :
    (conn_at client (connect no_peer client (socket_with [])).socket.connect_map).next_send_seq ≡ 0
unfolding connect conn_at modify less
refused_number = refl

refused_waits_example :
    let c = connect no_peer client (socket_with []) in
    (t : TcpSocket) × (send_sql c.socket client (tab_sql students) ≡ some t)
    × (on_init_window client (λ _. socket_with []) no_peer old_window ≡ waits)
refused_waits_example =
    refused_waits client (λ _. socket_with []) no_peer old_window refused_lem
      (omega (arith, refused_number)) (λ t sent. socket_with_lem [])

-- Four packets take the small table.
small_table : table_count (codes "class_id" ∷ codes "class_name" ∷ []) one_row ≡ 4
unfolding field_bytes c_string
small_table = refl

all_four : (i : ℕ) → member i (2 ∷ 0 ∷ 3 ∷ 1 ∷ []) ≡ ltb i 4
all_four i = ground arith

nothing_yet : IsFresh 0 (conn_at client (socket_with []).connect_map)
unfolding conn_at less
nothing_yet = record { next = refl; empty = refl }

result_arrives_example :
    let fs = codes "class_id" ∷ codes "class_name" ∷ [] in
    (t : TcpSocket) × (k1 : TcpSocket) × (k2 : TcpSocket) × (send_res
        (record { fields = fs; rows = full_rows one_row })
        client
        (socket_with [])
      ≡ some t)
    × (t.send_list
        ≡ map
            (λ i. queued client (table_packet 0 fs one_row i))
            (range_from 0 (table_count fs one_row)))
    × (arrivals client
          (map (λ i. data_image (table_packet 0 fs one_row i)) (2 ∷ 0 ∷ 3 ∷ 1 ∷ []))
          (socket_with [])
        ≡ some k1)
    × (show_list k1 client ≡ gets (shown fs one_row, k2))
    × (stream_at client k2 ≡ [])
unfolding conn_at less
result_arrives_example =
    result_arrives (codes "class_id") (codes "class_name" ∷ []) one_row (socket_with []) client
      (socket_with []) client (2 ∷ 0 ∷ 3 ∷ 1 ∷ []) (omega arith) ((refl, omega arith), tt)
      names_short rows_short (omega arith) (omega (arith, small_table))
      (refl, (refl, (refl, (refl, tt)))) (λ i. all_four i ∙ ap (ltb i) (sym small_table))
      nothing_yet (socket_with_lem [])
