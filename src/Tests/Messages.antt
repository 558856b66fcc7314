-- ===== src/Tests/Messages.antt =====
-- SchoolSystemServer/CServer.cpp and SchoolSystem/SchoolSystemDlg.cpp: concrete statements and
-- result sets, and a database that only keeps the statements that it was asked.
use school_system.Base.{
  int_limit, ◌<◌, Bool, ◌==◌, ◌||◌, if◌then◌else◌, ℕ, c_string, ◌≤◌, ◌≡◌, refl, ◌≢◌, ◌⊎◌, true,
  false, none, some, List, [], ◌∷◌, ◌++◌, arith, length, codes, is_negative,
}
use school_system.Mysql
use school_system.Mysql.{MysqlRes, MysqlApi, query}
use school_system.Tcp.Address.{SockAddr, less}
use school_system.Tcp.Conn.{new_conn, conn_at}
use school_system.Tcp.Socket.{TcpSocket, gets}
use school_system.Tcp.Socket.Reception.{stream_at}
use school_system.Tcp.Server.{Network, listen}
use school_system.Server.Tables.{
  table_statements, create_tables, run_statements, Succeed, ran, init, create_tables_lem,
  init_order,
}
use school_system.Server.Requests.{buf_len, recv_sql, request_truncated}
use school_system.Server.Results.{field_bytes, block, res_bytes}
use school_system.Base.{Holds}
use school_system.Tcp.Conn.{in_use}
use school_system.Server.Tasks.{SqlTask, execute, execute_frees}
use school_system.Dialog.ListCtrl.{ListCtrl}
use school_system.Dialog.Statements.{Entry, student, insert_sql, values}
use school_system.Dialog.Statements.Literals.{
  SqlReader, IsMysql, is_literal, plain_no_quote, insert_literals,
}
use school_system.Dialog.Show.{heading, shown, show_list}
use school_system.Dialog.Show.Loops.{full_rows, table_bytes}
use school_system.Dialog.RoundTrip.{result_roundtrip}

abbrev pub log_api : MysqlApi (List (List ℕ))
log_api = record {
  mysql_library_init = λ st. (0, st);
  mysql_init = λ st. (true, st);
  mysql_set_character_set = λ st name. (0, st);
  mysql_real_connect = λ st host user password port. (true, st);
  mysql_query = λ st sql. (0, st ++ sql ∷ []);
  mysql_affected_rows = λ st. 0;
  mysql_use_result = λ st. (none, st);
  mysql_close = λ st. st;
  mysql_library_end = λ st. st;
}

create_tables_lem_example :
    (Succeed log_api table_statements []
      × (create_tables log_api [] ≡ (true, ran log_api table_statements [])))
    ⊎ ((before : List (List ℕ)) × (sql : List ℕ) × (after : List (List ℕ)) × (table_statements
          ≡ before ++ sql ∷ after)
        × Succeed log_api before []
        × (is_negative (query log_api sql (ran log_api before [])).0 ≡ true)
        × (create_tables log_api [] ≡ (false, (query log_api sql (ran log_api before [])).1)))
create_tables_lem_example = create_tables_lem log_api []

abbrev pub good_network : Network
good_network = record {
  socket_ok = true;
  bind_ok = true;
  htons = λ port. port;
  inet_pton = λ ip. 16777343;
}

init_asks : (init log_api good_network []).2 ≢ []
unfolding init create_tables run_statements Mysql.init query listen
init_asks e = cc

init_order_example :
    let m = Mysql.init log_api (codes "gbk") (codes "localhost") (codes "root") (codes "root") [] in
    (m.0 ≡ true) × Succeed log_api table_statements m.1
init_order_example = init_order log_api good_network [] init_asks

abbrev pub client : SockAddr
client = record { sin_family = 2; sin_port = 1000; s_addr = 5 }

-- A socket on which a client's bytes have arrived.
abbrev pub socket_with : List ℕ → TcpSocket
socket_with b = record {
  connect_map = (client, record new_conn { byte_stream = record { vt_buf = b } }) ∷ [];
  send_list = [];
}

pub socket_with_lem : (b : List ℕ) → stream_at client (socket_with b) ≡ b
unfolding conn_at less
socket_with_lem b = refl

abbrev pub use_test : List ℕ
use_test = codes "USE test;"

request_truncated_example :
    (s' : TcpSocket) × (recv_sql (socket_with (codes "DELETE FROM t_student")) client 4000
      ≡ gets (codes "DELETE FROM t_student", s'))
    × (stream_at client s' ≡ [])
request_truncated_example =
    request_truncated (socket_with (codes "DELETE FROM t_student")) client
      (codes "DELETE FROM t_student") 4000 (omega arith) (omega arith) (omega arith) (omega arith)
      (omega arith) (socket_with_lem (codes "DELETE FROM t_student"))

abbrev pub one_row : List (List (List ℕ))
one_row = (codes "c1" ∷ codes "A" ∷ []) ∷ []

abbrev pub answer_bytes : List ℕ
answer_bytes =
    block (field_bytes (codes "class_id" ∷ codes "class_name" ∷ []))
    ++ (block (table_bytes one_row) ++ [])

pub names_short : length (field_bytes (codes "class_id" ∷ codes "class_name" ∷ [])) ≤ buf_len
unfolding field_bytes c_string
names_short = omega arith

pub rows_short : length (table_bytes one_row) ≤ buf_len
unfolding field_bytes c_string
rows_short = omega arith

pub answer_short :
    length (
      block (field_bytes (codes "class_id" ∷ codes "class_name" ∷ []))
      ++ (block (table_bytes one_row) ++ []))
    < int_limit
unfolding field_bytes c_string
answer_short = omega arith

result_roundtrip_example :
    (res_bytes
        (record { fields = codes "class_id" ∷ codes "class_name" ∷ []; rows = full_rows one_row })
      ≡ some (
          block (field_bytes (codes "class_id" ∷ codes "class_name" ∷ []))
          ++ block (table_bytes one_row)))
    × ((s' : TcpSocket) × (show_list (socket_with answer_bytes) client
          ≡ gets (shown (codes "class_id" ∷ codes "class_name" ∷ []) one_row, s'))
        × (stream_at client s' ≡ []))
result_roundtrip_example =
    result_roundtrip (codes "class_id") (codes "class_name" ∷ []) one_row []
      (socket_with answer_bytes) client (omega arith) ((refl, omega arith), tt) names_short
      rows_short answer_short (socket_with_lem answer_bytes)

abbrev use_task : SqlTask
use_task = record { addr = client; sql = use_test }

execute_frees_example :
    Holds {A = List (List ℕ) × TcpSocket}
      (λ r. (conn_at client r.1.connect_map).status ≢ in_use)
      (execute log_api use_task [] (socket_with []))
execute_frees_example = execute_frees log_api use_task [] (socket_with [])

abbrev pub li_lei : Entry
li_lei = student (record { stu_id = codes "s1"; stu_name = codes "Li Lei"; class_id = codes "c1" })

abbrev read_literals : (inside : Bool) → List ℕ → List (List ℕ) → List ℕ → List (List ℕ)
read_literals inside text found [] = found
read_literals false text found (c ∷ cs) =
    let inner = read_literals true [] found cs in
    let outer = read_literals false [] found cs in if c == 39 then inner else outer
read_literals true text found (c ∷ cs) =
    let more = read_literals true (text ++ c ∷ []) found cs in
    let closed = read_literals false [] (found ++ text ∷ []) cs in if c == 39 then closed else more

literal_no_quote : (c : ℕ) → is_literal c ≡ true → (c == 39) ≡ false
literal_no_quote c h = ground arith

opener_no_quote : (d : ℕ) → (d == 40 || d == 32) ≡ true → (d == 39) ≡ false
opener_no_quote d h = ground arith

-- A reader of literals, with what it is documented to do.
abbrev literal_reader : SqlReader
literal_reader = record { outside = read_literals false []; inside = read_literals true }

literal_reader-IsMysql : IsMysql literal_reader
literal_reader-IsMysql = record {
  passes = λ found c d cs h e. rw (plain_no_quote c h) refl;
  ends = λ found c h. rw (plain_no_quote c h) refl;
  opens = λ found d cs h. rw (opener_no_quote d h) refl;
  stands = λ text found c cs h. rw (literal_no_quote c h) refl;
  closes = λ text found d cs h. refl;
}

insert_literals_example : literal_reader.outside [] (insert_sql li_lei) ≡ values li_lei
insert_literals_example = insert_literals literal_reader-IsMysql li_lei (
  (refl, (refl, tt)),
  ((refl, (refl, (refl, (refl, (refl, (refl, tt)))))), ((refl, (refl, tt)), tt)),
)

abbrev pub old_row : List (List ℕ)
old_row = codes "s0" ∷ codes "Han" ∷ codes "c2" ∷ []

abbrev pub first_row : List (List ℕ)
first_row = codes "s9" ∷ codes "Li" ∷ codes "c1" ∷ []

abbrev pub last_row : List (List ℕ)
last_row = codes "s7" ∷ codes "Wu" ∷ codes "c1" ∷ []

abbrev pub old_list : ListCtrl
old_list = record {
  columns = heading (codes "stu_id") ∷ heading (codes "stu_name") ∷ heading (codes "class_id") ∷ [];
  rows = first_row ∷ old_row ∷ last_row ∷ [];
  selection_mark = some 1;
}

pub first_number : (conn_at client (socket_with []).connect_map).next_send_seq ≡ 0
unfolding conn_at less
first_number = refl
