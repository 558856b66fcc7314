-- ===== src/Dialog/Window.antt =====
-- SchoolSystem/SchoolSystemDlg.cpp: the handlers of the main window as a whole: they ask the server,
-- wait for its answer, and change the list. `between` is what the threads of the socket do after the
-- statement has been put on the send list, up to the answer.
pub mod Tables
pub mod Changes
use school_system.Base.{
  ℕ, Bool, true, false, Option, none, some, List, [], ◌∷◌, codes, if◌then◌else◌,
}
use school_system.Tcp.Address.{SockAddr}
use school_system.Tcp.Socket.{TcpSocket, Receipt, gets, and_then, recv}
use school_system.Tcp.Client
use school_system.Tcp.Client.{Peer, Connected, connect}
use school_system.Server.Requests.{send_sql, int_read}
use school_system.Dialog.ListCtrl.{ListCtrl, get_item_text}
use school_system.Dialog.Show.{or_undefined, show_list}
use school_system.Dialog.Statements.{Entry, insert_sql, update_sql, select_sql}
use school_system.Dialog.Edit.{
  Tab, students, courses, classes, selections, Shown, insert_answered, delete_sql, delete_answered,
  prefilled, update_answered,
}
use school_system.Dialog.Inputs.{new_dialog}

-- The members of the window that the handlers work on, and whether the last of them opened a message
-- box.
pub record Window : Type 0 where
  pub cur_tab_sel : Tab
  pub list : ListCtrl
  pub tcp_client : TcpSocket
  pub complains : Bool

-- The statement of `OnTcnSelchangeTab`
unfoldable pub tab_sql : Tab → List ℕ
tab_sql students = codes "SELECT * FROM t_student"
tab_sql courses = codes "SELECT * FROM t_course"
tab_sql classes = codes "SELECT * FROM t_class"
tab_sql selections = codes "SELECT * FROM t_select"

-- The statement of `OnBnClickedButtonUnionSelect`
unfoldable pub union_sql : List ℕ
union_sql =
    codes
      "select A.*, B.course_id, B.course_name, B.score from (select t_student.*, t_class.class_name from t_student left join t_class on t_student.class_id = t_class.class_id) as A inner join(select t_select.stu_id, t_select.course_id, t_course.course_name, t_select.score from t_select left join t_course on t_select.course_id = t_course.course_id) as B on A.stu_id = B.stu_id;"

module _ (server : SockAddr) (between : TcpSocket → TcpSocket) where
  -- `SendSql`, and what happens up to the answer
  abbrev asked : List ℕ → TcpSocket → Receipt TcpSocket
  asked sql s = and_then (or_undefined (send_sql s server sql)) λ t. gets (between t)

  abbrev with_table : Window → ListCtrl × TcpSocket → Receipt Window
  with_table win (l, s) = gets (record win { list = l; tcp_client = s; complains = false })

  -- `SendSql(sql); ShowList();`
  unfoldable pub show_table : List ℕ → Window → Receipt Window
  show_table sql win =
      and_then (asked sql win.tcp_client) λ s. and_then (show_list s server) (with_table win)

  -- `OnTcnSelchangeTab`
  unfoldable pub on_selchange_tab : Tab → Window → Receipt Window
  on_selchange_tab tab win = show_table (tab_sql tab) (record win { cur_tab_sel = tab })

  -- `OnBnClickedButtonUnionSelect`
  unfoldable pub on_union_select : Window → Receipt Window
  on_union_select win = show_table union_sql win

  abbrev select_with : Window → Option Entry → Receipt Window
  select_with win none = gets (record win { complains = false })
  select_with win (some e) = show_table (select_sql e) win

  -- `OnBnClickedButtonSelect`; `dialog` is `DoModal`, which is given the texts of the dialog.
  unfoldable pub on_select : (dialog : Entry → Option Entry) → Window → Receipt Window
  on_select dialog win = select_with win (dialog (new_dialog win.cur_tab_sel))

  abbrev with_answer : Window → (ℕ → ListCtrl → Shown) → ℕ × TcpSocket → Receipt Window
  with_answer win change (n_success, s) =
      let r = change n_success win.list in
      gets (record win { list = r.list; tcp_client = s; complains = r.complains })

  -- `SendSql(sql); int nSuccess = 0; m_tcpClient.Recv((char*)&nSuccess, sizeof(nSuccess));`, and what
  -- becomes of the list
  unfoldable pub change_table : List ℕ → (ℕ → ListCtrl → Shown) → Window → Receipt Window
  change_table sql change win =
      and_then (asked sql win.tcp_client)
        λ s. and_then (and_then (Client.recv s server 4) (int_read 0)) (with_answer win change)

  abbrev insert_with : Window → Option Entry → Receipt Window
  insert_with win none = gets (record win { complains = false })
  insert_with win (some e) = change_table (insert_sql e) (insert_answered e) win

  -- `OnBnClickedButtonInsert`
  unfoldable pub on_insert : (dialog : Entry → Option Entry) → Window → Receipt Window
  on_insert dialog win = insert_with win (dialog (new_dialog win.cur_tab_sel))

  abbrev pub delete_at : Window → Option ℕ → Receipt Window
  delete_at win none = gets (record win { complains = true })
  delete_at win (some row) =
      change_table (delete_sql win.cur_tab_sel win.list row) (delete_answered row) win

  -- `OnBnClickedButtonDelete`
  unfoldable pub on_delete : Window → Receipt Window
  on_delete win = delete_at win win.list.selection_mark

  abbrev pub update_with : Window → ℕ → Option Entry → Receipt Window
  update_with win row none = gets (record win { complains = false })
  update_with win row (some e) =
      change_table (update_sql e (get_item_text win.list row 0)) (update_answered row e) win

  abbrev pub update_at : (Entry → Option Entry) → Window → Option ℕ → Receipt Window
  update_at dialog win none = gets (record win { complains = true })
  update_at dialog win (some row) =
      update_with win row (dialog (prefilled win.cur_tab_sel win.list row))

  -- `OnBnClickedButtonUpdate`
  unfoldable pub on_update : (dialog : Entry → Option Entry) → Window → Receipt Window
  on_update dialog win = update_at dialog win win.list.selection_mark

  abbrev told : Bool → Window → Receipt Window
  told ok win = gets (if ok then win else record win { complains = true })

  abbrev connected : Window → Connected → Receipt Window
  connected win c =
      and_then
        (show_table (tab_sql students)
          (record win { cur_tab_sel = students; tcp_client = c.socket }))
        (told c.ok)

  -- `OnInitDialog`: the statement is sent and the answer is waited for whether `Connect` succeeded or
  -- not.
  unfoldable pub on_init_window : Peer → Window → Receipt Window
  on_init_window net win = connected win (connect net server win.tcp_client)
