-- ===== src/Dialog/Show.antt =====
-- SchoolSystem/SchoolSystemDlg.cpp, `ShowList`: a result set is read from the stream and shown.
pub mod Loops
use school_system.Base.{
  ℕ, zero, suc, ◌+◌, ◌-◌, Option, none, some, List, [], ◌∷◌, ◌++◌, ◌>>=◌, ltb, ◌==◌, if◌then◌else◌,
  map, length, drop, replicate, c_string, codes, text_eq,
}
use school_system.Tcp.Address.{SockAddr}
use school_system.Tcp.Client
use school_system.Tcp.Socket.{TcpSocket, Receipt, gets, undefined, and_then}
use school_system.Server.Requests.{buf_len, has_zero, int_read}
use school_system.Dialog.ListCtrl.{ListCtrl}

-- `m_fieldMap`: the headings for the names of the columns, in GBK. A name that is missing has the empty
-- heading.
abbrev pub field_map : List (List ℕ × List ℕ)
field_map =
    (codes "stu_id", 209 ∷ 167 ∷ 201 ∷ 250 ∷ 73 ∷ 68 ∷ [])
    ∷ (codes "stu_name", 209 ∷ 167 ∷ 201 ∷ 250 ∷ 208 ∷ 213 ∷ 195 ∷ 251 ∷ [])
    ∷ (codes "class_id", 176 ∷ 224 ∷ 188 ∷ 182 ∷ 73 ∷ 68 ∷ [])
    ∷ (codes "class_name", 176 ∷ 224 ∷ 188 ∷ 182 ∷ 195 ∷ 251 ∷ [])
    ∷ (codes "course_id", 191 ∷ 206 ∷ 179 ∷ 204 ∷ 73 ∷ 68 ∷ [])
    ∷ (codes "course_name", 191 ∷ 206 ∷ 179 ∷ 204 ∷ 195 ∷ 251 ∷ [])
    ∷ (codes "score", 179 ∷ 201 ∷ 188 ∷ 168 ∷ [])
    ∷ []

unfoldable pub heading_in : List (List ℕ × List ℕ) → List ℕ → List ℕ
heading_in [] name = []
heading_in ((n, label) ∷ m) name = if text_eq n name then label else heading_in m name

abbrev pub heading : List ℕ → List ℕ
heading name = heading_in field_map name

-- The text at `p`, and the memory behind its 0. `none` is a read behind the buffer.
unfoldable pub text_at : List ℕ → Option (List ℕ × List ℕ)
text_at p = if has_zero p then some (c_string p, drop (length (c_string p) + 1) p) else none

-- `while (p < pBuf + nBytes)` over the names of the columns; `left` is the distance to the end.
-- Each round goes at least one byte on, so that fuel as large as `left` is enough.
unfoldable pub show_fields : ℕ → ℕ → List ℕ → Option (List (List ℕ))
show_fields zero left p = if left == 0 then some [] else none
show_fields (suc fuel) left p =
    let rest =
      text_at p >>= λ t. show_fields fuel (left - (length t.0 + 1)) t.1 >>= λ ts. some (t.0 ∷ ts) in
    if left == 0 then some [] else rest

-- The inner loop: the cells of one row, how far it goes on, and the memory behind them.
unfoldable pub show_cells : ℕ → List ℕ → Option (List (List ℕ) × ℕ × List ℕ)
show_cells zero p = some ([], 0, p)
show_cells (suc col) p =
    text_at p >>= λ t. show_cells col t.1 >>= λ r. some (t.0 ∷ r.0, length t.0 + 1 + r.1, r.2)

-- The loop over the rows. With no column it never ends, and runs out of any fuel.
unfoldable pub show_rows : ℕ → ℕ → ℕ → List ℕ → Option (List (List (List ℕ)))
show_rows zero col left p = if left == 0 then some [] else none
show_rows (suc fuel) col left p =
    let rest =
      show_cells col p >>= λ r. show_rows fuel col (left - r.1) r.2 >>= λ rs. some (r.0 ∷ rs) in
    if left == 0 then some [] else rest

-- `Recv` into the buffer, over what stands there.
abbrev pub over_buffer : List ℕ → List ℕ × TcpSocket → Receipt (List ℕ × TcpSocket)
over_buffer old (bytes, s) =
    if ltb buf_len (length bytes) then undefined else gets (bytes ++ drop (length bytes) old, s)

unfoldable pub recv_buffer : TcpSocket → SockAddr → ℕ → List ℕ → Receipt (List ℕ × TcpSocket)
recv_buffer s addr n old = and_then (Client.recv s addr n) (over_buffer old)

abbrev pub or_undefined : {A : Type 0} → Option A → Receipt A
or_undefined none = undefined
or_undefined (some a) = gets a

abbrev pub shown : List (List ℕ) → List (List (List ℕ)) → ListCtrl
shown fields rows = record { columns = map heading fields; rows = rows; selection_mark = none }

-- The second half of `ShowList`, from the length of the records on.
unfoldable pub show_records :
    List (List ℕ) → ℕ → List ℕ → TcpSocket → SockAddr → Receipt (ListCtrl × TcpSocket)
show_records fields old buf s addr = and_then (and_then (Client.recv s addr 4) (int_read old)) λ n.
    if n.0 == 0
    then gets (shown fields [], n.1)
    else and_then (recv_buffer n.1 addr n.0 buf) λ b.
      if ltb buf_len n.0
      then undefined
      else and_then (or_undefined (show_rows n.0 (length fields) n.0 b.0))
          λ rows. gets (shown fields rows, b.1)

-- `CSchoolSystemDlg::ShowList`. `waits` means that it blocks in one of its calls of `Recv`.
unfoldable pub show_list : TcpSocket → SockAddr → Receipt (ListCtrl × TcpSocket)
show_list s addr = and_then (and_then (Client.recv s addr 4) (int_read 0)) λ n.
    and_then (recv_buffer n.1 addr n.0 (replicate buf_len 0)) λ b.
      if ltb buf_len n.0
      then undefined
      else and_then (or_undefined (show_fields n.0 n.0 b.0))
          λ fields. show_records fields n.0 b.0 b.1 addr
