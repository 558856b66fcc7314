-- ===== src/Dialog/Edit.antt =====
-- SchoolSystem/SchoolSystemDlg.cpp: the handlers of the buttons Insert, Delete, Update and Select:
-- what is asked of the server, and what becomes of the list when its answer has come.
use school_system.Base.{
  ℕ, suc, ◌≡◌, ◌≢◌, refl, ap, ◌∙◌, Bool, true, false, Option, none, some, List, [], ◌∷◌, ◌++◌, ◌==◌,
  if◌then◌else◌, length, codes, minus_one, arith,
}
use school_system.Dialog.ListCtrl.{
  ListCtrl, get_item_text, set_item_text, set_row, set_cell, insert_top, without_row, delete_item,
}
use school_system.Dialog.Statements.{
  Entry, student, course, class, select, values, format, insert_sql, update_sql, select_sql,
}

-- `m_nCurTabSel`
pub data Tab : Type 0 where
  students courses classes selections : Tab

-- A handler sends a statement, or nothing: the dialog was cancelled, or no row is selected.
pub data Ask : Type 0 where
  asks : List ℕ → Ask
  cancelled : Ask
  no_row : Ask

-- The list, and whether a message box tells of a failure.
pub record Shown : Type 0 where
  pub list : ListCtrl
  pub complains : Bool

-- `SetItemText` in a row, from a column on.
abbrev pub put_texts : ℕ → ℕ → List (List ℕ) → ListCtrl → ListCtrl
put_texts row col [] l = l
put_texts row col (t ∷ ts) l = put_texts row (suc col) ts (set_item_text row col t l)

-- `OnBnClickedButtonInsert`: what the dialog gives, if it is not cancelled.
abbrev pub insert_asks : Option Entry → Ask
insert_asks none = cancelled
insert_asks (some e) = asks (insert_sql e)

-- The rest of it; `n_success` is the answer, where -1 is a failure.
unfoldable pub insert_answered : Entry → ℕ → ListCtrl → Shown
insert_answered e n_success l =
    if n_success == minus_one
    then record { list = l; complains = true }
    else record { list = put_texts 0 0 (values e) (insert_top l); complains = false }

unfoldable pub delete_sql : Tab → ListCtrl → ℕ → List ℕ
delete_sql students l row =
    format (codes "DELETE FROM t_student WHERE stu_id = '%s'") (get_item_text l row 0 ∷ [])
delete_sql courses l row =
    format (codes "DELETE FROM t_course WHERE course_id = '%s'") (get_item_text l row 0 ∷ [])
delete_sql classes l row =
    format (codes "DELETE FROM t_class WHERE class_id = '%s'") (get_item_text l row 0 ∷ [])
delete_sql selections l row =
    format (codes "DELETE FROM t_select WHERE stu_id = '%s' AND course_id = '%s'")
      (get_item_text l row 0 ∷ get_item_text l row 1 ∷ [])

abbrev delete_asks_at : Tab → ListCtrl → Option ℕ → Ask
delete_asks_at tab l none = no_row
delete_asks_at tab l (some row) = asks (delete_sql tab l row)

-- `OnBnClickedButtonDelete`
abbrev pub delete_asks : Tab → ListCtrl → Ask
delete_asks tab l = delete_asks_at tab l l.selection_mark

unfoldable pub delete_answered : ℕ → ℕ → ListCtrl → Shown
delete_answered row n_success l =
    if n_success == minus_one
    then record { list = l; complains = true }
    else record { list = delete_item row l; complains = false }

-- What the dialog shows at first: the cells of the selected row.
abbrev pub prefilled : Tab → ListCtrl → ℕ → Entry
prefilled students l row = student (record {
  stu_id = get_item_text l row 0;
  stu_name = get_item_text l row 1;
  class_id = get_item_text l row 2;
})
prefilled courses l row =
    course (record { course_id = get_item_text l row 0; course_name = get_item_text l row 1 })
prefilled classes l row =
    class (record { class_id = get_item_text l row 0; class_name = get_item_text l row 1 })
prefilled selections l row = select (record {
  stu_id = get_item_text l row 0;
  course_id = get_item_text l row 1;
  score = get_item_text l row 2;
})

abbrev update_asks_with : ListCtrl → ℕ → Option Entry → Ask
update_asks_with l row none = cancelled
update_asks_with l row (some e) = asks (update_sql e (get_item_text l row 0))

abbrev update_asks_at : Tab → ListCtrl → (Entry → Option Entry) → Option ℕ → Ask
update_asks_at tab l dialog none = no_row
update_asks_at tab l dialog (some row) = update_asks_with l row (dialog (prefilled tab l row))

-- `OnBnClickedButtonUpdate`; `dialog` is what the user makes of the texts that the dialog shows.
abbrev pub update_asks : Tab → ListCtrl → (Entry → Option Entry) → Ask
update_asks tab l dialog = update_asks_at tab l dialog l.selection_mark

-- The cells that are set after an update: of a selection of a course only the score.
abbrev pub put_update : ℕ → Entry → ListCtrl → ListCtrl
put_update row (student d) l = put_texts row 0 (d.stu_id ∷ d.stu_name ∷ d.class_id ∷ []) l
put_update row (course d) l = put_texts row 0 (d.course_id ∷ d.course_name ∷ []) l
put_update row (class d) l = put_texts row 0 (d.class_id ∷ d.class_name ∷ []) l
put_update row (select d) l = set_item_text row 2 d.score l

unfoldable pub update_answered : ℕ → Entry → ℕ → ListCtrl → Shown
update_answered row e n_success l =
    if n_success == minus_one
    then record { list = l; complains = true }
    else record { list = put_update row e l; complains = false }

-- `OnBnClickedButtonSelect`; `ShowList` follows.
abbrev pub select_asks : Option Entry → Ask
select_asks none = cancelled
select_asks (some e) = asks (select_sql e)

-- After an `INSERT` that did not fail the new row stands on top, with the texts of the dialog, and
-- the other rows follow; after one that failed the list is as it was, and the user is told.
pub insert_answered_lem :
    (e : Entry) (n : ℕ) (l : ListCtrl)
    → n ≢ minus_one
    → ((insert_answered e n l).list.rows ≡ values e ∷ l.rows)
      × ((insert_answered e minus_one l).list ≡ l)
      × ((insert_answered e minus_one l).complains ≡ true)
unfolding insert_answered
insert_answered_lem (student d) n l h = (ground arith, refl, refl)
insert_answered_lem (course d) n l h = (ground arith, refl, refl)
insert_answered_lem (class d) n l h = (ground arith, refl, refl)
insert_answered_lem (select d) n l h = (ground arith, refl, refl)

without_row_lem :
    (before : List (List (List ℕ))) (r : List (List ℕ)) (after : List (List (List ℕ)))
    → without_row (before ++ r ∷ after) (length before) ≡ before ++ after
without_row_lem [] r after = refl
without_row_lem (b ∷ before) r after = ap (◌∷◌ b) (without_row_lem before r after)

-- After a `DELETE` that did not fail the selected row is gone, and every other row is there, in its
-- place; after one that failed the list is as it was.
pub delete_answered_lem :
    (n : ℕ) (l : ListCtrl) (before : List (List (List ℕ))) (r : List (List ℕ))
    (after : List (List (List ℕ)))
    → l.rows ≡ before ++ r ∷ after
    → n ≢ minus_one
    → ((delete_answered (length before) n l).list.rows ≡ before ++ after)
      × ((delete_answered (length before) minus_one l).list ≡ l)
unfolding delete_answered
delete_answered_lem n l before r after e h =
    let other : (n == minus_one) ≡ false = ground arith in
    (rw (other, e) (without_row_lem before r after), refl)

set_row_lem :
    (before : List (List (List ℕ))) (r : List (List ℕ)) (after : List (List (List ℕ))) (col : ℕ)
    (t : List ℕ)
    → set_row (before ++ r ∷ after) (length before) col t ≡ before ++ set_cell r col t ∷ after
set_row_lem [] r after col t = refl
set_row_lem (b ∷ before) r after col t = ap (◌∷◌ b) (set_row_lem before r after col t)

-- The cells of a row, with texts set from a column on.
abbrev pub put_cells : ℕ → List (List ℕ) → List (List ℕ) → List (List ℕ)
put_cells col [] r = r
put_cells col (t ∷ ts) r = put_cells (suc col) ts (set_cell r col t)

put_texts_lem :
    (ts : List (List ℕ)) (col : ℕ) (l : ListCtrl) (before : List (List (List ℕ)))
    (r : List (List ℕ)) (after : List (List (List ℕ)))
    → l.rows ≡ before ++ r ∷ after
    → (put_texts (length before) col ts l).rows ≡ before ++ put_cells col ts r ∷ after
put_texts_lem [] col l before r after e = e
put_texts_lem (t ∷ ts) col l before r after e =
    put_texts_lem ts (suc col) (set_item_text (length before) col t l) before (set_cell r col t)
      after (ap (λ rows. set_row rows (length before) col t) e ∙ set_row_lem before r after col t)

-- The cells of the selected row after an update.
abbrev pub updated_row : Entry → List (List ℕ) → List (List ℕ)
updated_row (select d) r = set_cell r 2 d.score
updated_row e r = put_cells 0 (values e) r

-- After an `UPDATE` that did not fail the selected row holds the texts of the dialog (of a selection
-- of a course only the new score), and no other row has changed; after one that failed the list is
-- as it was.
pub update_answered_lem :
    (n : ℕ) (e : Entry) (l : ListCtrl) (before : List (List (List ℕ))) (r : List (List ℕ))
    (after : List (List (List ℕ)))
    → l.rows ≡ before ++ r ∷ after
    → n ≢ minus_one
    → ((update_answered (length before) e n l).list.rows ≡ before ++ updated_row e r ∷ after)
      × ((update_answered (length before) e minus_one l).list ≡ l)
unfolding update_answered
update_answered_lem n e l before r after h k =
    let other : (n == minus_one) ≡ false = ground arith in (rw other (changed e), refl)
  where
    changed :
        (e : Entry) → (put_update (length before) e l).rows ≡ before ++ updated_row e r ∷ after
    changed (student d) = put_texts_lem (values (student d)) 0 l before r after h
    changed (course d) = put_texts_lem (values (course d)) 0 l before r after h
    changed (class d) = put_texts_lem (values (class d)) 0 l before r after h
    changed (select d) =
        ap (λ rows. set_row rows (length before) 2 d.score) h ∙ set_row_lem before r after 2 d.score
