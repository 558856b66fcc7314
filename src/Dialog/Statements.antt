-- ===== src/Dialog/Statements.antt =====
-- SchoolSystem/SchoolSystemDlg.cpp: the statements that the buttons make, and the four dialogs
-- (CStudentDlg, CCourseDlg, CClassDlg, CSelectDlg), whose texts they take.
pub mod Literals
use school_system.Base.{ℕ, Bool, true, false, List, [], ◌∷◌, ◌++◌, ◌==◌, codes}

-- `CString::Format`, for a format whose conversions are all `%s` (37 is the per cent sign);
-- `percent` says that the sign stands in front.
abbrev pub format_from : (percent : Bool) → List ℕ → List (List ℕ) → List ℕ
format_from percent [] args = []
format_from percent (c ∷ cs) [] = c ∷ cs
format_from true (c ∷ cs) (a ∷ args) = a ++ format_from false cs args
format_from false (c ∷ cs) (a ∷ args) = elim (c == 37) [
  | true ↦ format_from true cs (a ∷ args)
  | false ↦ c ∷ format_from false cs (a ∷ args)
]

abbrev pub format : List ℕ → List (List ℕ) → List ℕ
format = format_from false

-- The texts of a dialog.
pub record StudentDlg : Type 0 where
  pub stu_id : List ℕ
  pub stu_name : List ℕ
  pub class_id : List ℕ

pub record CourseDlg : Type 0 where
  pub course_id : List ℕ
  pub course_name : List ℕ

pub record ClassDlg : Type 0 where
  pub class_id : List ℕ
  pub class_name : List ℕ

pub record SelectDlg : Type 0 where
  pub stu_id : List ℕ
  pub course_id : List ℕ
  pub score : List ℕ

-- The dialog of the current tab: `m_nCurTabSel` is 0, 1, 2 or 3.
pub data Entry : Type 0 where
  student : StudentDlg → Entry
  course : CourseDlg → Entry
  class : ClassDlg → Entry
  select : SelectDlg → Entry

-- The texts of an entry in the order of the columns.
abbrev pub values : Entry → List (List ℕ)
values (student d) = d.stu_id ∷ d.stu_name ∷ d.class_id ∷ []
values (course d) = d.course_id ∷ d.course_name ∷ []
values (class d) = d.class_id ∷ d.class_name ∷ []
values (select d) = d.stu_id ∷ d.course_id ∷ d.score ∷ []

-- The statement of `OnBnClickedButtonInsert`.
unfoldable pub insert_sql : Entry → List ℕ
insert_sql (student d) =
    format (codes "INSERT INTO t_student (stu_id, stu_name, class_id) VALUES ('%s', '%s', '%s')")
      (d.stu_id ∷ d.stu_name ∷ d.class_id ∷ [])
insert_sql (course d) =
    format (codes "INSERT INTO t_course (course_id, course_name) VALUES ('%s', '%s')")
      (d.course_id ∷ d.course_name ∷ [])
insert_sql (class d) =
    format (codes "INSERT INTO t_class (class_id, class_name) VALUES ('%s', '%s')")
      (d.class_id ∷ d.class_name ∷ [])
insert_sql (select d) =
    format (codes "INSERT INTO t_select (stu_id, course_id, score) VALUES ('%s', '%s', '%s')")
      (d.stu_id ∷ d.course_id ∷ d.score ∷ [])

-- The statement of `OnBnClickedButtonUpdate`; `id` is the first cell of the selected row.
unfoldable pub update_sql : Entry → List ℕ → List ℕ
update_sql (student d) id =
    format
      (codes
        "UPDATE t_student SET stu_id = '%s', stu_name = '%s', class_id = '%s' WHERE (stu_id = '%s');")
      (d.stu_id ∷ d.stu_name ∷ d.class_id ∷ id ∷ [])
update_sql (course d) id =
    format
      (codes "UPDATE t_course SET course_id = '%s', course_name = '%s' WHERE (course_id = '%s');")
      (d.course_id ∷ d.course_name ∷ id ∷ [])
update_sql (class d) id =
    format (codes "UPDATE t_class SET class_id = '%s', class_name = '%s' WHERE (class_id = '%s');")
      (d.class_id ∷ d.class_name ∷ id ∷ [])
update_sql (select d) id =
    format (codes "UPDATE t_select SET score = '%s' WHERE (stu_id = '%s') and (course_id = '%s');")
      (d.score ∷ d.stu_id ∷ d.course_id ∷ [])

-- `if (!text.IsEmpty()) sql += name + text + "'";`
abbrev pub condition : List ℕ → List ℕ → List ℕ
condition name [] = []
condition name (c ∷ cs) = name ++ ((c ∷ cs) ++ codes "'")

-- The statement of `OnBnClickedButtonSelect`.
unfoldable pub select_sql : Entry → List ℕ
select_sql (student d) =
    codes "SELECT * FROM t_student WHERE true"
    ++ (condition (codes " AND stu_id = '") d.stu_id
        ++ (condition (codes " AND stu_name = '") d.stu_name
            ++ condition (codes " AND class_id = '") d.class_id))
select_sql (course d) =
    codes "SELECT * FROM t_course WHERE true"
    ++ (condition (codes " AND course_id = '") d.course_id
        ++ condition (codes " AND course_name = '") d.course_name)
select_sql (class d) =
    codes "SELECT * FROM t_class WHERE true"
    ++ (condition (codes " AND class_id = '") d.class_id
        ++ condition (codes " AND class_name = '") d.class_name)
select_sql (select d) =
    codes "SELECT * FROM t_select WHERE true"
    ++ (condition (codes " AND stu_id = '") d.stu_id
        ++ (condition (codes " AND course_id = '") d.course_id
            ++ condition (codes " AND score = '") d.score))
