-- ===== src/Dialog/Inputs.antt =====
-- SchoolSystem/CStudentDlg.cpp, CCourseDlg.cpp, CClassDlg.cpp and CSelectDlg.cpp: the four dialogs, in
-- which the user edits the texts of a row. MFC's exchange with an edit control is a parameter.
pub mod Exchange
use school_system.Base.{
  ℕ, ◌≡◌, refl, sym, ap, ap₂, ◌∙◌, Bool, true, false, Option, none, some, List, [], ◌∷◌, ◌==◌,
  if◌then◌else◌, arith,
}
use school_system.Dialog.Statements.{
  Entry, student, course, class, select, StudentDlg, CourseDlg, ClassDlg, SelectDlg,
}
use school_system.Dialog.Edit.{Tab, students, courses, classes, selections}

-- SchoolSystem/resource.h: the numbers of the edit controls.
abbrev idc_edit_stu_id : ℕ
idc_edit_stu_id = 1013

abbrev idc_edit_stu_name : ℕ
idc_edit_stu_name = 1014

abbrev idc_edit_class_id : ℕ
idc_edit_class_id = 1015

abbrev idc_edit_course_id : ℕ
idc_edit_course_id = 1018

abbrev idc_edit_course_name : ℕ
idc_edit_course_name = 1019

abbrev idc_edit_class_name : ℕ
idc_edit_class_name = 1020

abbrev idc_edit_score : ℕ
idc_edit_score = 1021

-- The controls of a dialog's window: the text that an edit control shows, and `DDX_Text`, by the
-- direction (`m_bSaveAndValidate`), the control's number and the member.
pub record Controls (W : Type 0) : Type 0 where
  pub edit_text : ℕ → W → List ℕ
  pub ddx_text : Bool → ℕ → List ℕ → W → List ℕ × W

-- What MFC documents: one direction takes the text of the control, and changes nothing; the other
-- gives the control the text, and no other control.
pub record IsExchange {W : Type 0} (mfc : Controls W) : Type 0 where
  pub saves : (id : ℕ) (t : List ℕ) (w : W) → mfc.ddx_text true id t w ≡ (mfc.edit_text id w, w)
  pub keeps : (id : ℕ) (t : List ℕ) (w : W) → (mfc.ddx_text false id t w).0 ≡ t
  pub loads :
      (id j : ℕ) (t : List ℕ) (w : W)
      → mfc.edit_text j (mfc.ddx_text false id t w).1 ≡ (if j == id then t else mfc.edit_text j w)

-- The constructors: every text is empty.
abbrev new_student_dlg : StudentDlg
new_student_dlg = record { stu_id = []; stu_name = []; class_id = [] }

abbrev new_course_dlg : CourseDlg
new_course_dlg = record { course_id = []; course_name = [] }

abbrev new_class_dlg : ClassDlg
new_class_dlg = record { class_id = []; class_name = [] }

abbrev new_select_dlg : SelectDlg
new_select_dlg = record { stu_id = []; course_id = []; score = [] }

-- The dialog that a handler makes for the current tab.
unfoldable pub new_dialog : Tab → Entry
new_dialog students = student new_student_dlg
new_dialog courses = course new_course_dlg
new_dialog classes = class new_class_dlg
new_dialog selections = select new_select_dlg

module _ {W : Type 0} (mfc : Controls W) where
  open mfc use {ddx_text, edit_text}

  -- `DoDataExchange`, in the order of the calls
  abbrev student_exchange : Bool → StudentDlg → W → StudentDlg × W
  student_exchange save d w =
      let (stu_name, w1) = ddx_text save idc_edit_stu_name d.stu_name w in
      let (class_id, w2) = ddx_text save idc_edit_class_id d.class_id w1 in
      let (stu_id, w3) = ddx_text save idc_edit_stu_id d.stu_id w2 in
      (record { stu_id = stu_id; stu_name = stu_name; class_id = class_id }, w3)

  abbrev course_exchange : Bool → CourseDlg → W → CourseDlg × W
  course_exchange save d w =
      let (course_id, w1) = ddx_text save idc_edit_course_id d.course_id w in
      let (course_name, w2) = ddx_text save idc_edit_course_name d.course_name w1 in
      (record { course_id = course_id; course_name = course_name }, w2)

  abbrev class_exchange : Bool → ClassDlg → W → ClassDlg × W
  class_exchange save d w =
      let (class_id, w1) = ddx_text save idc_edit_class_id d.class_id w in
      let (class_name, w2) = ddx_text save idc_edit_class_name d.class_name w1 in
      (record { class_id = class_id; class_name = class_name }, w2)

  abbrev select_exchange : Bool → SelectDlg → W → SelectDlg × W
  select_exchange save d w =
      let (course_id, w1) = ddx_text save idc_edit_course_id d.course_id w in
      let (stu_id, w2) = ddx_text save idc_edit_stu_id d.stu_id w1 in
      let (score, w3) = ddx_text save idc_edit_score d.score w2 in
      (record { stu_id = stu_id; course_id = course_id; score = score }, w3)

  -- `CDialog::OnInitDialog` calls `UpdateData(FALSE)`, which is `DoDataExchange`; CCourseDlg and
  -- CSelectDlg do not override it. The other two call it, and then `UpdateData(FALSE)` again.
  abbrev student_init : StudentDlg → W → StudentDlg × W
  student_init d w = let (d1, w1) = student_exchange false d w in student_exchange false d1 w1

  abbrev class_init : ClassDlg → W → ClassDlg × W
  class_init d w = let (d1, w1) = class_exchange false d w in class_exchange false d1 w1

  -- `OnBnClickedOk`: `UpdateData(TRUE)`, and then `CDialogEx::OnOK`, which calls it again.
  abbrev student_ok : StudentDlg → W → StudentDlg × W
  student_ok d w = let (d1, w1) = student_exchange true d w in student_exchange true d1 w1

  abbrev course_ok : CourseDlg → W → CourseDlg × W
  course_ok d w = let (d1, w1) = course_exchange true d w in course_exchange true d1 w1

  abbrev class_ok : ClassDlg → W → ClassDlg × W
  class_ok d w = let (d1, w1) = class_exchange true d w in class_exchange true d1 w1

  abbrev select_ok : SelectDlg → W → SelectDlg × W
  select_ok d w = let (d1, w1) = select_exchange true d w in select_exchange true d1 w1

  abbrev as_entry : {D : Type 0} → (D → Entry) → D × W → Entry × W
  as_entry make (d, w) = (make d, w)

  -- The virtual functions, by the dialog.
  unfoldable pub on_init_dialog : Entry → W → Entry × W
  on_init_dialog (student d) w = as_entry student (student_init d w)
  on_init_dialog (course d) w = as_entry course (course_exchange false d w)
  on_init_dialog (class d) w = as_entry class (class_init d w)
  on_init_dialog (select d) w = as_entry select (select_exchange false d w)

  unfoldable pub on_ok : Entry → W → Entry × W
  on_ok (student d) w = as_entry student (student_ok d w)
  on_ok (course d) w = as_entry course (course_ok d w)
  on_ok (class d) w = as_entry class (class_ok d w)
  on_ok (select d) w = as_entry select (select_ok d w)

  -- What the controls of a dialog show.
  abbrev pub texts : Entry → W → Entry
  texts (student d) w = student (record {
    stu_id = edit_text idc_edit_stu_id w;
    stu_name = edit_text idc_edit_stu_name w;
    class_id = edit_text idc_edit_class_id w;
  })
  texts (course d) w = course (record {
    course_id = edit_text idc_edit_course_id w;
    course_name = edit_text idc_edit_course_name w;
  })
  texts (class d) w = class (record {
    class_id = edit_text idc_edit_class_id w;
    class_name = edit_text idc_edit_class_name w;
  })
  texts (select d) w = select (record {
    stu_id = edit_text idc_edit_stu_id w;
    course_id = edit_text idc_edit_course_id w;
    score = edit_text idc_edit_score w;
  })

  abbrev closed : (ok : Bool) → Entry × W → Option Entry
  closed ok (e, w) = if ok then some (on_ok e w).0 else none

  -- `DoModal`: the dialog is shown, the user edits its texts, and closes it, by OK or by Cancel.
  unfoldable pub do_modal : (user : W → W) → (ok : Bool) → Entry → W → Option Entry
  do_modal user ok e w = let shown = on_init_dialog e w in closed ok (shown.0, user shown.1)
