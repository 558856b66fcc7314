-- ===== src/Dialog/Inputs/Exchange.antt =====
-- SchoolSystem/CStudentDlg.cpp, CCourseDlg.cpp, CClassDlg.cpp and CSelectDlg.cpp: what a dialog shows
-- when it opens, and what it gives back.
use school_system.Base.{◌≡◌, refl, ap, ◌∙◌, true, false, none, some}
use school_system.Dialog.Statements.{Entry, student, course, class, select}
use school_system.Dialog.Inputs.{Controls, IsExchange, on_init_dialog, on_ok, texts, do_modal}

module _ {W : Type 0} (mfc : Controls W) (x : IsExchange mfc) where
  on_ok_lem : (e : Entry) (w : W) → on_ok mfc e w ≡ (texts mfc e w, w)
  unfolding on_ok
  on_ok_lem (student d) w = simp (x.saves)
  on_ok_lem (course d) w = simp (x.saves)
  on_ok_lem (class d) w = simp (x.saves)
  on_ok_lem (select d) w = simp (x.saves)

  on_init_dialog-keeps : (e : Entry) (w : W) → (on_init_dialog mfc e w).0 ≡ e
  unfolding on_init_dialog
  on_init_dialog-keeps (student d) w = simp (x.keeps)
  on_init_dialog-keeps (course d) w = simp (x.keeps)
  on_init_dialog-keeps (class d) w = simp (x.keeps)
  on_init_dialog-keeps (select d) w = simp (x.keeps)

  on_init_dialog-loads : (e : Entry) (w : W) → texts mfc e (on_init_dialog mfc e w).1 ≡ e
  unfolding on_init_dialog
  on_init_dialog-loads (student d) w = simp (x.loads, x.keeps)
  on_init_dialog-loads (course d) w = simp (x.loads)
  on_init_dialog-loads (class d) w = simp (x.loads, x.keeps)
  on_init_dialog-loads (select d) w = simp (x.loads)

  -- For each of the four dialogs, when MFC's exchange does what it documents: while the user edits,
  -- the dialog shows the texts that it was given; closed by OK it gives the texts that its controls
  -- show then, which are those that it was given if the user changed nothing; and closed by Cancel
  -- it gives nothing.
  pub do_modal_lem :
      (user : W → W) (e : Entry) (w : W)
      → let opened = (on_init_dialog mfc e w).1 in
        (texts mfc e opened ≡ e)
        × (do_modal mfc user true e w ≡ some (texts mfc e (user opened)))
        × (do_modal mfc (λ v. v) true e w ≡ some e)
        × (do_modal mfc user false e w ≡ none)
  unfolding do_modal
  do_modal_lem user e w =
      let gives = λ (v : W).
        ap (λ e'. some (on_ok mfc e' v).0) (on_init_dialog-keeps e w)
        ∙ ap (λ r. some r.0) (on_ok_lem e v) in
      (on_init_dialog-loads e w, gives _, gives _ ∙ ap some (on_init_dialog-loads e w), refl)
