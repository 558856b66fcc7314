-- ===== src/Dialog/ListCtrl.antt =====
-- What the main window shows: the list of MFC's `CListCtrl`, as far as the program uses it, as a list of
-- rows. Where MFC leaves it open: the text of a cell is kept also where no column was made for it, and the
-- selection mark stays where it is when rows come and go; it is an argument of what Delete and Update do.
use school_system.Base.{ℕ, zero, suc, Option, none, some, List, [], ◌∷◌, get_elem?}

-- The headings, the rows and the row that is selected. A row lists its cells from the left; what it
-- does not list is empty.
pub record ListCtrl : Type 0 where
  pub columns : List (List ℕ)
  pub rows : List (List (List ℕ))
  pub selection_mark : Option ℕ

abbrev pub cell_or_empty : Option (List ℕ) → List ℕ
cell_or_empty none = []
cell_or_empty (some t) = t

abbrev pub row_or_empty : Option (List (List ℕ)) → List (List ℕ)
row_or_empty none = []
row_or_empty (some r) = r

-- `GetItemText(row, col)`, which is empty for a row or a column that is not there
abbrev pub get_item_text : ListCtrl → ℕ → ℕ → List ℕ
get_item_text l row col = cell_or_empty (get_elem? (row_or_empty (get_elem? l.rows row)) col)

-- `SetItemText` in one row: cells up to the column come into being, empty.
abbrev pub set_cell : List (List ℕ) → ℕ → List ℕ → List (List ℕ)
set_cell [] zero t = t ∷ []
set_cell [] (suc k) t = [] ∷ set_cell [] k t
set_cell (c ∷ cs) zero t = t ∷ cs
set_cell (c ∷ cs) (suc k) t = c ∷ set_cell cs k t

abbrev pub set_row : List (List (List ℕ)) → ℕ → ℕ → List ℕ → List (List (List ℕ))
set_row [] row col t = []
set_row (r ∷ rs) zero col t = set_cell r col t ∷ rs
set_row (r ∷ rs) (suc row) col t = r ∷ set_row rs row col t

-- `SetItemText(row, col, t)`; a row that is not there is not made.
abbrev pub set_item_text : ℕ → ℕ → List ℕ → ListCtrl → ListCtrl
set_item_text row col t l = record l { rows = set_row l.rows row col t }

-- `InsertItem(0, NULL)`: an empty row at the top
abbrev pub insert_top : ListCtrl → ListCtrl
insert_top l = record l { rows = [] ∷ l.rows }

abbrev pub without_row : List (List (List ℕ)) → ℕ → List (List (List ℕ))
without_row [] row = []
without_row (r ∷ rs) zero = rs
without_row (r ∷ rs) (suc row) = r ∷ without_row rs row

-- `DeleteItem(row)`
abbrev pub delete_item : ℕ → ListCtrl → ListCtrl
delete_item row l = record l { rows = without_row l.rows row }
