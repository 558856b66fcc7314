-- ===== src/Dialog/Show/Loops.antt =====
-- SchoolSystem/SchoolSystemDlg.cpp, `ShowList`: its loops take the bytes of a table apart again.
use school_system.Base.{
  ℕ, zero, suc, ◌+◌, ◌-◌, ◌≤◌, ◌<◌, ◌≡◌, refl, sym, ap, subst, ◌∙◌, false, Option, some, List, [],
  ◌∷◌, ◌++◌, ◌==◌, map, All, length, drop, c_string_lem, c_string_self, NulFree, append_assoc,
  length-append, drop_append, arith,
}
use school_system.Server.Requests.{has_zero_lem}
use school_system.Server.Results.{text_bytes, field_bytes, row_bytes, rows_bytes}
use school_system.Dialog.Show.{text_at, show_fields, show_cells, show_rows}

-- None of the texts has a 0 in it.
abbrev pub Clean : List (List ℕ) → Type 0
Clean = All NulFree

-- The rows of a result set without NULL.
abbrev pub full_rows : List (List (List ℕ)) → List (List (Option (List ℕ)))
full_rows = map (map some)

-- The bytes of such rows.
abbrev pub table_bytes : List (List (List ℕ)) → List ℕ
table_bytes [] = []
table_bytes (r ∷ rs) = field_bytes r ++ table_bytes rs

row_bytes_lem : (r : List (List ℕ)) → row_bytes (map some r) ≡ some (field_bytes r)
unfolding row_bytes field_bytes
row_bytes_lem [] = refl
row_bytes_lem (c ∷ r) = rw (row_bytes_lem r)

pub rows_bytes_lem : (rs : List (List (List ℕ))) → rows_bytes (full_rows rs) ≡ some (table_bytes rs)
unfolding rows_bytes
rows_bytes_lem [] = refl
rows_bytes_lem (r ∷ rs) = rw (row_bytes_lem r, rows_bytes_lem rs)

text_at_lem : (s rest : List ℕ) → NulFree s → text_at (text_bytes s ++ rest) ≡ some (s, rest)
unfolding text_at
text_at_lem s rest h =
    let shape : text_bytes s ++ rest ≡ s ++ 0 ∷ rest =
      ap (λ t. (t ++ 0 ∷ []) ++ rest) (c_string_self s h) ∙ append_assoc s (0 ∷ []) rest in
    let again : drop (length s + 1) (s ++ 0 ∷ rest) ≡ rest = drop_text s rest in
    rw (shape, has_zero_lem s rest, c_string_lem s rest h, again)
  where
    drop_text : (s rest : List ℕ) → drop (length s + 1) (s ++ 0 ∷ rest) ≡ rest
    drop_text s rest =
        ap (λ n. drop n (s ++ 0 ∷ rest)) (omega (arith, length-append s (0 ∷ [])))
        ∙ ap (drop (length (s ++ 0 ∷ []))) (sym (append_assoc s (0 ∷ []) rest))
        ∙ drop_append (s ++ 0 ∷ []) rest

pub length-field_bytes-cons :
    (f : List ℕ) (fs : List (List ℕ))
    → NulFree f
    → length (field_bytes (f ∷ fs)) ≡ length f + 1 + length (field_bytes fs)
unfolding field_bytes
length-field_bytes-cons f fs h =
    length-append (text_bytes f) (field_bytes fs)
    ∙ ap (λ n. n + length (field_bytes fs))
        (ap (λ t. length (t ++ 0 ∷ [])) (c_string_self f h) ∙ length-append f (0 ∷ []))

pub show_fields_lem :
    (fs : List (List ℕ)) (fuel left : ℕ) (rest : List ℕ)
    → Clean fs
    → left ≡ length (field_bytes fs)
    → left ≤ fuel
    → show_fields fuel left (field_bytes fs ++ rest) ≡ some fs
unfolding show_fields field_bytes
show_fields_lem [] zero left rest c e h = rw e
show_fields_lem [] (suc fuel) left rest c e h = rw e
show_fields_lem (f ∷ fs) zero left rest c e h =
    absurd (omega (arith, length-field_bytes-cons f fs c.0))
show_fields_lem (f ∷ fs) (suc fuel) left rest c e h =
    let l : left ≡ length f + 1 + length (field_bytes fs) = e ∙ length-field_bytes-cons f fs c.0 in
    let more : (left == 0) ≡ false = ground (arith, l) in
    rw (
      more,
      append_assoc (text_bytes f) (field_bytes fs) rest,
      text_at_lem f (field_bytes fs ++ rest) c.0,
      show_fields_lem fs fuel (left - (length f + 1)) rest c.1 (omega arith) (omega arith),
    )

show_cells_lem :
    (r : List (List ℕ)) (rest : List ℕ)
    → Clean r
    → show_cells (length r) (field_bytes r ++ rest) ≡ some (r, length (field_bytes r), rest)
unfolding show_cells field_bytes
show_cells_lem [] rest c = refl
show_cells_lem (t ∷ r) rest c =
    rw
      (
        append_assoc (text_bytes t) (field_bytes r) rest,
        text_at_lem t (field_bytes r ++ rest) c.0,
        show_cells_lem r rest c.1,
      )
      (ap (λ n. some (t ∷ r, n, rest)) (sym (length-field_bytes-cons t r c.0)))

-- Each row has `n` clean cells.
abbrev pub IsTable : ℕ → List (List (List ℕ)) → Type 0
IsTable n = All (λ r. (length r ≡ n) × Clean r)

pub row_positive : (r : List (List ℕ)) → 0 < length r → Clean r → 0 < length (field_bytes r)
row_positive [] pos h = elim pos [ ]
row_positive (c ∷ r) pos h = omega (arith, length-field_bytes-cons c r h.0)

pub length-table_bytes-cons :
    (r : List (List ℕ)) (rs : List (List (List ℕ)))
    → length (table_bytes (r ∷ rs)) ≡ length (field_bytes r) + length (table_bytes rs)
length-table_bytes-cons r rs = length-append (field_bytes r) (table_bytes rs)

pub show_rows_lem :
    (rs : List (List (List ℕ))) (fuel n left : ℕ) (rest : List ℕ)
    → 0 < n
    → IsTable n rs
    → left ≡ length (table_bytes rs)
    → left ≤ fuel
    → show_rows fuel n left (table_bytes rs ++ rest) ≡ some rs
unfolding show_rows
show_rows_lem [] zero n left rest pos t e h = rw e
show_rows_lem [] (suc fuel) n left rest pos t e h = rw e
show_rows_lem (r ∷ rs) zero n left rest pos t e h =
    absurd
      (omega (arith, length-table_bytes-cons r rs, row_positive r (omega (arith, t.0.0)) t.0.1))
show_rows_lem (r ∷ rs) (suc fuel) n left rest pos t e h =
    let l : left ≡ length (field_bytes r) + length (table_bytes rs) =
      e ∙ length-table_bytes-cons r rs in
    let p = row_positive r (omega (arith, t.0.0)) t.0.1 in
    let more : (left == 0) ≡ false = ground (arith, l, p) in
    rw (
      more,
      append_assoc (field_bytes r) (table_bytes rs) rest,
      sym t.0.0,
      show_cells_lem r (table_bytes rs ++ rest) t.0.1,
      show_rows_lem rs fuel (length r) (left - length (field_bytes r)) rest (omega (arith, t.0.0))
          (subst (λ m. IsTable m rs) (sym t.0.0) t.1) (omega arith) (omega arith),
    )
