-- ===== src/Dialog/Statements/Literals.antt =====
-- What MySQL finds between the quotes of a statement: its reader is a parameter.
use school_system.Base.{
  ℕ, ◌≡◌, refl, ap, sym, ◌∙◌, Bool, true, false, List, [], ◌∷◌, ◌++◌, ◌==◌, ◌||◌, ◌&&◌, leb, All,
  append_assoc, append-nil, codes, arith,
}
use school_system.Dialog.Statements.{Entry, student, course, class, select, values, insert_sql}

-- The literals that a statement has, those that were found before included, where the reader stands
-- outside of a literal, and inside of one with the text so far.
pub record SqlReader : Type 0 where
  pub outside : List (List ℕ) → List ℕ → List (List ℕ)
  pub inside : List ℕ → List (List ℕ) → List ℕ → List (List ℕ)

-- A letter, an underscore, a space, a parenthesis or a comma.
abbrev pub is_plain : ℕ → Bool
is_plain c =
    ((leb 65 c && leb c 90) || (leb 97 c && leb c 122))
    || (c == 95 || (c == 32 || (c == 40 || (c == 41 || c == 44))))

-- Neither a quote (39), nor a backslash (92), nor 0.
abbrev pub is_literal : ℕ → Bool
is_literal c = elim (c == 39 || (c == 92 || c == 0)) [ true ↦ false | false ↦ true ]

-- What MySQL documents of its statements, as far as it is needed here: plain characters outside of a
-- literal are no literal; a quote behind a parenthesis or a space opens one; what is neither a quote nor a
-- backslash stands for itself in it; and a quote in front of a comma or a parenthesis closes it.
pub record IsMysql (r : SqlReader) : Type 0 where
  pub passes :
      (found : List (List ℕ)) (c d : ℕ) (cs : List ℕ)
      → is_plain c ≡ true
      → (d == 39) ≡ false
      → r.outside found (c ∷ d ∷ cs) ≡ r.outside found (d ∷ cs)
  pub ends : (found : List (List ℕ)) (c : ℕ) → is_plain c ≡ true → r.outside found (c ∷ []) ≡ found
  pub opens :
      (found : List (List ℕ)) (d : ℕ) (cs : List ℕ)
      → (d == 40 || d == 32) ≡ true
      → r.outside found (d ∷ 39 ∷ cs) ≡ r.inside [] found cs
  pub stands :
      (text : List ℕ) (found : List (List ℕ)) (c : ℕ) (cs : List ℕ)
      → is_literal c ≡ true
      → r.inside text found (c ∷ cs) ≡ r.inside (text ++ c ∷ []) found cs
  pub closes :
      (text : List ℕ) (found : List (List ℕ)) (d : ℕ) (cs : List ℕ)
      → (d == 44 || d == 41) ≡ true
      → r.inside text found (39 ∷ d ∷ cs) ≡ r.outside (found ++ text ∷ []) (d ∷ cs)

abbrev pub IsLiteral : List ℕ → Type 0
IsLiteral = All (λ c. is_literal c ≡ true)

abbrev all_plain : List ℕ → Bool
all_plain [] = true
all_plain (c ∷ cs) = is_plain c && all_plain cs

pub plain_no_quote : (c : ℕ) → is_plain c ≡ true → (c == 39) ≡ false
plain_no_quote c h = ground arith

and-true : (a b : Bool) → (a && b) ≡ true → (a ≡ true) × (b ≡ true)
and-true true b h = (refl, h)
and-true false b h = cc

module _ {r : SqlReader} (m : IsMysql r) where
  -- Plain text up to the parenthesis in front of the first literal.
  first_opens :
      (w : List ℕ) (found : List (List ℕ)) (cs : List ℕ)
      → all_plain w ≡ true
      → r.outside found (w ++ 40 ∷ 39 ∷ cs) ≡ r.inside [] found cs
  first_opens [] found cs h = m.opens found 40 cs refl
  first_opens (c ∷ []) found cs h =
      m.passes found c 40 (39 ∷ cs) (and-true (is_plain c) true h).0 refl ∙ m.opens found 40 cs refl
  first_opens (c ∷ d ∷ w) found cs h =
      let (here, later) = and-true (is_plain c) (all_plain (d ∷ w)) h in
      let next = (and-true (is_plain d) (all_plain w) later).0 in
      m.passes found c d (w ++ 40 ∷ 39 ∷ cs) here (plain_no_quote d next)
      ∙ first_opens (d ∷ w) found cs later

  literal_read :
      (t text : List ℕ) (found : List (List ℕ)) (d : ℕ) (cs : List ℕ)
      → IsLiteral t
      → (d == 44 || d == 41) ≡ true
      → r.inside text found (t ++ 39 ∷ d ∷ cs) ≡ r.outside (found ++ (text ++ t) ∷ []) (d ∷ cs)
  literal_read [] text found d cs h e =
      m.closes text found d cs e
      ∙ ap (λ t. r.outside (found ++ t ∷ []) (d ∷ cs)) (sym (append-nil text))
  literal_read (c ∷ t) text found d cs h e =
      m.stands text found c (t ++ 39 ∷ d ∷ cs) h.0
      ∙ literal_read t (text ++ c ∷ []) found d cs h.1 e
      ∙ ap (λ t. r.outside (found ++ t ∷ []) (d ∷ cs)) (append_assoc text (c ∷ []) t)

  -- A literal, a comma, a space and the quote of the next.
  literal_next :
      (t : List ℕ) (found : List (List ℕ)) (cs : List ℕ)
      → IsLiteral t
      → r.inside [] found (t ++ 39 ∷ 44 ∷ 32 ∷ 39 ∷ cs) ≡ r.inside [] (found ++ t ∷ []) cs
  literal_next t found cs h =
      literal_read t [] found 44 (32 ∷ 39 ∷ cs) h refl
      ∙ m.passes (found ++ t ∷ []) 44 32 (39 ∷ cs) refl refl
      ∙ m.opens (found ++ t ∷ []) 32 cs refl

  -- The last literal, and the parenthesis.
  literal_last :
      (t : List ℕ) (found : List (List ℕ))
      → IsLiteral t
      → r.inside [] found (t ++ 39 ∷ 41 ∷ []) ≡ found ++ t ∷ []
  literal_last t found h = literal_read t [] found 41 [] h refl ∙ m.ends (found ++ t ∷ []) 41 refl

  -- A reader that does what MySQL documents finds as the literals of `INSERT` exactly the texts of
  -- the dialog, in the order of the columns, if no text has a quote, a backslash or a 0 in it.
  pub insert_literals :
      (e : Entry) → All IsLiteral (values e) → r.outside [] (insert_sql e) ≡ values e
  unfolding insert_sql
  insert_literals (student d) h =
      first_opens (codes "INSERT INTO t_student (stu_id, stu_name, class_id) VALUES ") [] _ refl
      ∙ literal_next d.stu_id [] _ h.0
      ∙ literal_next d.stu_name _ _ h.1.0
      ∙ literal_last d.class_id _ h.1.1.0
  insert_literals (course d) h =
      first_opens (codes "INSERT INTO t_course (course_id, course_name) VALUES ") [] _ refl
      ∙ literal_next d.course_id [] _ h.0
      ∙ literal_last d.course_name _ h.1.0
  insert_literals (class d) h =
      first_opens (codes "INSERT INTO t_class (class_id, class_name) VALUES ") [] _ refl
      ∙ literal_next d.class_id [] _ h.0
      ∙ literal_last d.class_name _ h.1.0
  insert_literals (select d) h =
      first_opens (codes "INSERT INTO t_select (stu_id, course_id, score) VALUES ") [] _ refl
      ∙ literal_next d.stu_id [] _ h.0
      ∙ literal_next d.course_id _ _ h.1.0
      ∙ literal_last d.score _ h.1.1.0
