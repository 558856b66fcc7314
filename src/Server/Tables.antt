-- ===== src/Server/Tables.antt =====
-- SchoolSystemServer/CServer.cpp, `CServer::CreateTables` and `CServer::Init`.
use school_system.Base.{
  ℕ, Bool, true, false, ◌≡◌, refl, ap, ◌≢◌, ◌⊎◌, inl, inr, List, [], ◌∷◌, ◌++◌, if◌then◌else◌,
  codes, is_negative, Bool-cases,
}
use school_system.Mysql.{MysqlApi, query}
use school_system.Mysql
use school_system.Tcp.Server.{Network, Request, listen}

abbrev pub create_database : List ℕ
create_database = codes "CREATE DATABASE IF NOT EXISTS test;"

abbrev pub use_database : List ℕ
use_database = codes "USE test;"

abbrev pub create_class : List ℕ
create_class =
    codes
      "CREATE TABLE IF NOT EXISTS t_class(class_id varchar(64),class_name varchar(64) NOT NULL,PRIMARY KEY(class_id));"

abbrev pub create_student : List ℕ
create_student =
    codes
      "CREATE TABLE IF NOT EXISTS t_student(stu_id varchar(64),stu_name varchar(64) NOT NULL,class_id varchar(64) NOT NULL,PRIMARY KEY(stu_id),CONSTRAINT FK_CLASSID FOREIGN KEY(class_id) REFERENCES t_class(class_id));"

abbrev pub create_course : List ℕ
create_course =
    codes
      "CREATE TABLE IF NOT EXISTS t_course(course_id varchar(64),course_name varchar(64) NOT NULL,PRIMARY KEY(course_id));"

abbrev pub create_select : List ℕ
create_select =
    codes
      "CREATE TABLE IF NOT EXISTS t_select(stu_id varchar(64),course_id varchar(64),score float DEFAULT NULL,PRIMARY KEY(stu_id, course_id),CONSTRAINT FK_COURSEID FOREIGN KEY(course_id) REFERENCES t_course(course_id),CONSTRAINT FK_STUID FOREIGN KEY(stu_id) REFERENCES t_student(stu_id));"

-- The statements in the order in which they are made: a table comes behind those that its foreign
-- keys name.
abbrev pub table_statements : List (List ℕ)
table_statements =
    create_database ∷ use_database ∷ create_class ∷ create_student ∷ create_course ∷ create_select
    ∷ []

module _ {S : Type 0} (api : MysqlApi S) where
  -- `if (m_mysql.Query(sql) < 0) return false;`, for one statement after the other
  unfoldable pub run_statements : List (List ℕ) → S → Bool × S
  run_statements [] st = (true, st)
  run_statements (sql ∷ rest) st =
      let r = run_statements rest (query api sql st).1 in
      if is_negative (query api sql st).0 then (false, (query api sql st).1) else r

  -- `CServer::CreateTables`
  unfoldable pub create_tables : S → Bool × S
  create_tables st = run_statements table_statements st

  abbrev listened : Network → S → Bool × S × List Request
  listened net st =
      ((listen net (codes "127.0.0.1") 5566).1, st, (listen net (codes "127.0.0.1") 5566).0)

  abbrev with_tables : Network → Bool × S → Bool × S × List Request
  with_tables net (ok, st) = if ok then listened net st else (false, st, [])

  abbrev with_mysql : Network → Bool × S → Bool × S × List Request
  with_mysql net (ok, st) = if ok then with_tables net (create_tables st) else (false, st, [])

  -- `CServer::Init`: the result, the database, and what was asked of the socket library.
  unfoldable pub init : Network → S → Bool × S × List Request
  init net st =
      with_mysql net
        (Mysql.init api (codes "gbk") (codes "localhost") (codes "root") (codes "root") st)

  -- The state of the database after some statements.
  abbrev pub ran : List (List ℕ) → S → S
  ran [] st = st
  ran (sql ∷ rest) st = ran rest (query api sql st).1

  -- Each statement succeeds, on the state that those before it leave.
  abbrev pub Succeed : List (List ℕ) → S → Type 0
  Succeed [] st = Unit {0}
  Succeed (sql ∷ rest) st =
      (is_negative (query api sql st).0 ≡ false) × Succeed rest (query api sql st).1

  run_statements_lem :
      (sqls : List (List ℕ)) (st : S)
      → (Succeed sqls st × (run_statements sqls st ≡ (true, ran sqls st)))
        ⊎ ((before : List (List ℕ)) × (sql : List ℕ) × (after : List (List ℕ)) × (sqls
              ≡ before ++ sql ∷ after)
            × Succeed before st
            × (is_negative (query api sql (ran before st)).0 ≡ true)
            × (run_statements sqls st ≡ (false, (query api sql (ran before st)).1)))
  unfolding run_statements
  run_statements_lem [] st = inl (tt, refl)
  run_statements_lem (sql ∷ rest) st = elim (Bool-cases (is_negative (query api sql st).0)) [
    | inl bad ↦ inr ([], sql, rest, refl, tt, bad, rw bad)
    | inr good ↦ elim (run_statements_lem rest (query api sql st).1) [
      | inl (ok, e) ↦ inl ((good, ok), rw good e)
      | inr (before, s, after, eq, ok, bad, e) ↦
          inr (sql ∷ before, s, after, ap (◌∷◌ sql) eq, (good, ok), bad, rw good e)
    ]
  ]

  -- `CreateTables` either makes its six statements in their order, each of which succeeds, and
  -- returns true; or it makes them up to the first that fails, and no other, and returns false.
  pub create_tables_lem :
      (st : S)
      → (Succeed table_statements st × (create_tables st ≡ (true, ran table_statements st)))
        ⊎ ((before : List (List ℕ)) × (sql : List ℕ) × (after : List (List ℕ)) × (table_statements
              ≡ before ++ sql ∷ after)
            × Succeed before st
            × (is_negative (query api sql (ran before st)).0 ≡ true)
            × (create_tables st ≡ (false, (query api sql (ran before st)).1)))
  unfolding create_tables
  create_tables_lem st = run_statements_lem table_statements st

  -- The server listens only after the database is ready: if `Init` asks anything of the socket
  -- library, then MySQL was initialised and all tables were made before.
  pub init_order :
      (net : Network) (st : S)
      → (init net st).2 ≢ []
      → let m = Mysql.init api (codes "gbk") (codes "localhost") (codes "root") (codes "root") st in
        (m.0 ≡ true) × Succeed table_statements m.1
  unfolding init
  init_order net st h = elim (Bool-cases connected.0) [
    | inl e ↦ elim (create_tables_lem connected.1) [
      | inl (ok, _) ↦ (e, ok)
      | inr (before, sql, after, eq, ok, bad, f) ↦
          let nothing : (init net st).2 ≡ [] = rw (e, f) in absurd (h nothing)
    ]
    | inr e ↦ let nothing : (init net st).2 ≡ [] = rw e in absurd (h nothing)
  ]
    where
      connected : Bool × S
      connected = Mysql.init api (codes "gbk") (codes "localhost") (codes "root") (codes "root") st
