-- ===== src/Mysql.antt =====
-- MysqlDll/CMysql.h and CMysql.cpp: the wrapper of the MySQL client library. The library itself is
-- a parameter, with a type of states of its own.
use school_system.Base.{
  ℕ, ◌%◌, Bool, false, Option, none, List, ◌==◌, if◌then◌else◌, int_mod, minus_one,
}

-- A result set: the names of its columns, and its rows, where `none` is SQL's NULL.
pub record MysqlRes : Type 0 where
  pub fields : List (List ℕ)
  pub rows : List (List (Option (List ℕ)))

-- The calls of the library, by their C names. An `int` is its bit pattern; a handle that may be
-- NULL is given by whether it is not.
pub record MysqlApi (S : Type 0) : Type 0 where
  pub mysql_library_init : S → ℕ × S
  pub mysql_init : S → Bool × S
  pub mysql_set_character_set : S → List ℕ → ℕ × S
  pub mysql_real_connect : S → List ℕ → List ℕ → List ℕ → ℕ → Bool × S
  pub mysql_query : S → List ℕ → ℕ × S
  pub mysql_affected_rows : S → ℕ
  pub mysql_use_result : S → Option MysqlRes × S
  pub mysql_close : S → S
  pub mysql_library_end : S → S

module _ {S : Type 0} (api : MysqlApi S) where
  open api use {
    mysql_library_init, mysql_init, mysql_set_character_set, mysql_real_connect, mysql_query,
    mysql_affected_rows, mysql_use_result, mysql_close, mysql_library_end,
  }

  abbrev connect : List ℕ → List ℕ → List ℕ → S → Bool × S
  connect host user password st = mysql_real_connect st host user password 3306

  abbrev set_charset : List ℕ → List ℕ → List ℕ → List ℕ → ℕ × S → Bool × S
  set_charset gbk host user password (r, st) =
      if r == 0 then connect host user password st else (false, st)

  abbrev with_handle : List ℕ → List ℕ → List ℕ → List ℕ → Bool × S → Bool × S
  with_handle gbk host user password (ok, st) =
      if ok
      then set_charset gbk host user password (mysql_set_character_set st gbk)
      else (false, st)

  abbrev with_library : List ℕ → List ℕ → List ℕ → List ℕ → ℕ × S → Bool × S
  with_library gbk host user password (r, st) =
      if r == 0 then with_handle gbk host user password (mysql_init st) else (false, st)

  -- `CMysql::Init`: four calls, of which the first that fails ends it. `gbk` is the text "gbk".
  unfoldable pub init : List ℕ → List ℕ → List ℕ → List ℕ → S → Bool × S
  init gbk host user password st = with_library gbk host user password (mysql_library_init st)

  abbrev affected : ℕ × S → ℕ × S
  affected (r, st) = if r == 0 then (mysql_affected_rows st % int_mod, st) else (minus_one, st)

  -- `int CMysql::Query(string sql)`: -1 if the statement fails, and else the number of rows, cut
  -- down to an `int`.
  unfoldable pub query : List ℕ → S → ℕ × S
  query sql st = affected (mysql_query st sql)

  abbrev counted : Option MysqlRes × S → ℕ × Option MysqlRes × S
  counted (res, st) = (mysql_affected_rows st % int_mod, res, st)

  abbrev fetched : ℕ × S → ℕ × Option MysqlRes × S
  fetched (r, st) = if r == 0 then counted (mysql_use_result st) else (minus_one, none, st)

  -- `int CMysql::Query(string sql, MYSQL_RES*& res)`, where `res` is NULL before the call
  unfoldable pub query_result : List ℕ → S → ℕ × Option MysqlRes × S
  query_result sql st = fetched (mysql_query st sql)

  -- `CMysql::~CMysql`
  abbrev pub drop_mysql : S → S
  drop_mysql st = mysql_library_end (mysql_close st)
