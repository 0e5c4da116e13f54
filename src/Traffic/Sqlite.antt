-- ===== src/Traffic/Sqlite.antt =====
-- The functions of the sqlite3 library that traffic/DBController.cpp calls, on a state that holds
-- the connection and the file behind it.
use ntmd.Base.{Bool, Option, List, Text}
use ntmd.Base.Int.{ℤ}

-- what one `sqlite3_step` comes to: SQLITE_DONE, or anything else
pub data Step : Type 0 where
  done failed : Step

-- the four columns of a row, by `sqlite3_column_int64`
pub record Columns : Type 0 where
  pub first : ℤ
  pub second : ℤ
  pub third : ℤ
  pub fourth : ℤ

pub record Sqlite : Type 1 where
  pub Db : Type 0
  -- `sqlite3_open`, where `none` is an error
  pub open_db : Text → Option Db
  -- `sqlite3_exec` with no callback, and whether it returned SQLITE_OK
  pub exec : Text → Db → Bool × Db
  -- `sqlite3_prepare_v2`, `sqlite3_bind_int` for each value, `sqlite3_step`, `sqlite3_finalize`
  pub execute : Text → List ℤ → Db → Step × Db
  -- `sqlite3_prepare_v3`, and the columns if `sqlite3_step` returned SQLITE_ROW
  pub select_row : Text → Db → Option Columns
  -- the first column of every row, by `sqlite3_column_text`, where `none` is the null pointer
  pub select_texts : Text → Db → List (Option Text)
