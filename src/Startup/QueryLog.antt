-- ===== src/Startup/QueryLog.antt =====
-- infra/mysql/logger.go: what gorm's statements write to the log. `fmt.Sprintf` and the clock are
-- parameters; durations are in nanoseconds.
use kredit_plus.Base.{
  ℤ, pos, Bool, false, not, if◌then◌else◌, List, String, str_eq, Option, none, some, ltb_ℤ,
}
use kredit_plus.Entity.Error.{Error, message, wrapped}
use kredit_plus.Startup.Logger.{Logger, Level, debug_level, info_level, warn_level, error_level}

pub record GormLogger : Type 0 where
  pub logger : Logger
  pub slow_threshold : ℤ

unfoldable pub new_gorm_logger : Logger → GormLogger
new_gorm_logger logger = record { logger = logger; slow_threshold = pos 200000000 }

-- The mode that gorm asks for is not looked at.
unfoldable pub log_mode : GormLogger → Level → GormLogger
log_mode l level = l

-- a statement: its text, the rows that it touched and the time that it took
pub record Fields : Type 0 where
  pub sql : String
  pub rows : ℤ
  pub elapsed : ℤ
  pub error : Option Error

-- an entry of the log
pub data Entry : Type 0 where
  said : Level → String → Entry
  traced : Level → String → Fields → Entry

module _ {D : Type 0} (sprintf : String → List D → String) (l : GormLogger) where
  unfoldable pub info : String → List D → Entry
  info msg data_ = said info_level (sprintf msg data_)

  unfoldable pub warn : String → List D → Entry
  warn msg data_ = said warn_level (sprintf msg data_)

  unfoldable pub error : String → List D → Entry
  error msg data_ = said error_level (sprintf msg data_)

-- `errors.Is(err, gorm.ErrRecordNotFound)`
unfoldable pub is_record_not_found : Error → Bool
is_record_not_found (message s) = str_eq s "record not found"
is_record_not_found (wrapped s e) = is_record_not_found e
is_record_not_found e = false

-- `err != nil && !errors.Is(err, gorm.ErrRecordNotFound)`
abbrev pub is_failure : Option Error → Bool
is_failure none = false
is_failure (some e) = not (is_record_not_found e)

unfoldable pub trace : GormLogger → String → ℤ → ℤ → Option Error → Entry
trace l sql rows elapsed err =
    let fields : Fields = record { sql = sql; rows = rows; elapsed = elapsed; error = none } in
    if is_failure err
    then traced error_level "sql query error" (record fields { error = err })
    else if ltb_ℤ l.slow_threshold elapsed
    then traced warn_level "slow sql query" fields
    else traced debug_level "sql query" fields
