-- ===== src/Logs.antt =====
-- pkg/logger/logger.go, pkg/im_err/err_log.go, and `InitLogger`, `InitKLog` and the last lines of
-- `CloseServer` in server.go: where the logs go. The files and the levels of zap are parameters.
pub mod Files
use gim.Base.{
  ℕ, String, ◌<>◌, Bool, true, false, Option, none, some, List, [], ◌∷◌, ◌++◌, if◌then◌else◌,
}
use gim.ImErr.{Err, Result, ok, err}

pub record LogConfig : Type 0 where
  pub level : String
  pub file_name : String
  pub file_path : String
  pub max_size : ℕ
  pub max_age : ℕ
  pub max_backups : ℕ
  pub compress : Bool

-- `lumberjack.Logger`: the file that is written, and when it is cut.
pub record LogWriter : Type 0 where
  pub filename : String
  pub max_size : ℕ
  pub max_age : ℕ
  pub max_backups : ℕ
  pub compress : Bool

unfoldable pub get_log_writer : LogConfig → LogWriter
get_log_writer config = record {
  filename = config.file_path <> config.file_name;
  max_size = config.max_size;
  max_age = config.max_age;
  max_backups = config.max_backups;
  compress = config.compress;
}

-- The operating system's files, and `zapcore.Level.UnmarshalText`. A file is a number.
pub record System : Type 1 where
  pub State : Type 0
  pub Level : Type 0
  pub unmarshal_level : String → Result Level
  pub is_not_exist : String → State → Bool
  pub mkdir_all : String → State → State
  pub open_file : String → State → Result ℕ × State
  pub close_file : ℕ → State → State

module _ (Y : System) where
  -- `L`: a logger for entries of the level and above. Its other choices are fixed.
  pub record Logger : Type 0 where
    pub level : Y.Level
    pub writer : LogWriter

  -- The variables `L`, `IsInitLogger` and `rpcFile`, where klog writes, and what was logged.
  pub record Logging : Type 0 where
    pub l : Option Logger
    pub is_init_logger : Bool
    pub rpc_file : Option ℕ
    pub output : Option ℕ
    pub entries : List String
    pub os : Y.State

  -- A call returns, or panics and leaves what it did before.
  pub data Logged : Type 0 where
    returns : Logging → Logged
    panics : Err → Logging → Logged

module _ {Y : System} where
  -- A level that cannot be read leaves the logger as it was.
  zap_with : LogConfig → Result Y.Level → Logging Y → Option Err × Logging Y
  unfolding get_log_writer
  zap_with config (err e) s = (some e, s)
  zap_with config (ok level) s =
      (none, record s { l = some (record { level = level; writer = get_log_writer config }) })

  -- `logger.InitLogger`
  unfoldable pub init_zap : LogConfig → Logging Y → Option Err × Logging Y
  unfolding zap_with
  init_zap config s = zap_with config (Y.unmarshal_level config.level) s

  unfoldable pub made_path : String → Logging Y → Logging Y
  made_path path s = if Y.is_not_exist path s.os then record s { os = Y.mkdir_all path s.os } else s

  -- `rpcFile, err :=` declares another variable: that of the package stays as it was. Without a
  -- file klog is given a nil one.
  unfoldable pub set_output : Result ℕ × Y.State → Logging Y → Logging Y
  set_output (ok file, os) s = record s { output = some file; os = os }
  set_output (err e, os) s = record s { output = none; os = os }

  unfoldable pub init_k_log : LogConfig → Logging Y → Logging Y
  unfolding made_path set_output
  init_k_log config s =
      let made = made_path config.file_path s in
      set_output (Y.open_file (config.file_path <> "rpc.log") made.os) made

  log_entry : String → Logging Y → Logging Y
  log_entry text s = record s { entries = s.entries ++ text ∷ [] }

  initialised : LogConfig → Option Err × Logging Y → Logged Y
  unfolding log_entry init_k_log
  initialised config (some e, s) = panics e s
  initialised config (none, s) =
      returns (init_k_log config (record (log_entry "开始 日志初始化" s) { is_init_logger = true }))

  -- `InitLogger` of the server.
  unfoldable pub init_logger : LogConfig → Logging Y → Logged Y
  unfolding initialised init_zap
  init_logger config s = initialised config (init_zap config s)

  -- `errLog.Error`, of which the text is the message.
  unfoldable pub error : Logging Y → Logging Y
  unfolding log_entry
  error s = log_entry "gim_sys_error" s

  file_closed : Option ℕ → Logging Y → Logging Y
  file_closed none s = s
  file_closed (some file) s = record s { os = Y.close_file file s.os }

  -- `rpcFile.Close()` of `CloseServer`; the close of a nil file is an error, which is dropped.
  unfoldable pub close_rpc_file : Logging Y → Logging Y
  unfolding file_closed
  close_rpc_file s = file_closed s.rpc_file s
