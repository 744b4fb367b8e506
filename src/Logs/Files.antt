-- ===== src/Logs/Files.antt =====
-- server.go: the start of the logs, on every branch, and what becomes of the file of the rpc log.
use gim.Base.{ℕ, ◌<>◌, ◌≡◌, refl, ap, ◌∙◌, true, Option, none, some, if◌then◌else◌, arith}
use gim.ImErr.{Err, Result, ok, err}
use gim.Logs.{
  LogConfig, System, Logging, Logged, returns, panics, init_logger, initialised, init_zap,
  init_k_log, made_path, set_output, close_rpc_file, file_closed, zap_with, log_entry,
  get_log_writer,
}

abbrev file_of : Result ℕ → Option ℕ
file_of (ok file) = some file
file_of (err e) = none

module _ (Y : System) where
  -- The path of the logs, made where it is missing.
  abbrev path_made : LogConfig → Y.State → Y.State
  path_made config os =
      if Y.is_not_exist config.file_path os then Y.mkdir_all config.file_path os else os

module _ {Y : System} where
  -- The logger has the level and writes to the configured file; klog writes to the opened one; the
  -- server notes the logger, but not the file, and the close of the server leaves the files alone.
  pub record IsReady (config : LogConfig) (level : Y.Level) (s s' : Logging Y) : Type 0 where
    pub logger :
        s'.l
        ≡ some (record {
          level = level;
          writer = record {
            filename = config.file_path <> config.file_name;
            max_size = config.max_size;
            max_age = config.max_age;
            max_backups = config.max_backups;
            compress = config.compress;
          };
        })
    pub noted : s'.is_init_logger ≡ true
    pub output :
        s'.output
        ≡ file_of (Y.open_file (config.file_path <> "rpc.log") (path_made Y config s.os)).0
    pub os : s'.os ≡ (Y.open_file (config.file_path <> "rpc.log") (path_made Y config s.os)).1
    pub not_closed : (close_rpc_file s').os ≡ s'.os

  pub data InitLoggerDone (config : LogConfig) (s : Logging Y) : Logged Y → Type 0 where
    level_refused :
        (e : Err) → Y.unmarshal_level config.level ≡ err e → InitLoggerDone config s (panics e s)
    ready :
        (level : Y.Level) (s' : Logging Y)
        → Y.unmarshal_level config.level ≡ ok level
        → IsReady config level s s'
        → InitLoggerDone config s (returns s')

  made_path-os :
      (config : LogConfig) (s : Logging Y)
      → (made_path config.file_path s).os ≡ path_made Y config s.os
  unfolding made_path
  made_path-os config s = ground arith

  after_open :
      (r : Result ℕ × Y.State) (s : Logging Y)
      → ((set_output r s).output ≡ file_of r.0)
        × ((set_output r s).os ≡ r.1)
        × ((set_output r s).l ≡ s.l)
        × ((set_output r s).is_init_logger ≡ s.is_init_logger)
        × ((set_output r s).rpc_file ≡ s.rpc_file)
  unfolding set_output
  after_open (ok file, os) s = (refl, refl, refl, refl, refl)
  after_open (err e, os) s = (refl, refl, refl, refl, refl)

  not_noted : (s : Logging Y) → s.rpc_file ≡ none → close_rpc_file s ≡ s
  unfolding close_rpc_file
  not_noted s e = ap (λ o. file_closed o s) e

  init_k_log-IsReady :
      (config : LogConfig) (level : Y.Level) (s t : Logging Y)
      → t.os ≡ s.os
      → t.rpc_file ≡ none
      → t.is_init_logger ≡ true
      → t.l ≡ some (record { level = level; writer = get_log_writer config })
      → IsReady config level s (init_k_log config t)
  unfolding init_k_log get_log_writer made_path
  init_k_log-IsReady config level s t same file noted l =
      let made = made_path config.file_path t in
      let opened = Y.open_file (config.file_path <> "rpc.log") made.os in
      let kept = after_open opened made in
      let there : made.os ≡ path_made Y config s.os =
        made_path-os config t ∙ ap (path_made Y config) same in
      record {
        logger = kept.2 ∙ ground (arith, l);
        noted = kept.3 ∙ ground (arith, noted);
        output =
            kept.0 ∙ ap (λ os. file_of (Y.open_file (config.file_path <> "rpc.log") os).0) there;
        os = kept.1 ∙ ap (λ os. (Y.open_file (config.file_path <> "rpc.log") os).1) there;
        not_closed =
            ap (λ x. x.os) (not_noted (set_output opened made) (kept.4 ∙ ground (arith, file)));
      }

  zap_with-Done :
      (config : LogConfig) (r : Result Y.Level) (s : Logging Y)
      → s.rpc_file ≡ none
      → Y.unmarshal_level config.level ≡ r
      → InitLoggerDone config s (initialised config (zap_with config r s))
  unfolding initialised zap_with log_entry
  zap_with-Done config (err x) s e u = level_refused x u
  zap_with-Done config (ok level) s e u =
      ready level _ u (init_k_log-IsReady config level s _ refl e refl refl)

  -- InitLogger of a server that has no log file yet: with a level that cannot be read it panics
  -- and changes nothing; otherwise it returns, the logger has the configured level, file and limits,
  -- and klog writes to rpc.log in the path, which is made first where it is missing, or to nothing
  -- if that file cannot be opened; CloseServer does not close the file.
  pub init_logger-InitLoggerDone :
      (config : LogConfig) (s : Logging Y)
      → s.rpc_file ≡ none
      → InitLoggerDone config s (init_logger config s)
  unfolding init_logger init_zap initialised init_k_log get_log_writer
  init_logger-InitLoggerDone config s e =
      zap_with-Done config (Y.unmarshal_level config.level) s e refl
