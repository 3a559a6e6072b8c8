-- ===== src/Logging.antt =====
-- internal/logging/logging.go. A logger is what it was made of: `slog` and the rotating file are
-- libraries, and making them cannot fail.
use ciallo.Common.{
  ℕ, ◌≡◌, refl, Bytes, List, [], ◌∷◌, Bool, true, ◌||◌, if◌then◌else◌, ◌==◌, bytes_eq, arith,
  Bool-cases, inl, inr, ◌⊎◌,
}
use ciallo.Go.Defaults.{is_blank}
use ciallo.Go.Errors.{
  Result, ok, err, ◌>>=◌, invalid_log_level, invalid_log_format, invalid_log_output,
  log_path_required,
}
use ciallo.Go.Strings.{trim_space, to_lower}
use ciallo.Go.Text.{codes}
use ciallo.Config.{LoggingConfig, LoggingFileConfig}
use ciallo.Config.Validate.{one_of, levels, formats}
use ciallo.Config.Validate.Settings.{IsLoggingConfig, IsOutput, stream, file}

one_of-cons :
    (s t : Bytes) (ts : List Bytes) → one_of s (t ∷ ts) ≡ true → (s ≡ t) ⊎ (one_of s ts ≡ true)
unfolding one_of
one_of-cons s t ts h = elim (Bool-cases (s == t)) [
  | inl same ↦ inl (ground arith)
  | inr other ↦ inr (rw other at h)
]

one_of-single : (s t : Bytes) → one_of s (t ∷ []) ≡ true → s ≡ t
unfolding one_of
one_of-single s t h = ground arith

-- The levels of `slog`.
pub data Level : Type 0 where
  level_debug level_info level_warn level_error : Level

-- Where the lines go.
pub data Sink : Type 0 where
  to_stdout to_stderr : Sink
  to_file : LoggingFileConfig → Sink

pub data Handler : Type 0 where
  json_handler text_handler : Handler

pub record Logger : Type 0 where
  pub level : Level
  pub add_source : Bool
  pub handler : Handler
  pub sink : Sink

module _ (lower : ℕ → ℕ) where
  -- `normalize`
  abbrev pub normalize : Bytes → Bytes
  normalize value = to_lower lower (trim_space value)

  -- `parseLevel`
  pub parse_level : Bytes → Result Level
  parse_level raw =
      let name = normalize raw in
      if name == codes "debug"
      then ok level_debug
      else (if name == codes "info" || is_blank name
          then ok level_info
          else (if name == codes "warn" || name == codes "warning"
              then ok level_warn
              else (if name == codes "error" then ok level_error else err (invalid_log_level raw))))

  -- `writer`
  pub writer : LoggingConfig → Result Sink
  writer cfg =
      let name = normalize cfg.output in
      if name == codes "stdout" || is_blank name
      then ok to_stdout
      else (if name == codes "stderr"
          then ok to_stderr
          else (if name == codes "file"
              then (if is_blank (trim_space cfg.file.path)
                  then err log_path_required
                  else ok (to_file cfg.file))
              else err (invalid_log_output cfg.output)))

  pub handler_of : Bytes → Result Handler
  handler_of format =
      let name = normalize format in
      if name == codes "json"
      then ok json_handler
      else (if name == codes "text" || is_blank name
          then ok text_handler
          else err (invalid_log_format format))

  -- `New`
  pub new_logger : LoggingConfig → Result Logger
  new_logger cfg = do
    level ← parse_level cfg.level
    sink ← writer cfg
    handler ← handler_of cfg.format
    ok (record { level = level; add_source = cfg.add_source; handler = handler; sink = sink })

  -- What the settings of a log ask for.
  pub data Asks (cfg : LoggingConfig) : Sink → Type 0 where
    asks_stdout : normalize cfg.output ≡ codes "stdout" → Asks cfg to_stdout
    asks_stderr : normalize cfg.output ≡ codes "stderr" → Asks cfg to_stderr
    asks_file : normalize cfg.output ≡ codes "file" → Asks cfg (to_file cfg.file)

  parse_level-levels :
      (raw : Bytes) → one_of (normalize raw) levels ≡ true → (l : Level) × (parse_level raw ≡ ok l)
  unfolding parse_level bytes_eq
  parse_level-levels raw h = elim (one_of-cons (normalize raw) _ _ h) [
    | inl e ↦ (level_debug, rw e refl)
    | inr h ↦ elim (one_of-cons (normalize raw) _ _ h) [
      | inl e ↦ (level_info, rw e refl)
      | inr h ↦ elim (one_of-cons (normalize raw) _ _ h) [
        | inl e ↦ (level_warn, rw e refl)
        | inr h ↦ elim (one_of-cons (normalize raw) _ _ h) [
          | inl e ↦ (level_warn, rw e refl)
          | inr h ↦ (level_error, rw (one_of-single (normalize raw) _ h) refl)
        ]
      ]
    ]
  ]

  handler_of-formats :
      (format : Bytes)
      → one_of (normalize format) formats ≡ true
      → (f : Handler) × (handler_of format ≡ ok f)
  unfolding handler_of bytes_eq
  handler_of-formats format h = elim (one_of-cons (normalize format) _ _ h) [
    | inl e ↦ (text_handler, rw e refl)
    | inr h ↦ (json_handler, rw (one_of-single (normalize format) _ h) refl)
  ]

  writer-Asks :
      (cfg : LoggingConfig) → IsOutput lower cfg → (s : Sink) × (writer cfg ≡ ok s) × Asks cfg s
  unfolding writer bytes_eq
  writer-Asks cfg (stream h) = elim (one_of-cons (normalize cfg.output) _ _ h) [
    | inl e ↦ (to_stdout, rw e refl, asks_stdout e)
    | inr h ↦
        let e = one_of-single (normalize cfg.output) _ h in (to_stderr, rw e refl, asks_stderr e)
  ]
  writer-Asks cfg (file e p) = (to_file cfg.file, rw (e, p) refl, asks_file e)

  -- With settings that pass `validateLogging`, `New` gives a logger and no error; it writes to the
  -- output that the settings name, and marks the source if they say so.
  pub new_logger-Asks :
      (cfg : LoggingConfig)
      → IsLoggingConfig lower cfg
      → (l : Logger) × (new_logger cfg ≡ ok l) × Asks cfg l.sink × (l.add_source ≡ cfg.add_source)
  unfolding new_logger
  new_logger-Asks cfg v =
      let (level, e) = parse_level-levels cfg.level v.level in
      let (sink, f, asks) = writer-Asks cfg v.output in
      let (handler, g) = handler_of-formats cfg.format v.format in
      (
        record { level = level; add_source = cfg.add_source; handler = handler; sink = sink },
        rw (e, f, g) refl,
        asks,
        refl,
      )
