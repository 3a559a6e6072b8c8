-- ===== src/Config/Validate/Settings.antt =====
-- Which settings of the health checks and of the log internal/config/config.go lets through.
use ciallo.Common.{
  ℕ, ◌≡◌, refl, inl, inr, [], ◌∷◌, Bool, true, false, not, ◌==◌, bytes_eq, arith, Bool-cases,
}
use ciallo.Common.Int.{ℤ, pos, ltb_ℤ, ◌≤ℤ◌, ◌<ℤ◌}
use ciallo.Go.Defaults.{is_not_positive}
use ciallo.Go.Errors.{Error, ok, refuse_if, refuse_if-eq-ok, >>-eq-ok, file_path_required}
use ciallo.Go.Strings.{trim_space}
use ciallo.Go.Text.{codes}
use ciallo.Config.{BackendHealth, LoggingConfig, LoggingFileConfig}
use ciallo.Config.Validate.{
  validate_backend_health, one_of, levels, formats, validate_file, fold_case, validate_output,
  validate_logging,
}
use ciallo.Config.Validate.Names.{Filled}

abbrev pub Positive : ℤ → Type 0
Positive x = pos 0 <ℤ x

abbrev pub Natural : ℤ → Type 0
Natural x = pos 0 ≤ℤ x

-- What has been checked where a check passes.
pub positive : (x : ℤ) (e : Error) → refuse_if (is_not_positive x) e ≡ ok tt → Positive x
positive x e h = let passed = refuse_if-eq-ok _ e h in ground arith

pub is_not_positive-false : (x : ℤ) → Positive x → is_not_positive x ≡ false
is_not_positive-false x h = ground arith

pub natural : (x : ℤ) (e : Error) → refuse_if (ltb_ℤ x (pos 0)) e ≡ ok tt → Natural x
natural x e h = let passed = refuse_if-eq-ok _ e h in ground arith

pub is_negative-false : (x : ℤ) → Natural x → ltb_ℤ x (pos 0) ≡ false
is_negative-false x h = ground arith

pub record IsHealthConfig (h : BackendHealth) : Type 0 where
  pub interval : Positive h.interval
  pub timeout : Positive h.timeout
  pub failure_threshold : Positive h.failure_threshold
  pub success_threshold : Positive h.success_threshold
  pub probe_protocol : Positive h.probe_protocol
  pub circuit_breaker_ttl : Positive h.circuit_breaker_ttl

pub validate_backend_health-IsHealthConfig :
    (h : BackendHealth) → validate_backend_health h ≡ ok tt → IsHealthConfig h
unfolding validate_backend_health
validate_backend_health-IsHealthConfig h e =
    let (a, e1) = >>-eq-ok (refuse_if (is_not_positive h.interval) _) _ e in
    let (b, e2) = >>-eq-ok (refuse_if (is_not_positive h.timeout) _) _ e1 in
    let (c, e3) = >>-eq-ok (refuse_if (is_not_positive h.failure_threshold) _) _ e2 in
    let (d, e4) = >>-eq-ok (refuse_if (is_not_positive h.success_threshold) _) _ e3 in
    let (f, g) = >>-eq-ok (refuse_if (is_not_positive h.probe_protocol) _) _ e4 in
    record {
      interval = positive _ _ a;
      timeout = positive _ _ b;
      failure_threshold = positive _ _ c;
      success_threshold = positive _ _ d;
      probe_protocol = positive _ _ f;
      circuit_breaker_ttl = positive _ _ g;
    }

pub IsHealthConfig-validate_backend_health :
    (h : BackendHealth) → IsHealthConfig h → validate_backend_health h ≡ ok tt
unfolding validate_backend_health
IsHealthConfig-validate_backend_health h v =
    rw
      (
        is_not_positive-false _ v.interval,
        is_not_positive-false _ v.timeout,
        is_not_positive-false _ v.failure_threshold,
        is_not_positive-false _ v.success_threshold,
        is_not_positive-false _ v.probe_protocol,
        is_not_positive-false _ v.circuit_breaker_ttl,
      )
      refl

pub record IsFileConfig (f : LoggingFileConfig) : Type 0 where
  pub max_size_mb : Positive f.max_size_mb
  pub max_backups : Natural f.max_backups
  pub max_age_days : Natural f.max_age_days

pub validate_file-IsFileConfig : (f : LoggingFileConfig) → validate_file f ≡ ok tt → IsFileConfig f
unfolding validate_file
validate_file-IsFileConfig f e =
    let (a, e1) = >>-eq-ok (refuse_if (is_not_positive f.max_size_mb) _) _ e in
    let (b, c) = >>-eq-ok (refuse_if (ltb_ℤ f.max_backups (pos 0)) _) _ e1 in
    record {
      max_size_mb = positive _ _ a;
      max_backups = natural _ _ b;
      max_age_days = natural _ _ c;
    }

pub IsFileConfig-validate_file : (f : LoggingFileConfig) → IsFileConfig f → validate_file f ≡ ok tt
unfolding validate_file
IsFileConfig-validate_file f v =
    rw
      (
        is_not_positive-false _ v.max_size_mb,
        is_negative-false _ v.max_backups,
        is_negative-false _ v.max_age_days,
      )
      refl

known : (b : Bool) (e : Error) → refuse_if (not b) e ≡ ok tt → b ≡ true
known true e h = refl
known false e h = cc

module _ (lower : ℕ → ℕ) where
  -- A known output; a file has a path.
  pub data IsOutput (l : LoggingConfig) : Type 0 where
    stream :
        one_of (fold_case lower l.output) (codes "stdout" ∷ codes "stderr" ∷ []) ≡ true → IsOutput l
    file : fold_case lower l.output ≡ codes "file" → Filled (trim_space l.file.path) → IsOutput l

  pub record IsLoggingConfig (l : LoggingConfig) : Type 0 where
    pub level : one_of (fold_case lower l.level) levels ≡ true
    pub format : one_of (fold_case lower l.format) formats ≡ true
    pub output : IsOutput l
    pub file : IsFileConfig l.file

  validate_output-IsOutput : (l : LoggingConfig) → validate_output lower l ≡ ok tt → IsOutput l
  unfolding validate_output
  validate_output-IsOutput l h =
      let out = fold_case lower l.output in
      elim (Bool-cases (one_of out (codes "stdout" ∷ codes "stderr" ∷ []))) [
        | inl s ↦ stream s
        | inr n ↦ elim (Bool-cases (out == codes "file")) [
          | inl f ↦ file (ground arith) (refuse_if-eq-ok _ file_path_required (rw (n, f) at h))
          | inr m ↦ absurd (ground arith)
        ]
      ]

  IsOutput-validate_output : (l : LoggingConfig) → IsOutput l → validate_output lower l ≡ ok tt
  unfolding validate_output bytes_eq
  IsOutput-validate_output l (stream h) = rw h refl
  IsOutput-validate_output l (file h p) = rw (h, p) refl

  pub validate_logging-IsLoggingConfig :
      (l : LoggingConfig) → validate_logging lower l ≡ ok tt → IsLoggingConfig l
  unfolding validate_logging
  validate_logging-IsLoggingConfig l e =
      let (a, e1) = >>-eq-ok (refuse_if (not (one_of (fold_case lower l.level) levels)) _) _ e in
      let (b, e2) = >>-eq-ok (refuse_if (not (one_of (fold_case lower l.format) formats)) _) _ e1 in
      let (c, d) = >>-eq-ok (validate_output lower l) _ e2 in
      record {
        level = known _ _ a;
        format = known _ _ b;
        output = validate_output-IsOutput l c;
        file = validate_file-IsFileConfig l.file d;
      }

  pub IsLoggingConfig-validate_logging :
      (l : LoggingConfig) → IsLoggingConfig l → validate_logging lower l ≡ ok tt
  unfolding validate_logging
  IsLoggingConfig-validate_logging l v =
      rw (v.level, v.format, IsOutput-validate_output l v.output)
        (IsFileConfig-validate_file l.file v.file)
