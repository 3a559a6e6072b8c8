-- ===== src/Config/Validate.antt =====
-- `Validate` of internal/config/config.go and the checks it calls, in the order of the source: the
-- first check that fails gives the error.
pub mod Names
pub mod Laws
pub mod Settings
pub mod Valid
use ciallo.Common.{
  ℕ, ◌+◌, Bytes, List, [], ◌∷◌, Bool, true, false, ◌&&◌, ◌||◌, not, if◌then◌else◌, Option, none,
  some, ◌==◌, bytes_eq,
}
use ciallo.Common.Int.{pos, ltb_ℤ}
use ciallo.Common.Dict.{Dict, lookup, insert}
use ciallo.Go.Defaults.{is_blank, is_not_positive}
use ciallo.Go.Errors.{
  Error, Result, ok, err, wrap, refuse_if, ◌>>=◌, ◌>>◌, listen_required, no_route, host_empty,
  port_empty, file_path_required, default_backend_invalid, backend_health_invalid, logging_invalid,
  route_backend_required, route_host_empty, route_backend_invalid, duplicate_route_host,
  must_be_positive, cannot_be_negative, invalid_level, invalid_format, invalid_output,
}
use ciallo.Go.HostPort.{split_host_port}
use ciallo.Go.Strings.{trim_space, to_lower}
use ciallo.Go.Text.{codes}
use ciallo.Mcproto.Host.{normalize_host}
use ciallo.Config.{Config, BackendHealth, RouteConfig, LoggingConfig, LoggingFileConfig}

-- `validateAddr`
unfoldable pub validate_addr : Bytes → Result (Unit {0})
validate_addr addr = do
  (host, port) ← split_host_port addr
  refuse_if (is_blank (trim_space host)) host_empty
  refuse_if (is_blank (trim_space port)) port_empty

-- `validateBackendHealth`
unfoldable pub validate_backend_health : BackendHealth → Result (Unit {0})
validate_backend_health health = do
  refuse_if (is_not_positive health.interval) (must_be_positive (codes "interval"))
  refuse_if (is_not_positive health.timeout) (must_be_positive (codes "timeout"))
  refuse_if (is_not_positive health.failure_threshold)
      (must_be_positive (codes "failure_threshold"))
  refuse_if (is_not_positive health.success_threshold)
      (must_be_positive (codes "success_threshold"))
  refuse_if (is_not_positive health.probe_protocol) (must_be_positive (codes "probe_protocol"))
  refuse_if (is_not_positive health.circuit_breaker_ttl)
      (must_be_positive (codes "circuit_breaker_ttl"))

-- The cases of a `switch` on a string.
unfoldable pub one_of : Bytes → List Bytes → Bool
one_of s [] = false
one_of s (t ∷ ts) = s == t || one_of s ts

abbrev pub levels : List Bytes
levels = codes "debug" ∷ codes "info" ∷ codes "warn" ∷ codes "warning" ∷ codes "error" ∷ []

abbrev pub formats : List Bytes
formats = codes "text" ∷ codes "json" ∷ []

unfoldable pub validate_file : LoggingFileConfig → Result (Unit {0})
validate_file file = do
  refuse_if (is_not_positive file.max_size_mb) (must_be_positive (codes "file.max_size_mb"))
  refuse_if (ltb_ℤ file.max_backups (pos 0)) (cannot_be_negative (codes "file.max_backups"))
  refuse_if (ltb_ℤ file.max_age_days (pos 0)) (cannot_be_negative (codes "file.max_age_days"))

abbrev pub SeenHosts : Type 0
SeenHosts = Dict Bytes (Unit {0})

abbrev pub has_no_routes : List RouteConfig → Bool
has_no_routes [] = true
has_no_routes (_ ∷ _) = false

abbrev validate_default_backend : Bytes → Result (Unit {0})
validate_default_backend [] = ok tt
validate_default_backend (b ∷ bs) = wrap default_backend_invalid (validate_addr (b ∷ bs))

-- `if _, ok := seen[normalized]; ok { return err }`
abbrev refuse_seen : Option (Unit {0}) → Error → Result (Unit {0})
refuse_seen none e = ok tt
refuse_seen (some _) e = err e

module _ (lower : ℕ → ℕ) where
  -- `strings.ToLower(strings.TrimSpace(s))`
  abbrev pub fold_case : Bytes → Bytes
  fold_case s = to_lower lower (trim_space s)

  -- The `switch` on the output.
  unfoldable pub validate_output : LoggingConfig → Result (Unit {0})
  unfolding one_of
  validate_output logging =
      let output = fold_case logging.output in
      if one_of output (codes "stdout" ∷ codes "stderr" ∷ [])
      then ok tt
      else (if output == codes "file"
          then refuse_if (is_blank (trim_space logging.file.path)) file_path_required
          else err (invalid_output logging.output))

  -- `validateLogging`
  unfoldable pub validate_logging : LoggingConfig → Result (Unit {0})
  unfolding one_of validate_output validate_file
  validate_logging logging = do
    refuse_if (not (one_of (fold_case logging.level) levels)) (invalid_level logging.level)
    refuse_if (not (one_of (fold_case logging.format) formats)) (invalid_format logging.format)
    validate_output logging
    validate_file logging.file

  -- The loop over the hosts of route `i`, with the names seen so far.
  unfoldable pub validate_hosts : ℕ → List Bytes → SeenHosts → Result SeenHosts
  validate_hosts i [] seen = ok seen
  validate_hosts i (host ∷ hosts) seen =
      let normalized = normalize_host lower host in
      do
        refuse_if (is_blank normalized) (route_host_empty i)
        refuse_seen (lookup normalized seen) (duplicate_route_host normalized)
        validate_hosts i hosts (insert normalized tt seen)

  -- The loop over the routes from route `i` on.
  unfoldable pub validate_routes : ℕ → List RouteConfig → SeenHosts → Result (Unit {0})
  unfolding validate_addr validate_hosts
  validate_routes i [] seen = ok tt
  validate_routes i (route ∷ routes) seen = do
    refuse_if (is_blank route.backend) (route_backend_required i)
    wrap (route_backend_invalid i) (validate_addr route.backend)
    seen' ← validate_hosts i route.hosts seen
    validate_routes (i + 1) routes seen'

  -- `Validate`
  unfoldable pub validate : Config → Result (Unit {0})
  validate c = do
    refuse_if (is_blank c.listen) listen_required
    refuse_if (is_blank c.default_backend && has_no_routes c.routes) no_route
    validate_default_backend c.default_backend
    validate_routes 0 c.routes []
    refuse_if (is_not_positive c.max_handshake_size) (must_be_positive (codes "max_handshake_size"))
    refuse_if (is_not_positive c.max_status_response_size)
        (must_be_positive (codes "max_status_response_size"))
    refuse_if (ltb_ℤ c.status_fallback.players_max (pos 0))
        (cannot_be_negative (codes "status_fallback.players_max"))
    wrap backend_health_invalid (validate_backend_health c.backend_health)
    wrap logging_invalid (validate_logging c.logging)
