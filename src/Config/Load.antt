-- ===== src/Config/Load.antt =====
-- `LoadFile` of internal/config/load.go and the `UnmarshalYAML` of a duration. Reading a file, the
-- YAML decoder and `time.ParseDuration` are not part of the program: they are parameters. The
-- decoder changes the defaults that it is given by the document.
pub mod Laws
use ciallo.Common.{ℕ, Bytes}
use ciallo.Common.Int.{ℤ}
use ciallo.Go.Errors.{Result, ok, err, wrap, ◌>>=◌, ◌>>◌, parse_yaml, unsupported_duration}
use ciallo.Go.Time.{Duration}
use ciallo.Config.{Config}
use ciallo.Config.Defaults.{default, apply_defaults}
use ciallo.Config.Validate.{validate}

-- What `unmarshal` puts into an `any`.
pub data Raw : Type 0 where
  string : Bytes → Raw
  int int64 : ℤ → Raw
  other : Raw

module _ (parse_duration : Bytes → Result Duration) where
  -- `UnmarshalYAML`, where a bare number counts nanoseconds.
  pub unmarshal_duration : Result Raw → Result Duration
  unmarshal_duration (err e) = err e
  unmarshal_duration (ok (string v)) = parse_duration v
  unmarshal_duration (ok (int v)) = ok v
  unmarshal_duration (ok (int64 v)) = ok v
  unmarshal_duration (ok other) = err unsupported_duration

module _ (lower : ℕ → ℕ) (read_file : Bytes → Result Bytes)
    (unmarshal : Bytes → Config → Result Config) where
  unfoldable pub load_file : Bytes → Result Config
  load_file path = do
    data_read ← read_file path
    cfg ← wrap parse_yaml (unmarshal data_read default)
    let c = apply_defaults cfg
    validate lower c
    ok c
