-- ===== src/Config/Load/Laws.antt =====
-- What `LoadFile` of internal/config/load.go returns, for any file and any decoder.
use ciallo.Common.{ℕ, ◌≡◌, Bytes}
use ciallo.Go.Errors.{Result, wrap, Ensures, returns, Ensures-bind}
use ciallo.Config.{Config}
use ciallo.Config.Defaults.{default, apply_defaults}
use ciallo.Config.Defaults.Laws.{apply_defaults-twice}
use ciallo.Config.Validate.{validate}
use ciallo.Config.Validate.Valid.{IsValid, validate-IsValid}
use ciallo.Config.Load.{load_file}

module _ (lower : ℕ → ℕ) (read_file : Bytes → Result Bytes)
    (unmarshal : Bytes → Config → Result Config) where
  -- Valid settings, to which the defaults add nothing more.
  abbrev pub IsLoaded : Config → Type 0
  IsLoaded c = IsValid lower c × (apply_defaults c ≡ c)

  -- Whatever the file and the decoder give, settings that are returned pass every check, and have
  -- all their defaults.
  pub load_file-IsLoaded :
      (path : Bytes) → Ensures IsLoaded (load_file lower read_file unmarshal path)
  unfolding load_file
  load_file-IsLoaded path = Ensures-bind (read_file path) _ (λ text _.
      Ensures-bind (wrap _ (unmarshal text default)) _ (λ cfg _.
        Ensures-bind (validate lower (apply_defaults cfg)) _ (λ _ e.
          returns (validate-IsValid lower (apply_defaults cfg) e, apply_defaults-twice cfg))))
