-- ===== src/Main/Signals.antt =====
-- A signal to cmd/mcproxy/main.go. The context that it ends is also the one of the server, so both
-- `main` and the goroutine of `Serve` call `Shutdown` of internal/proxy/server.go.
use ciallo.Common.{ℕ, ◌≡◌, refl, ap, ◌∙◌, Bytes, false, Option, none, some}
use ciallo.Go.Errors.{Error, Result, ok, Ensures-ok}
use ciallo.Config.{Config}
use ciallo.Config.Load.{load_file}
use ciallo.Config.Load.Laws.{load_file-IsLoaded}
use ciallo.Logging.{new_logger-Asks}
use ciallo.Proxy.Server.Lifecycle.{Listener, Life, close_listener, shutdown, watch}
use ciallo.Main.{Ending, signalled, ending_code, exit_code}

-- The result of `Shutdown` on an open listener, and on the one that the goroutine has closed.
shutdown-first :
    (t : Life) (l : Listener) → t.ln ≡ some l → l.closed ≡ false → (shutdown t none).1 ≡ none
unfolding shutdown close_listener
shutdown-first t l found unshut = rw (found, unshut) refl

shutdown-watch :
    (t : Life) (l : Listener)
    → t.ln ≡ some l
    → l.closed ≡ false
    → ending_code (signalled (shutdown (watch t) none).1) ≡ 1
unfolding shutdown close_listener watch
shutdown-watch t l found unshut = rw (found, unshut) refl

module _ (lower : ℕ → ℕ) (read_file : Bytes → Result Bytes)
    (unmarshal : Bytes → Config → Result Config) where
  -- Settings that load never stop the program at the log: it ends with the code of what ends it,
  -- 1 for a failure of the server or of the shutdown and 0 otherwise.
  pub exit_code-loaded :
      (path : Bytes) (c : Config) (ending : Ending)
      → load_file lower read_file unmarshal path ≡ ok c
      → exit_code lower false (load_file lower read_file unmarshal path) ending ≡ ending_code ending
  unfolding exit_code
  exit_code-loaded path c ending loads =
      let (v, _) = Ensures-ok (load_file-IsLoaded lower read_file unmarshal path) loads in
      let (_, e, _, _) = new_logger-Asks lower c.logging v.logging in rw (loads, e) refl

  -- A signal while the server listens, in a program whose settings load, when the close takes less than
  -- the time for it: the exit code is 0 if `Shutdown` of `main` closes the listener, and 1 if the
  -- goroutine of `Serve` has closed it before, although nothing has failed.
  pub exit_code-shutdown :
      (path : Bytes) (c : Config) (t : Life) (l : Listener)
      → load_file lower read_file unmarshal path ≡ ok c
      → t.ln ≡ some l
      → l.closed ≡ false
      → let code = λ (out : Option Error).
        exit_code lower false (load_file lower read_file unmarshal path) (signalled out) in
        (code (shutdown t none).1 ≡ 0) × (code (shutdown (watch t) none).1 ≡ 1)
  exit_code-shutdown path c t l loads found unshut =
      let code = λ (out : Option Error). exit_code-loaded path c (signalled out) loads in
      (
        code (shutdown t none).1
            ∙ ap (λ (out : Option Error). ending_code (signalled out))
                (shutdown-first t l found unshut),
        code (shutdown (watch t) none).1 ∙ shutdown-watch t l found unshut,
      )
