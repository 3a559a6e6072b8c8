-- ===== src/Health/Tests.antt =====
-- A checker of one backend with a threshold of two failures and two successes.
use ciallo.Common.{Option, ◌≡◌, refl, [], ◌∷◌, ◌++◌, arith, true, not, ◌&&◌, none, some, bytes_eq}
use ciallo.Common.Int.{pos, leb_ℤ}
use ciallo.Common.Dict.{lookup, insert}
use ciallo.Go.Errors.{Error, eof}
use ciallo.Go.Text.{codes}
use ciallo.Go.Time.{Time}
use ciallo.Proxy.Types.{Backend}
use ciallo.Health.{
  Options, BackendTarget, Checker, new_entry, add_targets, new_checker, status, is_unhealthy,
}
use ciallo.Health.Laws.{Call, run, is_unhealthy-timeless}
use ciallo.Health.Round.{check_once}
use ciallo.Health.Round.Laws.{IsKeyed, outcome, check_once-outcomes}
use ciallo.Health.Run as Run
use ciallo.Health.Run.{Round}
use ciallo.Health.Run.Laws.{Refuses, Answers, run-Recovers}

abbrev backend : Backend
backend = record { name = codes "b"; addr = codes "a"; status_cache = none }

abbrev options : Options
options = record {
  enabled = true;
  interval = pos 10;
  timeout = pos 3;
  failure_threshold = pos 2;
  success_threshold = pos 2;
  probe_protocol = pos 772;
  probe_host = [];
  circuit_breaker_ttl = pos 30;
}

abbrev target : BackendTarget
target = record { backend = backend; probe_host = [] }

abbrev checker : Checker
checker = record { options = options; entries = (codes "a", new_entry target) ∷ [] }

is_unhealthy-timeless_example :
    let c =
      run
        (new_checker options (target ∷ []))
        (Call.fails (codes "a") (some eof) (pos 1) (pos 2) ∷ []) in
    is_unhealthy c backend (pos 50) ≡ (c.options.enabled && not (status c backend (pos 50)).healthy)
is_unhealthy-timeless_example =
    is_unhealthy-timeless options (target ∷ [])
      (Call.fails (codes "a") (some eof) (pos 1) (pos 2) ∷ []) backend (pos 50)

abbrev failing : BackendTarget → Option Error
failing t = some eof

abbrev clock : BackendTarget → Time × Time
clock t = (pos 5, pos 6)

check_once-outcomes_example :
    lookup (codes "a") (check_once failing clock checker).entries
    ≡ elim (lookup (codes "a") checker.entries) [
      | none ↦ none
      | some e ↦ some (outcome failing clock options e.target e)
    ]
unfolding IsKeyed lookup
check_once-outcomes_example =
    check_once-outcomes failing clock checker (codes "a") refl (refl, tt) (refl, tt)

abbrev watched : BackendTarget
watched = record { backend = backend; probe_host = codes "h" }

-- Two rounds in which the backend fails, and two in which it answers.
abbrev down : Round
down = record { check = failing; clock = clock }

abbrev up : Round
up = record { check = λ t. none; clock = clock }

run-Recovers_example :
    (status
      (Run.run (new_checker options (watched ∷ [])) down ((down ∷ []) ++ (up ∷ up ∷ [])))
      backend
      (pos 7)).healthy
    ≡ leb_ℤ (pos 2) (pos 2)
unfolding new_checker lookup Refuses Answers add_targets insert bytes_eq
run-Recovers_example =
    run-Recovers options (watched ∷ []) backend (new_entry watched) down (down ∷ []) (up ∷ up ∷ [])
      (pos 7) refl refl ((eof, refl), ((eof, refl), tt)) (refl, (refl, tt)) (omega arith)
      (omega arith) (omega arith)
