-- ===== src/Pool/Tests.antt =====
-- A pool of two connections a backend that are good for thirty seconds, in seconds.
use ciallo.Common.{◌+◌, ◌≡◌, refl, Bytes, [], ◌∷◌, true, false, ℕ_discrete, some, bytes_eq}
use ciallo.Common.Int.{pos, ◌-ℤ◌}
use ciallo.Common.Dict.{lookup}
use ciallo.Go.Text.{codes}
use ciallo.Go.Time.{sub}
use ciallo.Pool.{Options, Pool, new_pool, take_live, get, keep_live, needs_conn, all_conns}
use ciallo.Pool.Laws.{Call, step, run, IsBounded, run-IsBounded}
use ciallo.Pool.Ownership.{count, brought, handed_out, closed_by, step-conserves}

abbrev backend : Bytes
backend = codes "a"

abbrev options : Options
options = record { max_idle_per_backend = pos 2; idle_timeout = pos 30 }

-- One connection that is still good over one that is not.
abbrev pool : Pool
pool = record {
  options = options;
  idle =
      (
        backend,
        record { conn = 8; added_at = pos 90 } ∷ record { conn = 7; added_at = pos 10 } ∷ [],
      )
      ∷ [];
  closed = false;
}

run-IsBounded_example : IsBounded (
    run (new_pool options) (
      Call.puts backend 7 (pos 1) ∷ Call.puts backend 8 (pos 2) ∷ Call.puts backend 9 (pos 3) ∷ []))
run-IsBounded_example =
    run-IsBounded options
      (Call.puts backend 7 (pos 1) ∷ Call.puts backend 8 (pos 2) ∷ Call.puts backend 9 (pos 3) ∷ [])

step-conserves_example :
    count 7 (all_conns pool.idle) + count 7 (brought (Call.gets backend (pos 130)))
    ≡ count 7 (all_conns (step pool (Call.gets backend (pos 130))).idle)
      + count 7 (handed_out pool (Call.gets backend (pos 130)))
      + count 7 (closed_by pool (Call.gets backend (pos 130)))
step-conserves_example = step-conserves 7 pool (Call.gets backend (pos 130))

handed : (get pool backend (pos 100)).result ≡ some 8
unfolding get take_live lookup sub ◌-ℤ◌ bytes_eq ℕ_discrete
handed = refl

needs_one : (needs_conn pool backend (pos 100)).0 ≡ true
unfolding needs_conn keep_live lookup sub ◌-ℤ◌ bytes_eq ℕ_discrete
needs_one = refl
