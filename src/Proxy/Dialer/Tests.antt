-- ===== src/Proxy/Dialer/Tests.antt =====
-- A dialer with a pool of one connection, on a hit and on a miss.
use ciallo.Common.{[], ◌∷◌, none, some, false}
use ciallo.Common.Int.{pos}
use ciallo.Go.Errors.{ok}
use ciallo.Go.Text.{codes}
use ciallo.Proxy.Types.{Backend}
use ciallo.Proxy.Dialer.{NetDialer, Attempt, dial_status}
use ciallo.Proxy.Dialer.Laws.{Conserves, returned, dial_status-Conserves}

abbrev lobby : Backend
lobby = record { name = codes "lobby"; addr = codes "lobby:25565"; status_cache = none }

abbrev one_idle : NetDialer
one_idle = record {
  timeout = pos 3;
  pool = some (record {
    options = record { max_idle_per_backend = pos 2; idle_timeout = pos 30 };
    idle = (codes "lobby:25565", record { conn = 5; added_at = pos 10 } ∷ []) ∷ [];
    closed = false;
  });
}

abbrev refill_later : Attempt
refill_later = record { checked_at = pos 51; outcome = ok 9; put_at = pos 52 }

-- At 50 the idle connection is too old: it is closed, 8 is dialed and returned, 9 goes to the pool.
dial_status-Conserves_example :
    let r = dial_status one_idle lobby (pos 50) (ok 8) refill_later in
    Conserves one_idle r.outcome (returned r.result)
dial_status-Conserves_example = dial_status-Conserves one_idle lobby (pos 50) (ok 8) refill_later
