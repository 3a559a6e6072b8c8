-- ===== src/Proxy/Dialer.antt =====
-- internal/proxy/dialer.go. A dial's outcome, which is a connection or an error, and the times that
-- the pool reads are inputs. `none` is a nil pool. `Refill` is one step here, and `DialStatus` too: a
-- call of the pool by another goroutine in between is a step of internal/pool.
pub mod Laws
pub mod Tests
use ciallo.Common.{
  ℕ, Bytes, List, [], ◌∷◌, ◌++◌, Bool, true, false, if◌then◌else◌, Option, none, some,
}
use ciallo.Go.Errors.{Error, Result, ok, err}
use ciallo.Go.Time.{Time, Duration}
use ciallo.Pool.{Pool, get, needs_conn, put}
use ciallo.Proxy.Types.{Backend}

pub record NetDialer : Type 0 where
  pub timeout : Duration
  pub pool : Option Pool

-- `Dial`, over `dialFresh`.
pub dial : NetDialer → Backend → Result ℕ → Result ℕ
dial d backend outcome = outcome

-- What a refill reads: the time of `NeedsConn`, the outcome of the dial, the time of `Put`.
pub record Attempt : Type 0 where
  pub checked_at : Time
  pub outcome : Result ℕ
  pub put_at : Time

-- A pool afterwards, the connections that were opened for it, and those that were closed.
pub record Refilled : Type 0 where
  pub pool : Pool
  pub opened : List ℕ
  pub closes : List ℕ

put_dialled : Pool → Bytes → Attempt → List ℕ → Result ℕ → Refilled
put_dialled p addr a closes (err _) = record { pool = p; opened = []; closes = closes }
put_dialled p addr a closes (ok conn) =
    let (p', refused) = put p addr conn a.put_at in
    record { pool = p'; opened = conn ∷ []; closes = closes ++ refused }

-- `Refill` of a pool that is there.
pub refill_pool : Pool → Bytes → Attempt → Refilled
unfolding put_dialled
refill_pool p addr a =
    let (needed, p', closes) = needs_conn p addr a.checked_at in
    if needed
    then put_dialled p' addr a closes a.outcome
    else record { pool = p'; opened = []; closes = closes }

pub record Outcome : Type 0 where
  pub dialer : NetDialer
  pub opened : List ℕ
  pub closes : List ℕ

abbrev pub with_pool : NetDialer → Refilled → Outcome
with_pool d r = record {
  dialer = record d { pool = some r.pool };
  opened = r.opened;
  closes = r.closes;
}

-- `Refill`
abbrev pub refill_on : Option Pool → NetDialer → Backend → Attempt → Outcome
refill_on none d backend a = record { dialer = d; opened = []; closes = [] }
refill_on (some p) d backend a = with_pool d (refill_pool p backend.addr a)

pub refill : NetDialer → Backend → Attempt → Outcome
refill d backend a = refill_on d.pool d backend a

-- `Warm`; every backend has the attempt that its refill makes.
pub warm : NetDialer → List (Backend × Attempt) → Outcome
warm d [] = record { dialer = d; opened = []; closes = [] }
warm d ((backend, a) ∷ rest) =
    let first = refill d backend a in
    let others = warm first.dialer rest in
    record others { opened = first.opened ++ others.opened; closes = first.closes ++ others.closes }

abbrev pub opened_by : Result ℕ → List ℕ
opened_by (ok conn) = conn ∷ []
opened_by (err _) = []

-- What `DialStatus` returns. With `refills` it has started a `Refill` of its own goroutine.
pub record Dialled : Type 0 where
  pub result : Result ℕ
  pub refills : Bool
  pub outcome : Outcome

abbrev pub dial_status_miss : NetDialer → Backend → List ℕ → Result ℕ → Outcome → Dialled
dial_status_miss d backend closes result refilled = record {
  result = result;
  refills = false;
  outcome = record refilled {
    opened = opened_by result ++ refilled.opened;
    closes = closes ++ refilled.closes;
  };
}

-- A hit in the pool, or a dial and then the deferred `Refill`.
abbrev pub dial_status_got :
    NetDialer → Backend → Pool → List ℕ → Option ℕ → Result ℕ → Attempt → Dialled
dial_status_got d backend p closes (some conn) outcome a = record {
  result = ok conn;
  refills = true;
  outcome = record { dialer = record d { pool = some p }; opened = []; closes = closes };
}
dial_status_got d backend p closes none outcome a =
    dial_status_miss d backend closes outcome (refill (record d { pool = some p }) backend a)

abbrev pub dial_status_on : Option Pool → NetDialer → Backend → Time → Result ℕ → Attempt → Dialled
dial_status_on none d backend now outcome a = record {
  result = outcome;
  refills = false;
  outcome = record { dialer = d; opened = opened_by outcome; closes = [] };
}
dial_status_on (some p) d backend now outcome a =
    let got = get p backend.addr now in
    dial_status_got d backend got.pool got.closes got.result outcome a

-- `DialStatus`
pub dial_status : NetDialer → Backend → Time → Result ℕ → Attempt → Dialled
dial_status d backend now outcome a = dial_status_on d.pool d backend now outcome a
