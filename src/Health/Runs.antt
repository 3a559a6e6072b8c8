-- ===== src/Health/Runs.antt =====
-- A run of failed checks of one backend, and a run of checks that succeed after it.
use ciallo.Common.{
  ℕ, suc, ◌+◌, ◌≡◌, refl, ap, ◌∙◌, Bytes, List, [], ◌∷◌, true, false, not, Option, some, arith,
  bytes_eq, length,
}
use ciallo.Common.Int.{pos, leb_ℤ, ◌≤ℤ◌}
use ciallo.Go.Errors.{Error}
use ciallo.Proxy.Types.{Backend}
use ciallo.Go.Time.{Time}
use ciallo.Common.Dict.{lookup, insert, lookup-insert}
use ciallo.Health.{
  Options, Entry, Checker, fail_entry, succeed_entry, record_failure, record_success, status,
}

-- The failures of a run, each with the two times that it reads.
abbrev pub Failures : Type 0
Failures = List (Option Error × (Time × Time))

module _ (o : Options) where
  unfoldable pub fail_all : Entry → Failures → Entry
  fail_all e [] = e
  fail_all e ((error, (now, now')) ∷ fs) = fail_all (fail_entry o e error now now') fs

  unfoldable pub succeed_all : Entry → List Time → Entry
  succeed_all e [] = e
  succeed_all e (now ∷ ts) = succeed_all (succeed_entry o e now) ts

  -- A run of failures from a healthy entry: the backend stays healthy exactly while the count is below
  -- the threshold.
  pub fail_all-healthy :
      (e : Entry) (fs : Failures)
      → e.healthy ≡ not (leb_ℤ o.failure_threshold (pos e.consecutive_fails))
      → (fail_all e fs).healthy
        ≡ not (leb_ℤ o.failure_threshold (pos (e.consecutive_fails + length fs)))
  unfolding fail_all fail_entry
  fail_all-healthy e [] h =
      let m : e.consecutive_fails + 0 ≡ e.consecutive_fails = omega arith in rw m h
  fail_all-healthy e ((error, (now, now')) ∷ fs) h =
      let m : e.consecutive_fails + suc (length fs) ≡ e.consecutive_fails + 1 + length fs =
        omega arith in
      rw m (fail_all-healthy (fail_entry o e error now now') fs (ground arith))

  fail_all-oks :
      (e : Entry) (fs : Failures) → e.consecutive_oks ≡ 0 → (fail_all e fs).consecutive_oks ≡ 0
  unfolding fail_all
  fail_all-oks e [] h = h
  fail_all-oks e ((error, (now, now')) ∷ fs) h =
      fail_all-oks (fail_entry o e error now now') fs (unfold fail_entry in refl)

  -- Likewise for successes from an entry that is healthy exactly when it has enough of them.
  pub succeed_all-healthy :
      (e : Entry) (ts : List Time)
      → e.healthy ≡ leb_ℤ o.success_threshold (pos e.consecutive_oks)
      → (succeed_all e ts).healthy ≡ leb_ℤ o.success_threshold (pos (e.consecutive_oks + length ts))
  unfolding succeed_all succeed_entry
  succeed_all-healthy e [] h =
      let m : e.consecutive_oks + 0 ≡ e.consecutive_oks = omega arith in rw m h
  succeed_all-healthy e (now ∷ ts) h =
      let m : e.consecutive_oks + suc (length ts) ≡ e.consecutive_oks + 1 + length ts =
        omega arith in
      rw m (succeed_all-healthy (succeed_entry o e now) ts (ground arith))

  pub outage-healthy :
      (e : Entry) (fs : Failures) (ts : List Time)
      → e.healthy ≡ true
      → e.consecutive_fails ≡ 0
      → e.consecutive_oks ≡ 0
      → pos 1 ≤ℤ o.success_threshold
      → pos 1 ≤ℤ o.failure_threshold
      → o.failure_threshold ≤ℤ pos (length fs)
      → (succeed_all (fail_all e fs) ts).healthy ≡ leb_ℤ o.success_threshold (pos (length ts))
  outage-healthy e fs ts good nofails nooks s f many =
      let down = fail_all-healthy e fs (rw (good, nofails) (ground arith)) in
      let oks = fail_all-oks e fs nooks in
      let bad : (fail_all e fs).healthy ≡ false = rw down (rw nofails (ground arith)) in
      let start = succeed_all-healthy (fail_all e fs) ts (rw (bad, oks) (ground arith)) in
      let m : (fail_all e fs).consecutive_oks + length ts ≡ length ts = omega (arith, oks) in
      start ∙ ap (λ (n : ℕ). leb_ℤ o.success_threshold (pos n)) m

-- A history of one backend on a checker.
pub fail_calls : Bytes → Failures → Checker → Checker
fail_calls backend [] c = c
fail_calls backend ((error, (now, now')) ∷ fs) c =
    fail_calls backend fs (record_failure c backend error now now')

pub succeed_calls : Bytes → List Time → Checker → Checker
succeed_calls backend [] c = c
succeed_calls backend (now ∷ ts) c = succeed_calls backend ts (record_success c backend now)

-- The checker has the entry, and the options.
abbrev pub Has : Bytes → Options → Entry → Checker → Type 0
Has backend o e c = (lookup backend c.entries ≡ some e) × (c.options ≡ o)

stored :
    (backend : Bytes) (e : Entry) (c : Checker)
    → Has backend c.options e (record c { entries = insert backend e c.entries })
stored backend e c = (ground (arith, lookup-insert backend backend e c.entries), refl)

pub fail_calls-Has :
    (backend : Bytes) (o : Options) (e : Entry) (fs : Failures) (c : Checker)
    → o.enabled ≡ true
    → Has backend o e c
    → Has backend o (fail_all o e fs) (fail_calls backend fs c)
unfolding fail_calls fail_all
fail_calls-Has backend o e [] c on h = h
fail_calls-Has backend o e ((error, (now, now')) ∷ fs) c on (found, same) =
    fail_calls-Has backend o (fail_entry o e error now now') fs
      (record_failure c backend error now now') on
      (unfold record_failure in
        rw (found, same, on)
          (ground (arith, lookup-insert backend backend (fail_entry o e error now now') c.entries)))

succeed_calls-Has :
    (backend : Bytes) (o : Options) (e : Entry) (ts : List Time) (c : Checker)
    → o.enabled ≡ true
    → Has backend o e c
    → Has backend o (succeed_all o e ts) (succeed_calls backend ts c)
unfolding succeed_calls succeed_all
succeed_calls-Has backend o e [] c on h = h
succeed_calls-Has backend o e (now ∷ ts) c on (found, same) =
    succeed_calls-Has backend o (succeed_entry o e now) ts (record_success c backend now) on (
      unfold record_success in
      rw (found, same, on)
        (ground (arith, lookup-insert backend backend (succeed_entry o e now) c.entries)))

pub Has-healthy :
    (backend : Backend) (o : Options) (e : Entry) (c : Checker) (now : Time)
    → Has backend.addr o e c
    → (status c backend now).healthy ≡ e.healthy
unfolding status
Has-healthy backend o e c now (found, _) = rw found refl

-- The threshold of failures: after failed checks in a row of a backend whose entry was healthy and had
-- no failures, the status is healthy exactly when there were fewer than `FailureThreshold` of them.
pub outage_starts :
    (backend : Backend) (e : Entry) (fs : Failures) (c : Checker) (now : Time)
    → c.options.enabled ≡ true
    → lookup backend.addr c.entries ≡ some e
    → e.healthy ≡ true
    → e.consecutive_fails ≡ 0
    → pos 1 ≤ℤ c.options.failure_threshold
    → (status (fail_calls backend.addr fs c) backend now).healthy
      ≡ not (leb_ℤ c.options.failure_threshold (pos (length fs)))
outage_starts backend e fs c now on found good nofails f =
    let o : Options = c.options in
    let h = fail_calls-Has backend.addr o e fs c on (found, refl) in
    let start = fail_all-healthy o e fs (rw (good, nofails) (ground arith)) in
    let m : e.consecutive_fails + length fs ≡ length fs = omega (arith, nofails) in
    Has-healthy backend o (fail_all o e fs) (fail_calls backend.addr fs c) now h
    ∙ start
    ∙ ap (λ (n : ℕ). not (leb_ℤ o.failure_threshold (pos n))) m

-- The threshold of successes: once enough failures in a row have made the backend unhealthy, it is
-- healthy again exactly after `SuccessThreshold` checks in a row that succeed, whatever the times.
pub outage_ends :
    (backend : Backend) (e : Entry) (fs : Failures) (ts : List Time) (c : Checker) (now : Time)
    → c.options.enabled ≡ true
    → lookup backend.addr c.entries ≡ some e
    → e.healthy ≡ true
    → e.consecutive_fails ≡ 0
    → e.consecutive_oks ≡ 0
    → pos 1 ≤ℤ c.options.success_threshold
    → pos 1 ≤ℤ c.options.failure_threshold
    → c.options.failure_threshold ≤ℤ pos (length fs)
    → (status (succeed_calls backend.addr ts (fail_calls backend.addr fs c)) backend now).healthy
      ≡ leb_ℤ c.options.success_threshold (pos (length ts))
outage_ends backend e fs ts c now on found good nofails nooks s f many =
    let o : Options = c.options in
    let h = fail_calls-Has backend.addr o e fs c on (found, refl) in
    let d = fail_calls backend.addr fs c in
    let h' = succeed_calls-Has backend.addr o (fail_all o e fs) ts d on h in
    Has-healthy backend o (succeed_all o (fail_all o e fs) ts) (succeed_calls backend.addr ts d) now
      h'
    ∙ outage-healthy o e fs ts good nofails nooks s f many
