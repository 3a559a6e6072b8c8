-- ===== src/Health/Run/Laws.antt =====
-- What the rounds of `Run` in internal/health/checker.go make of one backend.
use ciallo.Common.{
  ℕ, suc, ◌≡◌, refl, ap, ◌∙◌, Bytes, List, [], ◌∷◌, ◌++◌, Bool, true, if◌then◌else◌, none, some,
  bytes_eq, length,
}
use ciallo.Common.Int.{pos, leb_ℤ, ◌≤ℤ◌}
use ciallo.Common.Dict.{lookup}
use ciallo.Go.Errors.{Error}
use ciallo.Go.Time.{Time}
use ciallo.Proxy.Types.{Backend}
use ciallo.Health.{
  Options, BackendTarget, Entry, Checker, fail_entry, succeed_entry, status, new_checker,
  with_default,
}
use ciallo.Health.Round.{check_once}
use ciallo.Health.Round.Laws.{entry_result, check_once-outcomes}
use ciallo.Health.Round.Keeps.{IsWhole, check_once-Keeps, entry_result-target}
use ciallo.Health.Runs.{Failures, fail_all, succeed_all, outage-healthy, Has, Has-healthy}
use ciallo.Health.Run.Fresh.{new_checker-IsWhole, new_checker-IsFresh}
use ciallo.Health.Run.{Round, run_ticks, run}

-- What is known of the checker and of one of its backends.
abbrev Watches : Bytes → Options → Entry → Checker → Type 0
Watches k o e c = Has k o e c × IsWhole c

round_result : Options → Entry → Round → Entry
round_result o e r = entry_result o e (r.check e.target) (r.clock e.target)

check_once-Watches :
    (k : Bytes) (o : Options) (e : Entry) (r : Round) (c : Checker)
    → o.enabled ≡ true
    → Watches k o e c
    → Watches k o (round_result o e r) (check_once r.check r.clock c)
unfolding round_result
check_once-Watches k o e r c on ((found, same), (unique, keyed)) =
    let c_on : c.options.enabled ≡ true = rw same on in
    let (kept, whole) = check_once-Keeps r.check r.clock c c_on (unique, keyed) in
    let result = check_once-outcomes r.check r.clock c k c_on unique keyed in
    ((result ∙ rw (found, same) refl, kept ∙ same), whole)

-- A backend that fails in every round, and one that answers.
unfoldable pub Refuses : BackendTarget → List Round → Type 0
Refuses t [] = Unit
Refuses t (r ∷ rs) = ((e : Error) × (r.check t ≡ some e)) × Refuses t rs

unfoldable pub Answers : BackendTarget → List Round → Type 0
Answers t [] = Unit
Answers t (r ∷ rs) = (r.check t ≡ none) × Answers t rs

abbrev failures : BackendTarget → List Round → Failures
failures t [] = []
failures t (r ∷ rs) = (r.check t, r.clock t) ∷ failures t rs

abbrev times : BackendTarget → List Round → List Time
times t [] = []
times t (r ∷ rs) = (r.clock t).0 ∷ times t rs

round_result-fail :
    (o : Options) (e : Entry) (t : BackendTarget) (r : Round) (cause : Error)
    → e.target ≡ t
    → r.check t ≡ some cause
    → round_result o e r ≡ fail_entry o e (r.check t) (r.clock t).0 (r.clock t).1
unfolding round_result
round_result-fail o e t r cause same fails = rw (same, fails) refl

round_result-succeed :
    (o : Options) (e : Entry) (t : BackendTarget) (r : Round)
    → e.target ≡ t
    → r.check t ≡ none
    → round_result o e r ≡ succeed_entry o e (r.clock t).0
unfolding round_result
round_result-succeed o e t r same passes = rw (same, passes) refl

round_result-target : (o : Options) (e : Entry) (r : Round) → (round_result o e r).target ≡ e.target
unfolding round_result
round_result-target o e r = entry_result-target o e (r.check e.target) (r.clock e.target)

-- What the rounds make of an entry.
replay : Options → Entry → List Round → Entry
replay o e [] = e
replay o e (r ∷ rs) = replay o (round_result o e r) rs

run_ticks-Watches :
    (k : Bytes) (o : Options) (e : Entry) (rs : List Round) (c : Checker)
    → o.enabled ≡ true
    → Watches k o e c
    → Watches k o (replay o e rs) (run_ticks c rs)
unfolding run_ticks replay
run_ticks-Watches k o e [] c on w = w
run_ticks-Watches k o e (r ∷ rs) c on w =
    run_ticks-Watches k o (round_result o e r) rs (check_once r.check r.clock c) on
      (check_once-Watches k o e r c on w)

replay-Refuses :
    (o : Options) (e : Entry) (t : BackendTarget) (rs ts : List Round)
    → e.target ≡ t
    → Refuses t rs
    → replay o e (rs ++ ts) ≡ replay o (fail_all o e (failures t rs)) ts
unfolding replay Refuses fail_all
replay-Refuses o e t [] ts same h = refl
replay-Refuses o e t (r ∷ rs) ts same ((cause, fails), h) =
    replay-Refuses o (round_result o e r) t rs ts (round_result-target o e r ∙ same) h
    ∙ ap (λ (f : Entry). replay o (fail_all o f (failures t rs)) ts)
        (round_result-fail o e t r cause same fails)

replay-Answers :
    (o : Options) (e : Entry) (t : BackendTarget) (rs : List Round)
    → e.target ≡ t
    → Answers t rs
    → replay o e rs ≡ succeed_all o e (times t rs)
unfolding replay Answers succeed_all
replay-Answers o e t [] same h = refl
replay-Answers o e t (r ∷ rs) same (passes, h) =
    replay-Answers o (round_result o e r) t rs (round_result-target o e r ∙ same) h
    ∙ ap (λ (f : Entry). succeed_all o f (times t rs)) (round_result-succeed o e t r same passes)

fail_all-target : (o : Options) (e : Entry) (fs : Failures) → (fail_all o e fs).target ≡ e.target
unfolding fail_all fail_entry
fail_all-target o e [] = refl
fail_all-target o e ((cause, (now, now')) ∷ fs) =
    fail_all-target o (fail_entry o e cause now now') fs

length-times : (t : BackendTarget) (rs : List Round) → length (times t rs) ≡ length rs
length-times t [] = refl
length-times t (r ∷ rs) = ap (λ (n : ℕ). suc n) (length-times t rs)

length-failures : (t : BackendTarget) (rs : List Round) → length (failures t rs) ≡ length rs
length-failures t [] = refl
length-failures t (r ∷ rs) = ap (λ (n : ℕ). suc n) (length-failures t rs)

-- The checks notice an outage and its end: take a new checker that is enabled, and a backend that it
-- watches. If the backend's check fails in the first rounds of `Run`, at least `FailureThreshold` of
-- them, and passes in all rounds from then on, then the backend is healthy exactly when
-- `SuccessThreshold` rounds have passed since. The thresholds are at least one; the checks of other
-- backends and the times are arbitrary.
pub run-Recovers :
    (o : Options) (targets : List BackendTarget) (backend : Backend) (e : Entry) (start : Round)
    (down up : List Round) (now : Time)
    → o.enabled ≡ true
    → lookup backend.addr (new_checker o targets).entries ≡ some e
    → Refuses e.target (start ∷ down)
    → Answers e.target up
    → pos 1 ≤ℤ (with_default o).success_threshold
    → pos 1 ≤ℤ (with_default o).failure_threshold
    → (with_default o).failure_threshold ≤ℤ pos (suc (length down))
    → (status (run (new_checker o targets) start (down ++ up)) backend now).healthy
      ≡ leb_ℤ (with_default o).success_threshold (pos (length up))
unfolding run run_ticks new_checker
run-Recovers o targets backend e start down up now on found refuses answers s f many =
    let c : Checker = new_checker o targets in
    let d : Options = with_default o in
    let fs : Failures = failures e.target (start ∷ down) in
    let bad : Entry = fail_all d e fs in
    let rounds : List Round = start ∷ (down ++ up) in
    let whole = new_checker-IsWhole o targets in
    let (good, nofails, nooks) = new_checker-IsFresh o targets backend.addr e found in
    let (h, _) = run_ticks-Watches backend.addr d e rounds c on ((found, refl), whole) in
    let replayed : replay d e rounds ≡ succeed_all d bad (times e.target up) =
      replay-Refuses d e e.target (start ∷ down) up refl refuses
      ∙ replay-Answers d bad e.target up (fail_all-target d e fs) answers in
    let running : run c start (down ++ up) ≡ run_ticks c rounds =
      ap (λ (b : Bool). if b then run_ticks c rounds else c) on in
    ap (λ (x : Checker). (status x backend now).healthy) running
    ∙ Has-healthy backend d (replay d e rounds) (run_ticks c rounds) now h
    ∙ ap (λ (x : Entry). x.healthy) replayed
    ∙ outage-healthy d e fs (times e.target up) good nofails nooks s f
        (rw (length-failures e.target (start ∷ down)) many)
    ∙ ap (λ (n : ℕ). leb_ℤ d.success_threshold (pos n)) (length-times e.target up)
