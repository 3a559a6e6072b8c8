-- ===== src/Health/Laws.antt =====
-- Any calls in any order on a checker of internal/health/checker.go.
use ciallo.Common.{
  ◌+◌, ◌≡◌, refl, sym, ap, subst, Bytes, List, [], ◌∷◌, Bool, true, false, ◌&&◌, ◌||◌, not,
  if◌then◌else◌, Option, none, some, ◌==◌, bytes_eq, Bool-cases, inl, inr,
}
use ciallo.Common.Int.{pos, leb_ℤ}
use ciallo.Common.Dict.{Dict, lookup, insert, lookup-insert, lookup-nil}
use ciallo.Go.Defaults.{is_blank, or_text}
use ciallo.Go.Errors.{Error}
use ciallo.Go.Time.{Time, zero_time}
use ciallo.Proxy.Types.{Backend}
use ciallo.Health.{
  Options, BackendTarget, Entry, Checker, new_entry, add_targets, new_checker, entry_or_new,
  fail_entry, succeed_entry, record_failure, record_success, is_circuit_open, status, is_unhealthy,
  fallback_probe_host, with_default, insert_if_new, status_of,
}

pub data Call : Type 0 where
  fails : Bytes → Option Error → Time → Time → Call
  succeeds : Bytes → Time → Call

pub step : Checker → Call → Checker
step c (Call.fails backend error now now') = record_failure c backend error now now'
step c (Call.succeeds backend now) = record_success c backend now

pub run : Checker → List Call → Checker
run c [] = c
run c (call ∷ calls) = run (step c call) calls

-- That a backend which counts as healthy has no open circuit.
abbrev pub IsSettled : Entry → Type 0
IsSettled e = e.healthy ≡ true → e.circuit_open_until ≡ zero_time

abbrev pub Settled : Option Entry → Type 0
Settled none = Unit
Settled (some e) = IsSettled e

abbrev pub AllSettled : Dict Bytes Entry → Type 0
AllSettled m = (k : Bytes) → Settled (lookup k m)

new_entry-IsSettled : (t : BackendTarget) → IsSettled (new_entry t)
new_entry-IsSettled t h = refl

fail_entry-IsSettled :
    (o : Options) (e : Entry) (error : Option Error) (now now' : Time)
    → IsSettled e
    → IsSettled (fail_entry o e error now now')
unfolding fail_entry
fail_entry-IsSettled o e error now now' h =
    elim (Bool-cases (leb_ℤ o.failure_threshold (pos (e.consecutive_fails + 1)))) [
      | inl t ↦ rw t (λ absurd. cc)
      | inr f ↦ rw f h
    ]

succeed_entry-IsSettled :
    (o : Options) (e : Entry) (now : Time) → IsSettled e → IsSettled (succeed_entry o e now)
unfolding succeed_entry
succeed_entry-IsSettled o e now h =
    elim (Bool-cases (leb_ℤ o.success_threshold (pos (e.consecutive_oks + 1)))) [
      | inl t ↦ rw t (λ _. refl)
      | inr f ↦ rw f h
    ]

insert-AllSettled :
    (k : Bytes) (e : Entry) (m : Dict Bytes Entry)
    → IsSettled e
    → AllSettled m
    → AllSettled (insert k e m)
insert-AllSettled k e m he hm j =
    rw (lookup-insert j k e m)
      (elim (Bool-cases (j == k)) [ inl t ↦ rw t he | inr f ↦ rw f (hm j) ])

entry_or_new-IsSettled :
    (backend : Bytes) (found : Option Entry)
    → Settled found
    → IsSettled (entry_or_new backend found)
entry_or_new-IsSettled backend none h = λ _. refl
entry_or_new-IsSettled backend (some e) h = h

AllSettled-if :
    (b : Bool) (m n : Dict Bytes Entry)
    → AllSettled m
    → AllSettled n
    → AllSettled (if b then m else n)
AllSettled-if true m n hm hn = hm
AllSettled-if false m n hm hn = hn

insert_if_new-AllSettled :
    (k : Bytes) (e : Entry) (m : Dict Bytes Entry) (found : Option Entry)
    → lookup k m ≡ found
    → IsSettled e
    → AllSettled m
    → AllSettled (insert_if_new k e m)
insert_if_new-AllSettled k e m none new he h =
    subst (λ (o : Option Entry). AllSettled (elim o [ none ↦ insert k e m | some _ ↦ m ])) (sym new)
      (insert-AllSettled k e m he h)
insert_if_new-AllSettled k e m (some d) old he h =
    subst (λ (o : Option Entry). AllSettled (elim o [ none ↦ insert k e m | some _ ↦ m ])) (sym old)
      h

add_targets-AllSettled :
    (o : Options) (ts : List BackendTarget) (m : Dict Bytes Entry)
    → AllSettled m
    → AllSettled (add_targets o ts m)
unfolding add_targets
add_targets-AllSettled o [] m h = h
add_targets-AllSettled o (t ∷ ts) m h =
    let addr = t.backend.addr in
    let host = or_text t.probe_host (fallback_probe_host o.probe_host addr) in
    let e = new_entry (record t { probe_host = host }) in
    let next = if is_blank addr then m else insert_if_new addr e m in
    add_targets-AllSettled o ts next (
      AllSettled-if (is_blank addr) m (insert_if_new addr e m) h
        (insert_if_new-AllSettled addr e m (lookup addr m) refl (λ _. refl) h))

-- The invariant of a checker.
abbrev pub IsConsistent : Checker → Type 0
IsConsistent c = AllSettled c.entries

pub new_checker-IsConsistent :
    (o : Options) (ts : List BackendTarget) → IsConsistent (new_checker o ts)
unfolding new_checker
new_checker-IsConsistent o ts =
    add_targets-AllSettled (with_default o) ts [] (λ k. rw (lookup-nil k) tt)

IsConsistent-if :
    (b : Bool) (c d : Checker) → IsConsistent c → IsConsistent d → IsConsistent (if b then c else d)
IsConsistent-if true c d hc hd = hc
IsConsistent-if false c d hc hd = hd

pub step-IsConsistent : (c : Checker) (call : Call) → IsConsistent c → IsConsistent (step c call)
unfolding step record_failure record_success
step-IsConsistent c (Call.fails backend error now now') h =
    let old = entry_or_new backend (lookup backend c.entries) in
    let e = fail_entry c.options old error now now' in
    IsConsistent-if c.options.enabled (record c { entries = insert backend e c.entries }) c
      (insert-AllSettled backend e c.entries
        (fail_entry-IsSettled c.options old error now now'
          (entry_or_new-IsSettled backend (lookup backend c.entries) (h backend)))
        h)
      h
step-IsConsistent c (Call.succeeds backend now) h =
    let old = entry_or_new backend (lookup backend c.entries) in
    let e = succeed_entry c.options old now in
    IsConsistent-if c.options.enabled (record c { entries = insert backend e c.entries }) c
      (insert-AllSettled backend e c.entries
        (succeed_entry-IsSettled c.options old now
          (entry_or_new-IsSettled backend (lookup backend c.entries) (h backend)))
        h)
      h

pub run-IsConsistent :
    (c : Checker) (calls : List Call) → IsConsistent c → IsConsistent (run c calls)
unfolding run
run-IsConsistent c [] h = h
run-IsConsistent c (call ∷ calls) h =
    run-IsConsistent (step c call) calls (step-IsConsistent c call h)

status_of-Settled :
    (found : Option Entry) (now : Time)
    → Settled found
    → (not (status_of found now).healthy || (status_of found now).circuit_open)
      ≡ not (status_of found now).healthy
unfolding is_circuit_open
status_of-Settled none now h = refl
status_of-Settled (some e) now h = elim (Bool-cases e.healthy) [
  | inl good ↦ rw (good, h good) refl
  | inr bad ↦ rw bad refl
]

-- After any calls on a new checker, a backend counts as unhealthy exactly when the checker is enabled
-- and the backend's status is not healthy: whether its circuit is still open at that time, which
-- `CircuitBreakerTTL` is for, never decides.
pub is_unhealthy-timeless :
    (o : Options) (ts : List BackendTarget) (calls : List Call) (backend : Backend) (now : Time)
    → let c = run (new_checker o ts) calls in
      is_unhealthy c backend now ≡ (c.options.enabled && not (status c backend now).healthy)
unfolding is_unhealthy status
is_unhealthy-timeless o ts calls backend now =
    let c = run (new_checker o ts) calls in
    ap (λ (x : Bool). c.options.enabled && x)
      (status_of-Settled (lookup backend.addr c.entries) now
        (run-IsConsistent (new_checker o ts) calls (new_checker-IsConsistent o ts) backend.addr))
