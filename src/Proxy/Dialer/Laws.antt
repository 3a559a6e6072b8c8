-- ===== src/Proxy/Dialer/Laws.antt =====
-- The connections that pass through internal/proxy/dialer.go, as a multiset.
use ciallo.Common.{
  ℕ, ◌+◌, ◌≡◌, refl, ap, Bytes, List, [], ◌∷◌, Option, none, some, arith, Bool-cases, inl, inr,
}
use ciallo.Go.Errors.{Result, ok, err}
use ciallo.Go.Time.{Time}
use ciallo.Pool.{Pool, get, needs_conn, put, all_conns}
use ciallo.Pool.Laws.{gets, checks, puts, step}
use ciallo.Pool.Ownership.{count, count-append, option_list, step-conserves}
use ciallo.Proxy.Types.{Backend}
use ciallo.Proxy.Dialer.{
  NetDialer, Attempt, Outcome, put_dialled, refill_pool, refill, refill_on, warm, opened_by,
  dial_status, dial_status_on, dial_status_got,
}

abbrev conns_of : Option Pool → List ℕ
conns_of none = []
conns_of (some p) = all_conns p.idle

abbrev pub idle_conns : NetDialer → List ℕ
idle_conns d = conns_of d.pool

abbrev pub returned : Result ℕ → List ℕ
returned (ok conn) = conn ∷ []
returned (err _) = []

count-put_dialled :
    (x : ℕ) (p : Pool) (addr : Bytes) (a : Attempt) (closes : List ℕ) (outcome : Result ℕ)
    → let r = put_dialled p addr a closes outcome in
      count x (all_conns p.idle) + count x r.opened + count x closes
      ≡ count x (all_conns r.pool.idle) + count x r.closes
unfolding put_dialled count step
count-put_dialled x p addr a closes (err _) = omega arith
count-put_dialled x p addr a closes (ok conn) =
    let refused = (put p addr conn a.put_at).1 in
    omega (arith, step-conserves x p (puts addr conn a.put_at), count-append x closes refused)

count-refill_pool :
    (x : ℕ) (p : Pool) (addr : Bytes) (a : Attempt)
    → let r = refill_pool p addr a in
      count x (all_conns p.idle) + count x r.opened
      ≡ count x (all_conns r.pool.idle) + count x r.closes
unfolding refill_pool count step
count-refill_pool x p addr a =
    let checked = needs_conn p addr a.checked_at in
    let kept = step-conserves x p (checks addr a.checked_at) in
    elim (Bool-cases checked.0) [
      | inl needed ↦
          rw needed (omega (arith, kept, count-put_dialled x checked.1 addr a checked.2 a.outcome))
      | inr enough ↦ rw enough (omega (arith, kept))
    ]

-- Connections that were idle or are opened are afterwards idle or closed, but for those handed out.
abbrev pub Conserves : NetDialer → Outcome → List ℕ → Type 0
Conserves d o handed =
    (x : ℕ)
    → count x (idle_conns d) + count x o.opened
      ≡ count x (idle_conns o.dialer) + count x o.closes + count x handed

refill_on-Conserves :
    (o : Option Pool) (d : NetDialer) (backend : Backend) (a : Attempt)
    → d.pool ≡ o
    → Conserves d (refill_on o d backend a) []
unfolding count
refill_on-Conserves none d backend a e x = omega arith
refill_on-Conserves (some p) d backend a e x =
    let before : count x (idle_conns d) ≡ count x (all_conns p.idle) =
      ap (λ o. count x (conns_of o)) e in
    omega (arith, before, count-refill_pool x p backend.addr a)

refill-Conserves :
    (d : NetDialer) (backend : Backend) (a : Attempt) → Conserves d (refill d backend a) []
unfolding refill
refill-Conserves d backend a = refill_on-Conserves d.pool d backend a refl

-- `Warm` neither loses connections nor makes them up: each one that was idle or that it opens is
-- afterwards idle or closed.
pub warm-Conserves :
    (d : NetDialer) (backends : List (Backend × Attempt)) → Conserves d (warm d backends) []
unfolding warm count
warm-Conserves d [] x = omega arith
warm-Conserves d ((backend, a) ∷ rest) x =
    let first = refill d backend a in
    let others = warm first.dialer rest in
    omega (
      arith,
      refill-Conserves d backend a x,
      warm-Conserves first.dialer rest x,
      count-append x first.opened others.opened,
      count-append x first.closes others.closes,
    )

dial_status_got-Conserves :
    (d : NetDialer) (backend : Backend) (p : Pool) (closes : List ℕ) (o : Option ℕ)
    (outcome : Result ℕ) (a : Attempt) (x : ℕ)
    → let r = dial_status_got d backend p closes o outcome a in
      count x (all_conns p.idle)
        + count x (option_list o)
        + count x closes
        + count x r.outcome.opened
      ≡ count x (idle_conns r.outcome.dialer)
        + count x r.outcome.closes
        + count x (returned r.result)
unfolding count
dial_status_got-Conserves d backend p closes (some conn) outcome a x = omega arith
dial_status_got-Conserves d backend p closes none outcome a x =
    let refilled = refill (record d { pool = some p }) backend a in
    let made : count x (opened_by outcome) ≡ count x (returned outcome) = elim outcome [
      | ok _ ↦ refl
      | err _ ↦ refl
    ] in
    omega (
      arith,
      made,
      refill-Conserves (record d { pool = some p }) backend a x,
      count-append x (opened_by outcome) refilled.opened,
      count-append x closes refilled.closes,
    )

dial_status_on-Conserves :
    (o : Option Pool) (d : NetDialer) (backend : Backend) (now : Time) (outcome : Result ℕ)
    (a : Attempt)
    → d.pool ≡ o
    → let r = dial_status_on o d backend now outcome a in Conserves d r.outcome (returned r.result)
unfolding count step
dial_status_on-Conserves none d backend now (ok conn) a e x = omega arith
dial_status_on-Conserves none d backend now (err _) a e x = omega arith
dial_status_on-Conserves (some p) d backend now outcome a e x =
    let got = get p backend.addr now in
    let before : count x (idle_conns d) ≡ count x (all_conns p.idle) =
      ap (λ o. count x (conns_of o)) e in
    omega (
      arith,
      before,
      step-conserves x p (gets backend.addr now),
      dial_status_got-Conserves d backend got.pool got.closes got.result outcome a x,
    )

-- With a pool or without one, on a hit, on a miss and after a dial that fails: each connection
-- that was idle or that `DialStatus` opens is afterwards idle, closed, or the one it returns, and
-- only one of these.
pub dial_status-Conserves :
    (d : NetDialer) (backend : Backend) (now : Time) (outcome : Result ℕ) (a : Attempt)
    → let r = dial_status d backend now outcome a in Conserves d r.outcome (returned r.result)
unfolding dial_status
dial_status-Conserves d backend now outcome a =
    dial_status_on-Conserves d.pool d backend now outcome a refl
