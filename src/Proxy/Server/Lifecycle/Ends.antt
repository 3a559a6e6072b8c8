-- ===== src/Proxy/Server/Lifecycle/Ends.antt =====
-- The end of the loop of Serve in internal/proxy/server.go.
use ciallo.Common.{
  ℕ, suc, ◌+◌, ◌≤◌, ◌≡◌, refl, ap, sym, ◌∙◌, List, [], ◌∷◌, Bool, true, false, Option, none, some,
  ◌⊎◌, inl, inr, arith, length, length-append, Bool-cases,
}
use ciallo.Go.Errors.{Error, Result, ok, err, listener_closed}
use ciallo.Proxy.Server.Lifecycle.{
  start_serve, cancel, Listener, Life, Phase, accepting, returned, ready, is_set, accept,
  after_accept, serve_result, take_conn, close_listener, shutdown_on, connect_on, queue, shutdown,
  watch, connect, Step, accepts, fails, watches, Run, here, steps, connects, shuts,
}

abbrev pending : Option Listener → ℕ
pending none = 0
pending (some l) = length l.backlog

abbrev of_watching : Bool → ℕ
of_watching true = 1
of_watching false = 0

abbrev of_phase : Phase → ℕ
of_phase accepting = 1
of_phase _ = 0

-- How many steps a server has left, at most.
abbrev left : Life → ℕ
left t = pending t.ln + of_watching t.watching + of_phase t.phase

-- A server in its loop or after it, under a context with the given `ctx.Err()`: it has a listener,
-- which the goroutine of `Serve` has closed or will, and after the context's end the loop returns the
-- error of the context.
pub record IsServing (ctx : Option Error) (t : Life) : Type 0 where
  pub listener : Listener
  pub listens : t.ln ≡ some listener
  pub done : t.ctx_err ≡ ctx
  pub shut : t.watching ≡ false → listener.closed ≡ true
  pub going :
      (t.phase ≡ accepting)
      ⊎ ((out : Option Error) × (t.phase ≡ returned out) × (is_set ctx ≡ true → out ≡ ctx))

serve_result-done :
    (ctx : Option Error) (cause : Error) → is_set ctx ≡ true → serve_result ctx cause ≡ ctx
unfolding serve_result
serve_result-done none cause h = cc
serve_result-done (some e) cause h = ground arith

abbrev Shrinks : Listener → Result ℕ → Listener → Type 0
Shrinks l (ok conn) l' = (length l.backlog ≡ suc (length l'.backlog)) × (l'.closed ≡ l.closed)
Shrinks l (err e) l' = l' ≡ l

take_conn-Shrinks :
    (l l' : Listener) (r : Result ℕ) (conns : List ℕ)
    → l.closed ≡ false
    → l.backlog ≡ conns
    → take_conn conns ≡ some (r, l')
    → Shrinks l r l'
take_conn-Shrinks l l' r [] unshut queue h = cc
take_conn-Shrinks l l' r (conn ∷ conns) unshut queue h =
    let got : r ≡ ok conn = cc in
    let rest : l' ≡ record { backlog = conns; closed = false } = cc in
    rw (got, rest) (ap (λ (cs : List ℕ). length cs) queue, sym unshut)

accept-Shrinks : (l l' : Listener) (r : Result ℕ) → accept l ≡ some (r, l') → Shrinks l r l'
unfolding accept
accept-Shrinks l l' r h = elim (Bool-cases l.closed) [
  | inl shut ↦
      let taken = rw shut at h in
      let got : r ≡ err listener_closed = cc in let same : l' ≡ l = cc in rw (got, same) refl
  | inr unshut ↦ take_conn-Shrinks l l' r l.backlog unshut refl (rw unshut at h)
]

after_accept-left :
    (t : Life) (l l' : Listener) (r : Result ℕ)
    → t.phase ≡ accepting
    → t.ln ≡ some l
    → Shrinks l r l'
    → suc (left (after_accept t r l')) ≤ left t
unfolding after_accept
after_accept-left t l l' (ok c) running found (less, _) = rw (running, found) (omega (arith, less))
after_accept-left t l l' (err cause) running found same = rw (running, found, same) (omega arith)

close_listener-left : (l : Listener) → length (close_listener l).0.backlog ≤ length l.backlog
unfolding close_listener
close_listener-left l = ground arith

close_listener-shuts : (l : Listener) → (close_listener l).0.closed ≡ true
unfolding close_listener
close_listener-shuts l = ground arith

shutdown-left : (t : Life) (expired : Option Error) → left (shutdown t expired).0 ≤ left t
unfolding shutdown
shutdown-left t expired = go t.ln refl
  where
    go : (found : Option Listener) → t.ln ≡ found → left (shutdown_on t expired found).0 ≤ left t
    go none e = omega arith
    go (some l) e = rw e (omega (arith, close_listener-left l))

shutdown-watching :
    (t : Life) (expired : Option Error) → (shutdown t expired).0.watching ≡ t.watching
unfolding shutdown
shutdown-watching t expired = ground arith

watch-left : (t : Life) → t.watching ≡ true → suc (left (watch t)) ≤ left t
unfolding watch
watch-left t on =
    let less = rw (shutdown-watching t none, on) at (shutdown-left t none) in
    rw on (omega (arith, less))

connect-left : (t : Life) (conn : ℕ) → left (connect t conn) ≤ suc (left t)
unfolding connect
connect-left t conn = go t.ln refl
  where
    go : (found : Option Listener) → t.ln ≡ found → left (connect_on t conn found) ≤ suc (left t)
    go none e = omega arith
    go (some l) e = rw e (elim (Bool-cases l.closed) [
      | inl shut ↦ rw shut (omega arith)
      | inr unshut ↦ rw unshut (omega (arith, length-append l.backlog (conn ∷ [])))
    ])

module _ {e : Option Error} where
  after_accept-IsServing :
      (t : Life) (l l' : Listener) (r : Result ℕ)
      → t.ln ≡ some l
      → Shrinks l r l'
      → IsServing e t
      → t.phase ≡ accepting
      → IsServing e (after_accept t r l')
  unfolding after_accept
  after_accept-IsServing t l l' (ok c) found (_, same) s running = record {
    listener = l';
    listens = refl;
    done = s.done;
    shut = λ off. let closed = s.shut off in cc;
    going = inl running;
  }
  after_accept-IsServing t l l' (err cause) found same s running = record {
    listener = l';
    listens = refl;
    done = s.done;
    shut = λ off. let closed = s.shut off in let here = s.listens in cc;
    going =
        inr
          (serve_result t.ctx_err cause, refl, λ over. rw s.done (serve_result-done e cause over));
  }

  shutdown-IsServing :
      (t : Life) (expired : Option Error) → IsServing e t → IsServing e (shutdown t expired).0
  unfolding shutdown close_listener
  shutdown-IsServing t expired s = rw s.listens record {
    listener = (close_listener s.listener).0;
    listens = refl;
    done = s.done;
    shut = λ off. close_listener-shuts s.listener;
    going = s.going;
  }

  watch-IsServing : (t : Life) → IsServing e t → IsServing e (watch t)
  unfolding watch shutdown
  watch-IsServing t s = rw s.listens record {
    listener = (close_listener s.listener).0;
    listens = refl;
    done = s.done;
    shut = λ off. close_listener-shuts s.listener;
    going = s.going;
  }

  connect-IsServing : (t : Life) (conn : ℕ) → IsServing e t → IsServing e (connect t conn)
  unfolding connect
  connect-IsServing t conn s = rw s.listens record {
    listener = queue conn s.listener;
    listens = refl;
    done = s.done;
    shut = λ off. rw (s.shut off) refl;
    going = s.going;
  }

Step-left : {t u : Life} → Step t u → suc (left u) ≤ left t
Step-left (accepts t {l} {l'} {r} running found taken) =
    after_accept-left t l l' r running found (accept-Shrinks l l' r taken)
Step-left (fails t {l} cause running found) = after_accept-left t l l (err cause) running found refl
Step-left (watches t done on) = watch-left t on

Step-IsServing : {e : Option Error} {t u : Life} → Step t u → IsServing e t → IsServing e u
Step-IsServing (accepts t {l} {l'} {r} running found taken) s =
    after_accept-IsServing t l l' r found (accept-Shrinks l l' r taken) s running
Step-IsServing (fails t {l} cause running found) s =
    after_accept-IsServing t l l (err cause) found refl s running
Step-IsServing (watches t done on) s = watch-IsServing t s

Run-IsServing :
    {e : Option Error} {s t : Life} {n a : ℕ} → IsServing e s → Run s n a t → IsServing e t
Run-IsServing i here = i
Run-IsServing i (steps r st) = Step-IsServing st (Run-IsServing i r)
Run-IsServing i (connects {t} r conn) = connect-IsServing t conn (Run-IsServing i r)
Run-IsServing i (shuts {t} r expired) = shutdown-IsServing t expired (Run-IsServing i r)

Run-left : {s t : Life} {n a : ℕ} → Run s n a t → n + left t ≤ left s + a
Run-left here = omega arith
Run-left (steps r st) = omega (arith, Run-left r, Step-left st)
Run-left (connects {t} r conn) = omega (arith, Run-left r, connect-left t conn)
Run-left (shuts {t} r expired) = omega (arith, Run-left r, shutdown-left t expired)

-- A loop that runs after the end of its context is never stuck.
going_on :
    {e : Error} {t : Life} → IsServing (some e) t → t.phase ≡ accepting → (u : Life) × Step t u
unfolding accept
going_on {t} s running = elim (Bool-cases t.watching) [
  | inl on ↦ (watch t, watches t s.done on)
  | inr off ↦
      let closed = s.shut off in
      (
        after_accept t (err listener_closed) s.listener,
        accepts t running s.listens (rw closed refl),
      )
]

start_serve-IsServing :
    (s : Life) (l : Listener) → s.ctx_err ≡ none → IsServing none (start_serve s l)
unfolding start_serve
start_serve-IsServing s l fresh = record {
  listener = l;
  listens = refl;
  done = fresh;
  shut = λ off. cc;
  going = inl refl;
}

cancel-IsServing :
    (t : Life) (e : Error)
    → t.phase ≡ accepting
    → IsServing none t
    → IsServing (some e) (cancel t e)
unfolding cancel
cancel-IsServing t e running s = record {
  listener = s.listener;
  listens = s.listens;
  done = refl;
  shut = s.shut;
  going = inl running;
}

cancel-left : (t : Life) (e : Error) → left (cancel t e) ≤ pending t.ln + 2
unfolding cancel
cancel-left t e = ground arith

-- `Serve` returns once its context ends: after a history of accepted, refused and waiting connections
-- and of calls of `Shutdown`, let the context end with an error while the loop runs. Then at most two
-- more steps follow than there are connections that wait or arrive; as long as `Serve` has not returned
-- there is a step to take; and what it returns is the error of the context. `Ready` stays true all
-- the while, also after the end.
pub serve-Returns :
    {n a m b : ℕ} {t u : Life} (s : Life) (l : Listener) (e : Error)
    → s.ctx_err ≡ none
    → Run (start_serve s l) n a t
    → t.phase ≡ accepting
    → Run (cancel t e) m b u
    → (m ≤ pending t.ln + 2 + b)
      × (ready u ≡ true)
      × ((u.phase ≡ returned (some e)) ⊎ ((v : Life) × Step u v))
unfolding ready
serve-Returns {t} s l e fresh before running after =
    let i = Run-IsServing (start_serve-IsServing s l fresh) before in
    let j = Run-IsServing (cancel-IsServing t e running i) after in
    (
      omega (arith, Run-left after, cancel-left t e),
      rw j.listens refl,
      elim j.going [
        | inl still ↦ inr (going_on j still)
        | inr (out, ended, same) ↦ inl (ended ∙ ap (λ (o : Option Error). returned o) (same refl))
      ],
    )
