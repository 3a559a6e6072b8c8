-- ===== src/Pool/Laws.antt =====
-- Runs of the methods of internal/pool/pool.go: limits, ages and `close`.
use ciallo.Common.{
  ℕ, ◌≤◌, ◌≡◌, refl, Bytes, List, [], ◌∷◌, true, false, none, some, bytes_eq, length, arith, ◌⊎◌,
  inl, inr, Bool-cases,
}
use ciallo.Common.Int.{pos, ◌≤ℤ◌, ◌<ℤ◌}
use ciallo.Common.Dict.{lookup, insert, lookup-insert}
use ciallo.Go.Time.{Time, Duration, sub}
use ciallo.Pool.{
  Options, PooledConn, Pool, new_pool, idle_of, is_live, take_live, store_left, get, keep_live,
  needs_conn, put, close, all_conns,
}

-- No backend has more idle connections than the limit allows, and the limit allows one.
pub record IsBounded (p : Pool) : Type 0 where
  pub limit : pos 0 <ℤ p.options.max_idle_per_backend
  pub bounded :
      (backend : Bytes) → pos (length (idle_of p backend)) ≤ℤ p.options.max_idle_per_backend

new_pool-IsBounded : (o : Options) → IsBounded (new_pool o)
unfolding new_pool lookup
new_pool-IsBounded o = record { limit = ground arith; bounded = λ backend. ground arith }

abbrev HasConn : PooledConn → List PooledConn → Type 0
HasConn item [] = ⊥
HasConn item (x ∷ xs) = (item ≡ x) ⊎ HasConn item xs

-- A call of a method, with the time that it reads.
pub data Call : Type 0 where
  gets : Bytes → Time → Call
  checks : Bytes → Time → Call
  puts : Bytes → ℕ → Time → Call
  closes : Call

unfoldable pub step : Pool → Call → Pool
step p (gets backend now) = (get p backend now).pool
step p (checks backend now) = (needs_conn p backend now).1
step p (puts backend conn now) = (put p backend conn now).0
step p closes = (close p).0

pub run : Pool → List Call → Pool
run p [] = p
run p (c ∷ cs) = run (step p c) cs

length-take_live :
    (timeout : Duration) (now : Time) (cs : List PooledConn)
    → length (take_live timeout now cs).left ≤ length cs
unfolding take_live
length-take_live timeout now [] = omega arith
length-take_live timeout now (item ∷ rest) = ground (arith, length-take_live timeout now rest)

length-keep_live :
    (timeout : Duration) (now : Time) (cs : List PooledConn)
    → length (keep_live timeout now cs) ≤ length cs
unfolding keep_live
length-keep_live timeout now [] = omega arith
length-keep_live timeout now (item ∷ rest) = ground (arith, length-keep_live timeout now rest)

-- Writing a list within the limit under one backend.
write-IsBounded :
    (p : Pool) (backend : Bytes) (cs : List PooledConn)
    → pos (length cs) ≤ℤ p.options.max_idle_per_backend
    → IsBounded p
    → IsBounded (record p { idle = insert backend cs p.idle })
write-IsBounded p backend cs h v = record {
  limit = v.limit;
  bounded = λ other. ground (arith, lookup-insert other backend cs p.idle, v.bounded other);
}

store_left-IsBounded :
    (p : Pool) (backend : Bytes) (old cs : List PooledConn)
    → pos (length cs) ≤ℤ p.options.max_idle_per_backend
    → IsBounded p
    → IsBounded (store_left p backend old cs)
store_left-IsBounded p backend [] cs h v = v
store_left-IsBounded p backend (_ ∷ _) cs h v = write-IsBounded p backend cs h v

closed-IsBounded : (p : Pool) → IsBounded p → IsBounded (record p { idle = []; closed = true })
unfolding lookup
closed-IsBounded p v = record { limit = v.limit; bounded = λ backend. omega (arith, v.limit) }

step-IsBounded : (p : Pool) (c : Call) → IsBounded p → IsBounded (step p c)
unfolding step get needs_conn put close
step-IsBounded p (gets backend now) v =
    let timeout = p.options.idle_timeout in
    let left = (take_live timeout now (idle_of p backend)).left in
    let fits : pos (length left) ≤ℤ p.options.max_idle_per_backend =
      omega (arith, length-take_live timeout now (idle_of p backend), v.bounded backend) in
    ground (arith, v, store_left-IsBounded p backend (idle_of p backend) left fits v)
step-IsBounded p (checks backend now) v =
    let kept = keep_live p.options.idle_timeout now (idle_of p backend) in
    let fits : pos (length kept) ≤ℤ p.options.max_idle_per_backend =
      omega (
        arith,
        length-keep_live p.options.idle_timeout now (idle_of p backend),
        v.bounded backend,
      ) in
    ground (arith, v, write-IsBounded p backend kept fits v)
step-IsBounded p (puts backend conn now) v =
    let cs : List PooledConn = record { conn = conn; added_at = now } ∷ idle_of p backend in
    ground (
      arith,
      v,
      λ (fits : pos (length cs) ≤ℤ p.options.max_idle_per_backend).
          write-IsBounded p backend cs fits v,
    )
step-IsBounded p closes v = ground (arith, v, closed-IsBounded p v)

run-keeps-IsBounded : (p : Pool) (cs : List Call) → IsBounded p → IsBounded (run p cs)
unfolding run
run-keeps-IsBounded p [] v = v
run-keeps-IsBounded p (c ∷ cs) v = run-keeps-IsBounded (step p c) cs (step-IsBounded p c v)

-- After any calls on a new pool no backend has more idle connections than the limit.
pub run-IsBounded : (o : Options) (cs : List Call) → IsBounded (run (new_pool o) cs)
run-IsBounded o cs = run-keeps-IsBounded (new_pool o) cs (new_pool-IsBounded o)

-- An idle connection that is not too old, by its number.
abbrev pub Offers : Duration → Time → List PooledConn → ℕ → Type 0
Offers timeout now cs conn =
    (item : PooledConn) × (item.conn ≡ conn) × (sub now item.added_at ≤ℤ timeout) × HasConn item cs

take_live-Offers :
    (timeout : Duration) (now : Time) (cs : List PooledConn) (conn : ℕ)
    → (take_live timeout now cs).handed ≡ some conn
    → Offers timeout now cs conn
unfolding take_live
take_live-Offers timeout now [] conn e = cc
take_live-Offers timeout now (item ∷ rest) conn e = elim (Bool-cases (is_live timeout now item)) [
  | inl live ↦ (item, ground arith, ground arith, inl refl)
  | inr dead ↦
      let (found, same, young, there) = take_live-Offers timeout now rest conn (rw dead at e) in
      (found, same, young, inr there)
]

-- What `Get` hands out is a connection that lay idle for that backend, no longer than the timeout,
-- in a pool that is not closed.
pub get-Offers :
    (p : Pool) (backend : Bytes) (now : Time) (conn : ℕ)
    → (get p backend now).result ≡ some conn
    → (p.closed ≡ false) × Offers p.options.idle_timeout now (idle_of p backend) conn
unfolding get
get-Offers p backend now conn e = elim (Bool-cases p.closed) [
  | inl shut ↦ cc (rw shut at e)
  | inr up ↦ (up, take_live-Offers p.options.idle_timeout now (idle_of p backend) conn (rw up at e))
]

-- A closed pool hands out nothing, keeps nothing and takes nothing: a connection that is put is
-- closed at once. `Close` closes every idle connection, the first time and only then.
pub close-shuts :
    (p : Pool) (backend : Bytes) (conn : ℕ) (now : Time)
    → p.closed ≡ false
    → let shut = (close p).0 in
      (get shut backend now ≡ record { result = none; pool = shut; closes = [] })
      × (put shut backend conn now ≡ (shut, conn ∷ []))
      × (needs_conn shut backend now ≡ (false, shut, []))
      × ((close p).1 ≡ all_conns p.idle)
      × (close shut ≡ (shut, []))
unfolding close get put needs_conn
close-shuts p backend conn now up = ground arith

-- A pool that asked for a connection keeps it: where `NeedsConn` answers yes and `Put` comes next,
-- at any time, the connection is not closed and is the first that `Get` would look at.
pub put_after_needs_conn :
    (p : Pool) (backend : Bytes) (conn : ℕ) (now later : Time)
    → (needs_conn p backend now).0 ≡ true
    → let q = (needs_conn p backend now).1 in
      ((put q backend conn later).1 ≡ [])
      × (idle_of (put q backend conn later).0 backend
          ≡ record { conn = conn; added_at = later } ∷ idle_of q backend)
unfolding needs_conn put
put_after_needs_conn p backend conn now later yes_please = elim (Bool-cases p.closed) [
  | inl shut ↦ cc (rw shut at yes_please)
  | inr up ↦
      let kept = keep_live p.options.idle_timeout now (idle_of p backend) in
      let room = rw up at yes_please in
      let item : PooledConn = record { conn = conn; added_at = later } in
      rw up (
        ground (
          arith,
          lookup-insert backend backend kept p.idle,
          lookup-insert backend backend (item ∷ kept) (insert backend kept p.idle),
        ))
]
