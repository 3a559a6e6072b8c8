-- ===== src/Pool/Ownership.antt =====
-- The pool of internal/pool/pool.go as a multiset of connections.
use ciallo.Common.{
  ℕ, ◌+◌, ◌≡◌, refl, ap, Bytes, List, [], ◌∷◌, ◌++◌, if◌then◌else◌, Option, none, some, bytes_eq,
  arith, ◌==◌, nat_eq, Bool-cases, inl, inr,
}
use ciallo.Common.Dict.{Dict, lookup, insert}
use ciallo.Go.Time.{Time, Duration}
use ciallo.Pool.{
  PooledConn, Pool, idle_of, take_live, store_left, get, keep_live, close_dead, needs_conn, put,
  close, conns, all_conns, or_empty,
}
use ciallo.Pool.Laws.{Call, gets, checks, puts, closes, step}

-- How often a connection stands in a list.
unfoldable pub count : ℕ → List ℕ → ℕ
count x [] = 0
count x (y ∷ ys) = (if x == y then 1 else 0) + count x ys

abbrev pub option_list : Option ℕ → List ℕ
option_list none = []
option_list (some c) = c ∷ []

pub count-append : (x : ℕ) (ys zs : List ℕ) → count x (ys ++ zs) ≡ count x ys + count x zs
unfolding count
count-append x [] zs = omega arith
count-append x (y ∷ ys) zs = omega (arith, count-append x ys zs)

count-nil : (x : ℕ) → count x [] ≡ 0
unfolding count
count-nil x = refl

-- A write of one backend's list exchanges that list.
count-insert :
    (x : ℕ) (backend : Bytes) (cs : List PooledConn) (m : Dict Bytes (List PooledConn))
    → count x (all_conns (insert backend cs m)) + count x (conns (or_empty (lookup backend m)))
      ≡ count x (all_conns m) + count x (conns cs)
unfolding all_conns insert lookup
count-insert x backend cs [] = unfold count in omega (arith, count-append x (conns cs) [])
count-insert x backend cs ((b, old) ∷ m) = elim (Bool-cases (backend == b)) [
  | inl same ↦ rw same (
      omega
        (arith, count-append x (conns cs) (all_conns m), count-append x (conns old) (all_conns m)))
  | inr other ↦ rw other (
      omega (
        arith,
        count-append x (conns old) (all_conns (insert backend cs m)),
        count-append x (conns old) (all_conns m),
        count-insert x backend cs m,
      ))
]

count-take_live :
    (x : ℕ) (timeout : Duration) (now : Time) (cs : List PooledConn)
    → count x (conns (take_live timeout now cs).left)
        + count x (option_list (take_live timeout now cs).handed)
        + count x (take_live timeout now cs).closes
      ≡ count x (conns cs)
unfolding take_live count
count-take_live x timeout now [] = refl
count-take_live x timeout now (item ∷ rest) = ground (arith, count-take_live x timeout now rest)

count-keep_live :
    (x : ℕ) (timeout : Duration) (now : Time) (cs : List PooledConn)
    → count x (conns (keep_live timeout now cs)) + count x (close_dead timeout now cs)
      ≡ count x (conns cs)
unfolding keep_live close_dead count
count-keep_live x timeout now [] = refl
count-keep_live x timeout now (item ∷ rest) = ground (arith, count-keep_live x timeout now rest)

-- What a call brings into the pool, hands out of it and closes.
abbrev pub brought : Call → List ℕ
brought (gets backend now) = []
brought (checks backend now) = []
brought (puts backend conn now) = conn ∷ []
brought closes = []

abbrev pub handed_out : Pool → Call → List ℕ
handed_out p (gets backend now) = option_list (get p backend now).result
handed_out p (checks backend now) = []
handed_out p (puts backend conn now) = []
handed_out p closes = []

abbrev pub closed_by : Pool → Call → List ℕ
closed_by p (gets backend now) = (get p backend now).closes
closed_by p (checks backend now) = (needs_conn p backend now).2
closed_by p (puts backend conn now) = (put p backend conn now).1
closed_by p closes = (close p).1

count-get_idle :
    (x : ℕ) (p : Pool) (backend : Bytes) (now : Time) (old : List PooledConn)
    → old ≡ idle_of p backend
    → let taken = take_live p.options.idle_timeout now old in
      count x (all_conns (store_left p backend old taken.left).idle) + count x (conns old)
      ≡ count x (all_conns p.idle) + count x (conns taken.left)
count-get_idle x p backend now [] e = unfold take_live in refl
count-get_idle x p backend now (item ∷ rest) e =
    let left = (take_live p.options.idle_timeout now (item ∷ rest)).left in
    omega (
      arith,
      count-insert x backend left p.idle,
      ap (λ (cs : List PooledConn). count x (conns cs)) e,
    )

-- No call loses a connection or makes one up: each one that was idle, or that a `Put` brings, is
-- afterwards idle, handed out by this `Get`, or closed by this call, and only one of these.
pub step-conserves :
    (x : ℕ) (p : Pool) (c : Call)
    → count x (all_conns p.idle) + count x (brought c)
      ≡ count x (all_conns (step p c).idle) + count x (handed_out p c) + count x (closed_by p c)
unfolding step get needs_conn put close
step-conserves x p (gets backend now) =
    let old = idle_of p backend in
    ground (
      arith,
      count-nil x,
      count-get_idle x p backend now old refl,
      count-take_live x p.options.idle_timeout now old,
    )
step-conserves x p (checks backend now) =
    let timeout = p.options.idle_timeout in
    let kept = keep_live timeout now (idle_of p backend) in
    ground (
      arith,
      count-nil x,
      count-insert x backend kept p.idle,
      count-keep_live x timeout now (idle_of p backend),
    )
step-conserves x p (puts backend conn now) =
    let item : PooledConn = record { conn = conn; added_at = now } in
    ground (
      arith,
      count-nil x,
      count-append x (conn ∷ []) (conns (idle_of p backend)),
      count-insert x backend (item ∷ idle_of p backend) p.idle,
    )
step-conserves x p closes = unfold all_conns in ground (arith, count-nil x)
