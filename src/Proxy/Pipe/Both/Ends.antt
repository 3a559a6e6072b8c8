-- ===== src/Proxy/Pipe/Both/Ends.antt =====
-- `ProxyBidirectional` of internal/proxy/pipe.go returns: the end of one loop ends the other.
use ciallo.Common.{
  ℕ, suc, ◌+◌, ◌≤◌, ◌≡◌, refl, sym, ap, ◌∙◌, Bytes, [], ◌∷◌, ◌++◌, Bool, true, false, ◌||◌,
  if◌then◌else◌, Option, none, some, arith, ◌⊎◌, inl, inr, Bool-cases, length, take, append-nil,
}
use ciallo.Go.Errors.{Error}
use ciallo.Go.Writer.{Writer}
use ciallo.Proxy.Pipe.Both.{
  Copy, Relay, start_relay, start_copy, take_read, after_read, close_once, CopyStep, reads, writes,
  Step, ups, downs, Run, here, next, stats,
}
use ciallo.Proxy.Pipe.Both.Laws.{IsRelaying, Step-IsRelaying}

Run-IsRelaying :
    (backend client : Writer) {r : Relay} {n : ℕ}
    → Run (start_relay backend client) n r
    → IsRelaying backend.sent client.sent r
unfolding start_relay start_copy
Run-IsRelaying backend client here = record {
  up = record { sends = sym (append-nil backend.sent); bound = omega arith; all = λ on. refl };
  down = record { sends = sym (append-nil client.sent); bound = omega arith; all = λ on. refl };
  closed = refl;
  closes = refl;
}
Run-IsRelaying backend client (next h st) =
    Step-IsRelaying backend.sent client.sent st (Run-IsRelaying backend client h)

-- In whatever order the reads and writes of the two loops come, and whichever of them fail: each peer
-- has been sent a prefix of the bytes that were read from the other, in their order, and the statistics
-- count these bytes. Both connections are closed as soon as one of the loops has returned, and by one
-- call only.
pub Run-Relays :
    (backend client : Writer) {r : Relay} {n : ℕ}
    → Run (start_relay backend client) n r
    → (r.up.dst.sent ≡ backend.sent ++ take (stats r).client_to_backend r.up.taken)
      × ((stats r).client_to_backend ≤ length r.up.taken)
      × (r.down.dst.sent ≡ client.sent ++ take (stats r).backend_to_client r.down.taken)
      × ((stats r).backend_to_client ≤ length r.down.taken)
      × (r.closes ≡ (if r.up.ended || r.down.ended then 1 else 0))
unfolding stats
Run-Relays backend client h =
    let i = Run-IsRelaying backend client h in
    (
      i.up.sends,
      i.up.bound,
      i.down.sends,
      i.down.bound,
      i.closes ∙ ap (λ (b : Bool). if b then 1 else 0) i.closed,
    )

-- How many steps a loop has left once the connections are closed. A read that came before may have
-- brought nothing and no error.
abbrev of_read : Option (Bytes × Option Error) → ℕ
of_read none = 2
of_read (some ([], none)) = 3
of_read (some ([], some e)) = 1
of_read (some (b ∷ bs, e)) = 1

abbrev waiting : Copy → ℕ
waiting c = if c.ended then 0 else of_read c.read

abbrev left : Relay → ℕ
left r = waiting r.up + waiting r.down

after_read-waiting :
    (chunk : Bytes) (e : Option Error) (c : Copy)
    → suc (waiting (after_read true chunk e c)) ≤ of_read (some (chunk, e))
unfolding after_read
after_read-waiting [] none c = omega arith
after_read-waiting [] (some e) c = omega arith
after_read-waiting (b ∷ bs) e c = omega arith

CopyStep-waiting :
    {closed : Bool} {c d : Copy} → CopyStep closed c d → closed ≡ true → suc (waiting d) ≤ waiting c
unfolding take_read after_read
CopyStep-waiting {closed} (reads c result on has) shut = rw (shut, on, has) (omega arith)
CopyStep-waiting (writes c chunk e on has) shut = rw (shut, on, has) (after_read-waiting chunk e c)

close_once-left : (ended : Bool) (r : Relay) → left (close_once ended r) ≡ left r
unfolding close_once
close_once-left true r = refl
close_once-left false r = refl

close_once-closed :
    (ended : Bool) (r : Relay) → r.closed ≡ true → (close_once ended r).closed ≡ true
unfolding close_once
close_once-closed true r h = refl
close_once-closed false r h = h

Step-left : {r s : Relay} → Step r s → r.closed ≡ true → (suc (left s) ≤ left r) × (s.closed ≡ true)
Step-left (ups r {c} st) shut = (
  omega (arith, close_once-left c.ended (record r { up = c }), CopyStep-waiting st shut),
  close_once-closed c.ended (record r { up = c }) shut,
)
Step-left (downs r {c} st) shut = (
  omega (arith, close_once-left c.ended (record r { down = c }), CopyStep-waiting st shut),
  close_once-closed c.ended (record r { down = c }) shut,
)

Run-left :
    {r s : Relay} {n : ℕ} → r.closed ≡ true → Run r n s → (n + left s ≤ left r) × (s.closed ≡ true)
Run-left shut here = (omega arith, shut)
Run-left shut (next h st) =
    let (less, closed) = Run-left shut h in
    let (step, still) = Step-left st closed in (omega (arith, less, step), still)

-- A loop that has not returned has a step.
turn : (closed : Bool) (c : Copy) → c.ended ≡ false → (d : Copy) × CopyStep closed c d
turn closed c on = go c.read refl
  where
    go : (found : Option (Bytes × Option Error)) → c.read ≡ found → (d : Copy) × CopyStep closed c d
    go none e = (take_read closed ([], none) c, reads c ([], none) on e)
    go (some (chunk, read_error)) e =
        (after_read closed chunk read_error c, writes c chunk read_error on e)

of_read-bound : (found : Option (Bytes × Option Error)) → of_read found ≤ 3
of_read-bound none = omega arith
of_read-bound (some ([], none)) = omega arith
of_read-bound (some ([], some e)) = omega arith
of_read-bound (some (b ∷ bs, e)) = omega arith

waiting-bound : (c : Copy) → waiting c ≤ 3
waiting-bound c = ground (arith, of_read-bound c.read)

left-bound : (r : Relay) → (r.up.ended || r.down.ended) ≡ true → left r ≤ 3
left-bound r one = elim (Bool-cases r.up.ended) [
  | inl up_done ↦ rw up_done (omega (arith, waiting-bound r.down))
  | inr up_on ↦
      let down_done : r.down.ended ≡ true = (rw up_on at one) in
      rw down_done (omega (arith, waiting-bound r.up))
]

-- Once one loop of `ProxyBidirectional` has returned, the other follows whatever its peer does: at most
-- three more reads and writes come after it, and as long as a loop has not returned it has a step to
-- take. So the call returns.
pub Run-Returns :
    {r s : Relay} {n m : ℕ} (backend client : Writer)
    → Run (start_relay backend client) n r
    → (r.up.ended || r.down.ended) ≡ true
    → Run r m s
    → (m ≤ 3) × (((s.up.ended ≡ true) × (s.down.ended ≡ true)) ⊎ ((t : Relay) × Step s t))
Run-Returns {r} {s} backend client before one after =
    let i = Run-IsRelaying backend client before in
    let (less, shut) = Run-left (i.closed ∙ one) after in
    (
      omega (arith, less, left-bound r one),
      elim (Bool-cases s.up.ended) [
        | inl up_done ↦ elim (Bool-cases s.down.ended) [
          | inl down_done ↦ inl (up_done, down_done)
          | inr down_on ↦
              let (c, st) = turn s.closed s.down down_on in
              inr (close_once c.ended (record s { down = c }), downs s st)
        ]
        | inr up_on ↦
            let (c, st) = turn s.closed s.up up_on in
            inr (close_once c.ended (record s { up = c }), ups s st)
      ],
    )
