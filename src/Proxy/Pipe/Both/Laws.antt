-- ===== src/Proxy/Pipe/Both/Laws.antt =====
-- What `ProxyBidirectional` of internal/proxy/pipe.go sends, and that it returns.
use ciallo.Common.{
  ℕ, ◌+◌, ◌≤◌, ◌≡◌, refl, sym, ap, ◌∙◌, Bytes, [], ◌∷◌, ◌++◌, Bool, true, false, ◌||◌,
  if◌then◌else◌, Option, none, some, length, take, arith, append_assoc, append-nil,
  take-append_right, take_all, length-append,
}
use ciallo.Go.Errors.{Error}
use ciallo.Go.Writer.{Writer}
use ciallo.Proxy.Pipe.{Forwards, forward, forward-Forwards, forward-all}
use ciallo.Proxy.Pipe.Both.{
  Copy, Relay, fails, take_read, send, after_read, close_once, CopyStep, reads, writes, Step, ups,
  downs,
}

-- A loop has sent a prefix of what it read, as much as it counts, and all of it while it runs.
pub record IsCopying (sent : Bytes) (c : Copy) : Type 0 where
  pub sends : c.dst.sent ≡ sent ++ take c.written c.taken
  pub bound : c.written ≤ length c.taken
  pub all : c.ended ≡ false → c.written ≡ length c.taken

none_of : {A : Type 0} (o : Option A) → fails o ≡ false → o ≡ none
none_of none h = refl
none_of (some x) h = cc

or_off : (a b : Bool) → (a || b) ≡ false → a ≡ false
or_off true b h = h
or_off false b h = refl

send-Forwards :
    (closed : Bool) (dst : Writer) (chunk : Bytes)
    → Forwards dst chunk ((send closed dst chunk).0, (send closed dst chunk).1.1)
send-Forwards closed dst [] = (rw (append-nil dst.sent) refl, omega arith)
send-Forwards true dst (b ∷ bs) = (rw (append-nil dst.sent) refl, omega arith)
send-Forwards false dst (b ∷ bs) = forward-Forwards dst (b ∷ bs)

send-all :
    (closed : Bool) (dst : Writer) (chunk : Bytes)
    → fails (send closed dst chunk).1.0 ≡ false
    → (send closed dst chunk).0 ≡ length chunk
send-all closed dst [] h = refl
send-all true dst (b ∷ bs) h = cc
send-all false dst (b ∷ bs) h = forward-all dst (b ∷ bs) (none_of (forward dst (b ∷ bs)).1.0 h)

after_read-IsCopying :
    (sent : Bytes) (closed : Bool) (chunk : Bytes) (e : Option Error) (c : Copy)
    → c.ended ≡ false
    → IsCopying sent c
    → IsCopying sent (after_read closed chunk e c)
unfolding after_read
after_read-IsCopying sent closed chunk e c on s =
    let (more, bound) = send-Forwards closed c.dst chunk in
    let n : ℕ = (send closed c.dst chunk).0 in
    record {
      sends =
          more
          ∙ ap (λ (x : Bytes). x ++ take n chunk)
              (s.sends
                ∙ ap (λ (w : ℕ). sent ++ take w c.taken) (s.all on)
                ∙ ap (λ (t : Bytes). sent ++ t) (take_all c.taken))
          ∙ append_assoc sent c.taken (take n chunk)
          ∙ ap (λ (t : Bytes). sent ++ t)
              (sym (
                ap (λ (w : ℕ). take (w + n) (c.taken ++ chunk)) (s.all on)
                ∙ take-append_right n c.taken chunk));
      bound = omega (arith, s.bound, bound, length-append c.taken chunk);
      all = λ off.
          let whole =
            send-all closed c.dst chunk
              (or_off (fails (send closed c.dst chunk).1.0) (fails e) off) in
          omega (arith, s.all on, whole, length-append c.taken chunk);
    }

CopyStep-IsCopying :
    {closed : Bool} {c d : Copy} (sent : Bytes)
    → CopyStep closed c d
    → IsCopying sent c
    → IsCopying sent d
unfolding take_read
CopyStep-IsCopying sent (reads c result on none_read) s = record {
  sends = s.sends;
  bound = s.bound;
  all = s.all;
}
CopyStep-IsCopying {closed} sent (writes c chunk e on has) s =
    after_read-IsCopying sent closed chunk e c on s

-- The connections are closed once and for all when the first loop returns.
pub record IsRelaying (backend client : Bytes) (r : Relay) : Type 0 where
  pub up : IsCopying backend r.up
  pub down : IsCopying client r.down
  pub closed : r.closed ≡ (r.up.ended || r.down.ended)
  pub closes : r.closes ≡ (if r.closed then 1 else 0)

close_once-IsRelaying :
    (backend client : Bytes) (r : Relay) (ended : Bool)
    → IsCopying backend r.up
    → IsCopying client r.down
    → (r.closed || ended) ≡ (r.up.ended || r.down.ended)
    → r.closes ≡ (if r.closed then 1 else 0)
    → IsRelaying backend client (close_once ended r)
unfolding close_once
close_once-IsRelaying backend client r false u d now n = record {
  up = u;
  down = d;
  closed = ground (arith, now);
  closes = n;
}
close_once-IsRelaying backend client r true u d now n = record {
  up = u;
  down = d;
  closed = ground (arith, now);
  closes = ground (arith, n);
}

CopyStep-on : {closed : Bool} {c d : Copy} → CopyStep closed c d → c.ended ≡ false
CopyStep-on (reads c result on h) = on
CopyStep-on (writes c chunk e on h) = on

pub Step-IsRelaying :
    {r s : Relay} (backend client : Bytes)
    → Step r s
    → IsRelaying backend client r
    → IsRelaying backend client s
Step-IsRelaying backend client (ups r {c} st) i =
    let on = CopyStep-on st in
    close_once-IsRelaying backend client (record r { up = c }) c.ended
      (CopyStep-IsCopying backend st i.up) i.down ground (arith, i.closed, on) i.closes
Step-IsRelaying backend client (downs r {c} st) i =
    let on = CopyStep-on st in
    close_once-IsRelaying backend client (record r { down = c }) c.ended i.up
      (CopyStep-IsCopying client st i.down) ground (arith, i.closed, on) i.closes
