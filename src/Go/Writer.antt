-- ===== src/Go/Writer.antt =====
-- An `io.Writer` on a connection: what it has sent, and how its next writes end. An entry `some`
-- is a write that fails with an error after a number of bytes; without an entry a write succeeds.
use ciallo.Common.{ℕ, Bytes, List, [], ◌∷◌, ◌++◌, Option, none, some, take, ◌≡◌, refl}
use ciallo.Common.{length, take_all, take-take, ap, ◌≤◌, length-take, arith}
use ciallo.Go.Errors.{Error}

pub record Writer : Type 0 where
  pub sent : Bytes
  pub faults : List (Option (ℕ × Error))

write_next : Bytes → Bytes → List (Option (ℕ × Error)) → Option Error × Writer
write_next sent b [] = (none, record { sent = sent ++ b; faults = [] })
write_next sent b (none ∷ fs) = (none, record { sent = sent ++ b; faults = fs })
write_next sent b (some (n, e) ∷ fs) = (some e, record { sent = sent ++ take n b; faults = fs })

-- `_, err := w.Write(b)`
unfoldable pub write : Writer → Bytes → Option Error × Writer
unfolding write_next
write w b = write_next w.sent b w.faults

-- A connection on which no write fails.
abbrev pub open_writer : Bytes → Writer
open_writer sent = record { sent = sent; faults = [] }

pub write_open : (sent b : Bytes) → write (open_writer sent) b ≡ (none, open_writer (sent ++ b))
unfolding write
write_open sent b = refl

-- `n` of `n, err := w.Write(b)`
count_next : Bytes → List (Option (ℕ × Error)) → ℕ
count_next b [] = length b
count_next b (none ∷ fs) = length b
count_next b (some (n, _) ∷ fs) = length (take n b)

unfoldable pub write_count : Writer → Bytes → ℕ
unfolding count_next
write_count w b = count_next b w.faults

write_next-count :
    (sent b : Bytes) (fs : List (Option (ℕ × Error)))
    → (write_next sent b fs).1.sent ≡ sent ++ take (count_next b fs) b
unfolding write_next count_next
write_next-count sent b [] = rw (take_all b) refl
write_next-count sent b (none ∷ fs) = rw (take_all b) refl
write_next-count sent b (some (n, e) ∷ fs) = ap (λ (c : Bytes). sent ++ c) (take-take n b)

write_next-all :
    (sent b : Bytes) (fs : List (Option (ℕ × Error)))
    → (write_next sent b fs).0 ≡ none
    → count_next b fs ≡ length b
unfolding write_next count_next
write_next-all sent b [] h = refl
write_next-all sent b (none ∷ fs) h = refl
write_next-all sent b (some (n, e) ∷ fs) h = cc

-- A write sends the bytes that it counts, off the front of its argument.
pub write-count : (w : Writer) (b : Bytes) → (write w b).1.sent ≡ w.sent ++ take (write_count w b) b
unfolding write write_count
write-count w b = write_next-count w.sent b w.faults

-- A write without an error sends all of them.
pub write_count-all : (w : Writer) (b : Bytes) → (write w b).0 ≡ none → write_count w b ≡ length b
unfolding write write_count
write_count-all w b h = write_next-all w.sent b w.faults h

count_next-bound : (b : Bytes) (fs : List (Option (ℕ × Error))) → count_next b fs ≤ length b
unfolding count_next
count_next-bound b [] = omega arith
count_next-bound b (none ∷ fs) = omega arith
count_next-bound b (some (n, e) ∷ fs) = omega (arith, length-take n b)

pub write_count-bound : (w : Writer) (b : Bytes) → write_count w b ≤ length b
unfolding write_count
write_count-bound w b = count_next-bound b w.faults
