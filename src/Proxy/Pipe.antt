-- ===== src/Proxy/Pipe.antt =====
-- internal/proxy/pipe.go: one direction of `ProxyBidirectional`; both are in Both. A connection that the other
-- direction closed, or that was idle for too long, ends the reads with an error.
pub mod Both
use ciallo.Common.{
  ℕ, ◌+◌, ◌≤◌, ◌≡◌, refl, Bytes, [], ◌∷◌, ◌++◌, Option, none, some, length, take, arith,
  append_assoc, append-nil, take-append_left, take-append_right, take_all, length-append,
}
use ciallo.Go.Errors.{Error}
use ciallo.Go.Writer.{
  Writer, write, write_count, open_writer, write-count, write_count-all, write_count-bound,
}

pub record PipeStats : Type 0 where
  pub client_to_backend : ℕ
  pub backend_to_client : ℕ

-- The reads that `src.Read` gives up to the one with an error; a read with an error may bring bytes.
pub data Reads : Type 0 where
  last : Bytes → Error → Reads
  more : Bytes → Reads → Reads

-- `dst.Write(buf[:nr])` if `nr > 0`: the count, the error and the connection.
abbrev pub forward : Writer → Bytes → ℕ × (Option Error × Writer)
forward dst [] = (0, (none, dst))
forward dst (b ∷ bs) = (write_count dst (b ∷ bs), write dst (b ∷ bs))

-- The loop stops at a write that fails.
abbrev pub after_chunk : ℕ × (Option Error × Writer) → ℕ × Writer → ℕ × Writer
after_chunk (n, (none, _)) (m, dst) = (n + m, dst)
after_chunk (n, (some e, dst)) rest = (n, dst)

-- `copyWithIdle`, with what it counts and the connection that it wrote.
pub copy_with_idle : Writer → Reads → ℕ × Writer
copy_with_idle dst (Reads.last chunk e) = let step = forward dst chunk in (step.0, step.1.1)
copy_with_idle dst (Reads.more chunk reads) =
    let step = forward dst chunk in after_chunk step (copy_with_idle step.1.1 reads)

-- All bytes of the reads.
pub content : Reads → Bytes
content (Reads.last chunk e) = chunk
content (Reads.more chunk reads) = chunk ++ content reads

-- What a loop has sent and what it counted.
abbrev pub Forwards : Writer → Bytes → ℕ × Writer → Type 0
Forwards dst bytes (n, dst') = (dst'.sent ≡ dst.sent ++ take n bytes) × (n ≤ length bytes)

pub forward-Forwards :
    (dst : Writer) (chunk : Bytes)
    → Forwards dst chunk ((forward dst chunk).0, (forward dst chunk).1.1)
forward-Forwards dst [] = (rw (append-nil dst.sent) refl, omega arith)
forward-Forwards dst (b ∷ bs) = (write-count dst (b ∷ bs), write_count-bound dst (b ∷ bs))

pub forward-all :
    (dst : Writer) (chunk : Bytes)
    → (forward dst chunk).1.0 ≡ none
    → (forward dst chunk).0 ≡ length chunk
forward-all dst [] h = refl
forward-all dst (b ∷ bs) h = write_count-all dst (b ∷ bs) h

after_chunk-Forwards :
    (dst : Writer) (chunk bytes : Bytes) (step : ℕ × (Option Error × Writer)) (rest : ℕ × Writer)
    → Forwards dst chunk (step.0, step.1.1)
    → (step.1.0 ≡ none → step.0 ≡ length chunk)
    → Forwards step.1.1 bytes rest
    → Forwards dst (chunk ++ bytes) (after_chunk step rest)
after_chunk-Forwards dst chunk bytes (n, (none, dst')) (m, dst'') (sent, bound) all
      (sent', bound') =
    (
      rw (sent', sent, all refl, take_all chunk, take-append_right m chunk bytes)
          (append_assoc dst.sent chunk (take m bytes)),
      omega (arith, all refl, bound', length-append chunk bytes),
    )
after_chunk-Forwards dst chunk bytes (n, (some e, dst')) rest (sent, bound) all _ = (
  rw (take-append_left n chunk bytes bound) sent,
  omega (arith, bound, length-append chunk bytes),
)

-- The loop sends a prefix of the bytes that it read, in their order, and its count is the number of
-- bytes sent, whatever writes fail.
pub copy_with_idle-prefix :
    (dst : Writer) (reads : Reads)
    → ((copy_with_idle dst reads).1.sent
        ≡ dst.sent ++ take (copy_with_idle dst reads).0 (content reads))
      × ((copy_with_idle dst reads).0 ≤ length (content reads))
unfolding copy_with_idle content
copy_with_idle-prefix dst (Reads.last chunk e) = forward-Forwards dst chunk
copy_with_idle-prefix dst (Reads.more chunk reads) =
    let step = forward dst chunk in
    after_chunk-Forwards dst chunk (content reads) step (copy_with_idle step.1.1 reads)
      (forward-Forwards dst chunk) (forward-all dst chunk) (copy_with_idle-prefix step.1.1 reads)

forward_open :
    (sent chunk : Bytes)
    → forward (open_writer sent) chunk ≡ (length chunk, (none, open_writer (sent ++ chunk)))
unfolding write write_count
forward_open sent [] = rw (append-nil sent) refl
forward_open sent (b ∷ bs) = refl

-- On a connection on which no write fails, every byte that was read is sent and counted.
pub copy_with_idle_open :
    (sent : Bytes) (reads : Reads)
    → copy_with_idle (open_writer sent) reads
      ≡ (length (content reads), open_writer (sent ++ content reads))
unfolding copy_with_idle content
copy_with_idle_open sent (Reads.last chunk e) = rw (forward_open sent chunk) refl
copy_with_idle_open sent (Reads.more chunk reads) =
    rw
      (
        forward_open sent chunk,
        copy_with_idle_open (sent ++ chunk) reads,
        append_assoc sent chunk (content reads),
        length-append chunk (content reads),
      )
      refl
