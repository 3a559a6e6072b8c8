-- ===== src/Go/Reader.antt =====
-- An `io.Reader`: the bytes that it still delivers, and the error that it gives after them
-- (`io.EOF` for a `bytes.Reader`; a closed or timed out connection otherwise). How a connection
-- cuts its bytes into chunks does not matter here, since the program reads with `io.ReadFull`.
use ciallo.Common.{ℕ, ◌≡◌, Bytes, [], ◌∷◌, ◌++◌, leb, if◌then◌else◌, length, take, drop, arith}
use ciallo.Common.{◌<◌, take-append-drop, length-take, length-append, take-length, drop-length}
use ciallo.Go.Errors.{Error, Result, ok, err, eof, unexpected_eof}

pub record Reader : Type 0 where
  pub pending : Bytes
  pub stop : Error

-- `bytes.NewReader(b)`
abbrev pub bytes_reader : Bytes → Reader
bytes_reader b = record { pending = b; stop = eof }

-- What `io.ReadFull` makes of the reader's error after some bytes.
abbrev pub cut_short : Error → Error
cut_short eof = unexpected_eof
cut_short e = e

abbrev short_error : Bytes → Error → Error
short_error [] stop = stop
short_error (_ ∷ _) stop = cut_short stop

-- `io.ReadFull(r, make([]byte, n))`
unfoldable pub read_full : ℕ → Reader → Result (Bytes × Reader)
read_full n r =
    if leb n (length r.pending)
    then ok (take n r.pending, record r { pending = drop n r.pending })
    else err (short_error r.pending r.stop)

-- A read of a prefix gives the prefix and leaves the rest.
pub read_full-append :
    (b rest : Bytes) (stop : Error)
    → read_full (length b) (record { pending = b ++ rest; stop = stop })
      ≡ ok (b, record { pending = rest; stop = stop })
unfolding read_full
read_full-append b rest stop =
    ground (arith, length-append b rest, take-length b rest, drop-length b rest)

-- A successful read gives `n` bytes off the front of the input.
pub read_full-cut :
    (n : ℕ) (r : Reader) (b : Bytes) (r' : Reader)
    → read_full n r ≡ ok (b, r')
    → (b ++ r'.pending ≡ r.pending) × (length b ≡ n) × (r'.stop ≡ r.stop)
unfolding read_full
read_full-cut n r b r' e = ground (arith, take-append-drop n r.pending, length-take n r.pending)

-- With too few bytes the read fails, and the end of the stream inside a read is told apart.
pub read_full_short :
    (n : ℕ) (b : Bytes) (x : ℕ)
    → length (x ∷ b) < n
    → read_full n (bytes_reader (x ∷ b)) ≡ err unexpected_eof
unfolding read_full
read_full_short n b x h = ground arith
