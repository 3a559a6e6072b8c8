-- ===== src/Go/HostPort.antt =====
-- `net.SplitHostPort`, step by step.
use ciallo.Common.{
  ℕ, zero, suc, ◌-◌, Bytes, [], ◌∷◌, ◌++◌, Bool, false, if◌then◌else◌, length, take, drop, ◌==◌,
  nat_eq, none, some,
}
use ciallo.Go.Errors.{
  Result, ok, err, ◌>>=◌, ◌>>◌, AddrError, addr_error, missing_port, too_many_colons,
  missing_bracket, unexpected_open, unexpected_close,
}
use ciallo.Go.Strings.{index_byte, last_index_byte}

-- `s[from:to]`
abbrev pub slice : ℕ → ℕ → Bytes → Bytes
slice from to s = take (to - from) (drop from s)

starts_with_bracket : Bytes → Bool
starts_with_bracket [] = false
starts_with_bracket (b ∷ _) = b == b'['

abbrev byte_at : Bytes → ℕ → ℕ
byte_at [] i = 0
byte_at (b ∷ bs) zero = b
byte_at (b ∷ bs) (suc i) = byte_at bs i

absent : Bytes → ℕ → AddrError → Result (Unit {0})
absent s c e = elim (index_byte s c) [ none ↦ ok tt | some _ ↦ err (addr_error e) ]

-- The host, and the places from which a bracket must not stand any more (`j` and `k`).
pub record HostSpan : Type 0 where
  pub host : Bytes
  pub j : ℕ
  pub k : ℕ

bracketed : Bytes → ℕ → ℕ → Result HostSpan
bracketed s i end =
    if suc end == length s
    then err (addr_error missing_port)
    else (if suc end == i
        then ok (record { host = slice 1 end s; j = 1; k = suc end })
        else (if byte_at s (suc end) == b':'
            then err (addr_error too_many_colons)
            else err (addr_error missing_port)))

find_host : Bytes → ℕ → Result HostSpan
unfolding starts_with_bracket absent bracketed
find_host s i =
    if starts_with_bracket s
    then elim (index_byte s b']') [
      | none ↦ err (addr_error missing_bracket)
      | some end ↦ bracketed s i end
    ]
    else (absent (take i s) b':' too_many_colons >> ok (record { host = take i s; j = 0; k = 0 }))

-- The host and the port of `host:port` and `[host]:port`.
unfoldable pub split_host_port : Bytes → Result (Bytes × Bytes)
unfolding find_host absent
split_host_port s = elim (last_index_byte s b':') [
  | none ↦ err (addr_error missing_port)
  | some i ↦ do
    span ← find_host s i
    absent (drop span.j s) b'[' unexpected_open
    absent (drop span.k s) b']' unexpected_close
    ok (span.host, drop (suc i) s)
]

-- `net.JoinHostPort`, with brackets around a host that has a colon.
unfoldable pub join_host_port : Bytes → Bytes → Bytes
join_host_port host port = elim (index_byte host b':') [
  | none ↦ host ++ b':' ∷ port
  | some _ ↦ b'[' ∷ (host ++ b']' ∷ b':' ∷ port)
]
