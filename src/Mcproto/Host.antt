-- ===== src/Mcproto/Host.antt =====
-- `NormalizeHost` of internal/mcproto/handshake.go. The parameter is the table of `unicode.ToLower`
-- from 0x80 on.
use ciallo.Common.{ℕ, Bytes, [], ◌∷◌, ◌&&◌, if◌then◌else◌, take, none, some}
use ciallo.Go.Errors.{ok, err}
use ciallo.Go.Strings.{
  trim_space, to_lower, index_byte, has_prefix, has_suffix, trim_prefix, trim_suffix,
}
use ciallo.Go.HostPort.{split_host_port}

-- `host[:i]` at a NUL byte: mod loaders append marks behind one.
unfoldable pub cut_nul : Bytes → Bytes
cut_nul host = elim (index_byte host 0) [ none ↦ host | some i ↦ take i host ]

-- The host of `host:port`, or what stands in brackets.
unfoldable pub strip_port : Bytes → Bytes
strip_port host = elim (split_host_port host) [
  | ok (h, _) ↦ h
  | err _ ↦
      if has_prefix host (b'[' ∷ []) && has_suffix host (b']' ∷ [])
      then trim_prefix (trim_suffix host (b']' ∷ [])) (b'[' ∷ [])
      else host
]

unfoldable pub normalize_host : (ℕ → ℕ) → Bytes → Bytes
normalize_host lower host =
    to_lower lower (trim_suffix (strip_port (cut_nul (trim_space host))) (b'.' ∷ []))
