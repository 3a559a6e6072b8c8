-- ===== src/Mcproto/Strings.antt =====
-- The strings of internal/mcproto/handshake.go: `ReadString`, `EncodeString`, `utf16CodeUnits`.
pub mod Laws
use ciallo.Common.{
  ℕ, ◌+◌, ◌*◌, Bytes, List, [], ◌∷◌, ◌++◌, ltb, if◌then◌else◌, length, take, drop, Bool, true,
  false,
}
use ciallo.Go.Errors.{
  Error, Result, ok, err, ◌>>=◌, ◌>>◌, negative_string_length, string_beyond_input, string_too_long,
  invalid_utf8, too_many_characters,
}
use ciallo.Go.Reader.{Reader}
use ciallo.Go.Utf8.{Rune, runes, is_valid}
use ciallo.Mcproto.VarInt.{is_negative, read_var_int, encode_var_int}
use ciallo.Mcproto.Packet.{to_int32}

-- `refuse b e` is `if b { return e }`.
abbrev pub refuse : Bool → Error → Result (Unit {0})
refuse true e = err e
refuse false e = ok tt

read_some : ℕ → Bytes → Bytes → Error → Result (Bytes × Reader)
read_some n b [] stop = err stop
read_some n b (_ ∷ _) stop = ok (take n b, record { pending = drop n b; stop = stop })

-- `bytes.Reader.Read` of `n` bytes, of which the callers know that they are there. At the end of
-- the input it gives `io.EOF`, also for no bytes at all.
unfoldable pub read_bytes : ℕ → Reader → Result (Bytes × Reader)
unfolding read_some
read_bytes n r = read_some n r.pending r.pending r.stop

code_units : List Rune → ℕ
code_units [] = 0
code_units (r ∷ rs) = (if ltb 0xffff r.point then 2 else 1) + code_units rs

unfoldable pub utf16_code_units : Bytes → ℕ
unfolding code_units
utf16_code_units value = code_units (runes value)

unfoldable pub read_string : Reader → ℕ → Result (Bytes × Reader)
read_string r max_chars = do
  (len, _, r1) ← read_var_int r
  refuse (is_negative len) (negative_string_length len)
  refuse (ltb (length r1.pending) len) (string_beyond_input len (length r1.pending))
  refuse (ltb (max_chars * 4) len) (string_too_long len (max_chars * 4))
  (raw, r2) ← read_bytes len r1
  refuse (if is_valid raw then false else true) invalid_utf8
  refuse (ltb max_chars (utf16_code_units raw)) (too_many_characters max_chars)
  ok (raw, r2)

unfoldable pub encode_string : Bytes → Bytes
encode_string value = encode_var_int (to_int32 (length value)) ++ value
