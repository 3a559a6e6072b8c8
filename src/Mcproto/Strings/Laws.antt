-- ===== src/Mcproto/Strings/Laws.antt =====
-- Strings in packets: the round trip, and what a string that was read satisfies.
use ciallo.Common.{
  ℕ, ◌*◌, ◌≤◌, ◌<◌, ◌^◌, ◌≡◌, ◌≢◌, refl, Bytes, [], ◌∷◌, ◌++◌, append_assoc, length, length-append,
  take-length, drop-length, take-append-drop, length-take, arith, ltb, true, false, if◌then◌else◌,
}
use ciallo.Go.Errors.{Error, ok, Ensures, Ensures-ok, Ensures-bind, returns}
use ciallo.Go.Reader.{Reader}
use ciallo.Go.Utf8.{is_valid}
use ciallo.Mcproto.VarInt.{read_var_int, encode_var_int, is_negative}
use ciallo.Mcproto.VarInt.RoundTrip.{read_var_int-encode}
use ciallo.Mcproto.VarInt.Decode.{read_var_int-Takes}
use ciallo.Mcproto.Packet.{to_int32}
use ciallo.Mcproto.Strings.{
  refuse, read_some, read_bytes, utf16_code_units, read_string, encode_string,
}

-- The strings that `ReadString` accepts under a limit on their UTF-16 length.
pub record IsText (max_chars : ℕ) (s : Bytes) : Type 0 where
  pub valid : is_valid s ≡ true
  pub units : utf16_code_units s ≤ max_chars
  pub bytes : length s ≤ max_chars * 4

read_bytes-append :
    (s rest : Bytes) (stop : Error)
    → s ++ rest ≢ []
    → read_bytes (length s) (record { pending = s ++ rest; stop = stop })
      ≡ ok (s, record { pending = rest; stop = stop })
unfolding read_bytes
read_bytes-append [] [] stop h = absurd (h refl)
read_bytes-append [] (x ∷ rest) stop h = refl
read_bytes-append (x ∷ s) rest stop h = rw (take-length s rest, drop-length s rest)

-- `ReadString` reads back a text that `EncodeString` wrote and leaves what follows, unless both the
-- text and what follows it are empty.
pub read_string-encode :
    (s rest : Bytes) (stop : Error) (max_chars : ℕ)
    → IsText max_chars s
    → length s < 2 ^ 31
    → s ++ rest ≢ []
    → read_string (record { pending = encode_string s ++ rest; stop = stop }) max_chars
      ≡ ok (s, record { pending = rest; stop = stop })
unfolding read_string encode_string
read_string-encode s rest stop max_chars t small some_byte =
    let e : to_int32 (length s) ≡ length s = omega arith in
    rw
      (
        e,
        append_assoc (encode_var_int (length s)) s rest,
        read_var_int-encode (length s) (s ++ rest) stop (omega arith),
      )
      (ground (arith, length-append s rest, read_bytes-append s rest stop some_byte, t.valid))

-- What a string that was read says of the input.
pub record ReadsText (r : Reader) (max_chars : ℕ) (s : Bytes) (r' : Reader) : Type 0 where
  pub text : IsText max_chars s
  pub header : Bytes
  pub cut : header ++ (s ++ r'.pending) ≡ r.pending
  pub header_bytes : (1 ≤ length header) × (length header ≤ 5)

read_some-cut :
    (n : ℕ) (b p : Bytes) (stop : Error) (s : Bytes) (r' : Reader)
    → n ≤ length b
    → read_some n b p stop ≡ ok (s, r')
    → (s ++ r'.pending ≡ b) × (length s ≡ n)
unfolding read_some
read_some-cut n b [] stop s r' h e = cc
read_some-cut n b (x ∷ p) stop s r' h e = ground (arith, take-append-drop n b, length-take n b)

read_bytes-cut :
    (n : ℕ) (r : Reader) (s : Bytes) (r' : Reader)
    → n ≤ length r.pending
    → read_bytes n r ≡ ok (s, r')
    → (s ++ r'.pending ≡ r.pending) × (length s ≡ n)
unfolding read_bytes
read_bytes-cut n r s r' h e = read_some-cut n r.pending r.pending r.stop s r' h e

checked :
    (r : Reader) (max_chars len : ℕ) (header : Bytes) (r1 : Reader) (s : Bytes) (r2 : Reader)
    → read_var_int r ≡ ok (len, header, r1)
    → len ≤ length r1.pending
    → len ≤ max_chars * 4
    → read_bytes len r1 ≡ ok (s, r2)
    → is_valid s ≡ true
    → utf16_code_units s ≤ max_chars
    → ReadsText r max_chars s r2
checked r max_chars len header r1 s r2 e1 h3 h4 e5 h6 h7 =
    let t = read_var_int-Takes r len header r1 e1 in
    let (whole, size) = read_bytes-cut len r1 s r2 h3 e5 in
    record {
      text = record { valid = h6; units = h7; bytes = omega (arith, size) };
      header = header;
      cut = rw whole t.cut;
      header_bytes = (omega (arith, t.some_byte), t.few_bytes);
    }

-- A string that `ReadString` returns is valid UTF-8 within the limits, and stands in the input
-- behind a length of one to five bytes and in front of what is left.
pub read_string-ReadsText :
    (r : Reader) (max_chars : ℕ) (s : Bytes) (r' : Reader)
    → read_string r max_chars ≡ ok (s, r')
    → ReadsText r max_chars s r'
read_string-ReadsText r max_chars s r' e =
    Ensures-ok {P = λ t. ReadsText r max_chars t.0 t.1} steps e
  where
    steps : Ensures (λ t. ReadsText r max_chars t.0 t.1) (read_string r max_chars)
    steps =
        unfold read_string in
        Ensures-bind (read_var_int r) _ λ (len, header, r1) e1.
          Ensures-bind (refuse (is_negative len) _) _ λ _ e2.
            Ensures-bind (refuse (ltb (length r1.pending) len) _) _ λ _ e3.
              Ensures-bind (refuse (ltb (max_chars * 4) len) _) _ λ _ e4.
                Ensures-bind (read_bytes len r1) _ λ (raw, r2) e5.
                  Ensures-bind (refuse (if is_valid raw then false else true) _) _ λ _ e6.
                    Ensures-bind (refuse (ltb max_chars (utf16_code_units raw)) _) _ λ _ e7.
                      returns (
                        checked r max_chars len header r1 raw r2 e1 (ground arith) (ground arith) e5
                          (ground arith) (ground arith))
