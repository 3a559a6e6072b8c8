-- ===== src/Mcproto/VarInt/Decode.antt =====
-- `read_var_int` on any input, well formed or not.
use ciallo.Common.{
  ℕ, ◌+◌, ◌≤◌, ◌<◌, ◌≡◌, refl, ◌∙◌, Bytes, [], ◌∷◌, ◌++◌, append_assoc, append-nil, sym, length,
  length-append, All, bit_and, bit_or, arith,
}
use mathlib.Core.Path.{ap₂}
use ciallo.Common.Bits.{top_bit}
use ciallo.Common.BitOr.{bit_or-lt}
use ciallo.Go.Errors.{Error, ok, err, varint_too_long}
use ciallo.Go.Reader.{Reader}
use ciallo.Mcproto.VarInt.{IsInt32, shifted, read_loop, read_var_int}

-- What a successful read says of its input.
pub record Takes (bs : Bytes) (stop : Error) (raw : Bytes) (v : ℕ) (raw' : Bytes) (r : Reader)
    : Type 0 where
  pub in_range : IsInt32 v
  pub cut : raw' ++ r.pending ≡ raw ++ bs
  pub same_stop : r.stop ≡ stop
  pub some_byte : length raw < length raw'
  pub few_bytes : length raw' ≤ 5

read_loop-Takes :
    (bs : Bytes) (stop : Error) (n acc : ℕ) (raw : Bytes) (v : ℕ) (raw' : Bytes) (r : Reader)
    → IsInt32 acc
    → length raw ≡ n
    → read_loop bs stop n acc raw ≡ ok (v, raw', r)
    → Takes bs stop raw v raw' r
unfolding read_loop
read_loop-Takes [] stop n acc raw v raw' r ha hn e = cc
read_loop-Takes (b ∷ bs) stop n acc raw v raw' r ha hn e =
    let acc' : ℕ = bit_or acc (shifted (bit_and b 0x7f) n) in
    ground (
      arith,
      bit_or-lt 32 acc (shifted (bit_and b 0x7f) n),
      length-append raw (b ∷ []),
      append_assoc raw (b ∷ []) bs,
      read_loop-Takes bs stop (n + 1) acc' (raw ++ (b ∷ [])) v raw' r,
    )

-- A successful `ReadVarInt` takes 1 to 5 bytes off the front of the input, reports exactly those,
-- leaves the others and the reader's error, and returns an int32.
pub read_var_int-Takes :
    (r : Reader) (v : ℕ) (raw : Bytes) (r' : Reader)
    → read_var_int r ≡ ok (v, raw, r')
    → Takes r.pending r.stop [] v raw r'
unfolding read_var_int
read_var_int-Takes r v raw r' e =
    read_loop-Takes r.pending r.stop 0 0 [] v raw r' (omega arith) refl e

-- A byte with the continuation bit.
abbrev pub IsMarked : ℕ → Type 0
IsMarked b = (128 ≤ b) × (b < 256)

pub marked_step :
    (b : ℕ) (rest : Bytes) (stop : Error) (n acc : ℕ) (raw : Bytes)
    → IsMarked b
    → n < 5
    → read_loop (b ∷ rest) stop n acc raw
      ≡ read_loop rest stop (n + 1) (bit_or acc (shifted (bit_and b 0x7f) n)) (raw ++ (b ∷ []))
unfolding read_loop
marked_step b rest stop n acc raw m h = ground (arith, top_bit b)

pub last_step :
    (b : ℕ) (rest : Bytes) (stop : Error) (n acc : ℕ) (raw : Bytes)
    → b < 128
    → n < 5
    → read_loop (b ∷ rest) stop n acc raw
      ≡ ok (
        bit_or acc (shifted (bit_and b 0x7f) n),
        raw ++ (b ∷ []),
        record { pending = rest; stop = stop },
      )
unfolding read_loop
last_step b rest stop n acc raw hb h = ground (arith, top_bit b)

-- Marked bytes are passed over, up to the fifth.
read_loop_marked :
    (front rest : Bytes) (stop : Error) (n acc : ℕ) (raw : Bytes)
    → All IsMarked front
    → n + length front ≤ 5
    → (acc' : ℕ) × (read_loop (front ++ rest) stop n acc raw
        ≡ read_loop rest stop (n + length front) acc' (raw ++ front))
read_loop_marked [] rest stop n acc raw m h = (
  acc,
  ap₂ (λ (k : ℕ) (s : Bytes). read_loop rest stop k acc s) (omega arith) (sym (append-nil raw)),
)
read_loop_marked (b ∷ front) rest stop n acc raw (mb, m) h =
    let acc' : ℕ = bit_or acc (shifted (bit_and b 0x7f) n) in
    let (last, e) =
      read_loop_marked front rest stop (n + 1) acc' (raw ++ (b ∷ [])) m (omega arith) in
    (
      last,
      marked_step b (front ++ rest) stop n acc raw mb (omega arith)
          ∙ e
          ∙ ap₂ (λ (k : ℕ) (s : Bytes). read_loop rest stop k last s) (omega arith)
              (append_assoc raw (b ∷ []) front),
    )

-- An input that ends before an unmarked byte gives the reader's error, if it has at most five
-- bytes: the length check comes only with the sixth.
pub read_var_int_cut :
    (front : Bytes) (stop : Error)
    → All IsMarked front
    → length front ≤ 5
    → read_var_int (record { pending = front; stop = stop }) ≡ err stop
unfolding read_var_int
read_var_int_cut front stop m h =
    let (last, e) = read_loop_marked front [] stop 0 0 [] m (omega arith) in
    rw append-nil at e ∙ unfold read_loop in refl

-- Five marked bytes and any sixth are refused, and nothing behind the sixth byte is looked at.
pub read_var_int_too_long :
    (front : Bytes) (b : ℕ) (rest : Bytes) (stop : Error)
    → All IsMarked front
    → length front ≡ 5
    → read_var_int (record { pending = front ++ (b ∷ rest); stop = stop }) ≡ err varint_too_long
unfolding read_var_int
read_var_int_too_long front b rest stop m h =
    let (last, e) = read_loop_marked front (b ∷ rest) stop 0 0 [] m (omega arith) in
    e ∙ unfold read_loop in ground arith

-- At most four marked bytes and an unmarked one are a number, of which these are the bytes.
pub read_var_int_ends :
    (front : Bytes) (b : ℕ) (rest : Bytes) (stop : Error)
    → All IsMarked front
    → length front ≤ 4
    → b < 128
    → (v : ℕ) × (read_var_int (record { pending = front ++ (b ∷ rest); stop = stop })
        ≡ ok (v, front ++ (b ∷ []), record { pending = rest; stop = stop }))
unfolding read_var_int
read_var_int_ends front b rest stop m h hb =
    let (last, e) = read_loop_marked front (b ∷ rest) stop 0 0 [] m (omega arith) in
    (
      bit_or last (shifted (bit_and b 0x7f) (0 + length front)),
      e ∙ last_step b rest stop (0 + length front) last front hb (omega arith),
    )
