-- ===== src/Mcproto/VarInt/Encode.antt =====
-- What `encode_var_int` writes, in plain arithmetic.
use mathlib.Core.WellFounded.{Acc}
use ciallo.Common.{
  ℕ, zero, suc, ◌+◌, ◌/◌, ◌%◌, ◌^◌, ◌≤◌, ◌<◌, ◌≡◌, Bytes, [], ◌∷◌, ◌++◌, append_assoc, ltb,
  if◌then◌else◌, length, All, arith,
}
use ciallo.Common.Order.{lt_wf}
use ciallo.Common.Bits.{set_top_bit}
use ciallo.Mcproto.VarInt.{IsByte, IsInt32, encode_loop, encode_var_int, var_int_size}

-- Seven bits a byte, lowest first, with a mark on every byte but the last: at most `k + 1` bytes.
unfoldable pub groups : ℕ → ℕ → Bytes
groups zero v = v ∷ []
groups (suc k) v =
    let rest = groups k (v / 128) in if ltb v 128 then v ∷ [] else (v % 128 + 128) ∷ rest

encode_loop-groups :
    (k v : ℕ) (w : Acc ◌<◌ v) (out : Bytes)
    → v < 128 ^ suc k
    → encode_loop v w out ≡ out ++ groups k v
unfolding encode_loop groups
encode_loop-groups zero v (Acc.intro _ smaller) out h = ground arith
encode_loop-groups (suc k) v (Acc.intro _ smaller) out h =
    let byte : Bytes = (v % 128 + 128) ∷ [] in
    grind (
      arith,
      set_top_bit (v % 128) (omega arith),
      λ (w : Acc ◌<◌ (v / 128)). encode_loop-groups k (v / 128) w (out ++ byte) (omega arith),
      append_assoc out byte (groups k (v / 128)),
    )

pub encode_var_int-groups : (v : ℕ) → IsInt32 v → encode_var_int v ≡ groups 4 v
unfolding encode_var_int
encode_var_int-groups v h = encode_loop-groups 4 v (lt_wf.apply v) [] (omega arith)

groups-IsByte : (k v : ℕ) → v < 128 ^ suc k → All IsByte (groups k v)
unfolding groups
groups-IsByte zero v h = omega arith
groups-IsByte (suc k) v h = ground (arith, groups-IsByte k (v / 128) (omega arith))

pub length-groups : (k v : ℕ) → (1 ≤ length (groups k v)) × (length (groups k v) ≤ k + 1)
unfolding groups
length-groups zero v = omega arith
length-groups (suc k) v = ground (arith, length-groups k (v / 128))

-- The encoding of an int32 consists of bytes, and `VarIntSize` of it lies between 1 and 5.
pub encode_var_int_shape :
    (v : ℕ)
    → IsInt32 v
    → All IsByte (encode_var_int v) × (1 ≤ var_int_size v) × (var_int_size v ≤ 5)
unfolding var_int_size
encode_var_int_shape v h =
    let (lo, hi) = length-groups 4 v in
    rw (encode_var_int-groups v h) (groups-IsByte 4 v (omega arith), lo, hi)

-- A number that fits `j + 1` groups takes no more bytes than that.
pub length-groups-le : (k j v : ℕ) → v < 128 ^ suc j → length (groups k v) ≤ suc j
unfolding groups
length-groups-le zero j v h = omega arith
length-groups-le (suc k) zero v h = ground arith
length-groups-le (suc k) (suc j) v h = ground (arith, length-groups-le k j (v / 128) (omega arith))
