-- ===== src/Pow.antt =====
-- Proof of work: `leading_zero_bits` and `hex_to_bytes` of src/lib.rs.
pub mod Bits
use the_block.Prelude.{
  ℕ, zero, suc, ◌+◌, List, [], ◌∷◌, Option, none, some, Bytes, Text, ltb, ◌==◌, if◌then◌else◌,
}
use the_block.Transaction.{Crypto}

-- `b.leading_zeros()` of a byte.
unfoldable pub leading_zeros : ℕ → ℕ
leading_zeros b =
    if ltb b 1
    then 8
    else if ltb b 2
    then 7
    else if ltb b 4
    then 6
    else if ltb b 8
    then 5
    else if ltb b 16
    then 4
    else if ltb b 32
    then 3
    else if ltb b 64
    then 2
    else if ltb b 128
    then 1
    else 0

-- The loop over the bytes, with its running count.
leading_zero_loop : ℕ → Bytes → ℕ
leading_zero_loop count [] = count
leading_zero_loop count (b ∷ bs) =
    let rest = leading_zero_loop (count + 8) bs in if b == 0 then rest else count + leading_zeros b

unfoldable pub leading_zero_bits : Bytes → ℕ
unfolding leading_zero_loop leading_zeros
leading_zero_bits hash = leading_zero_loop 0 hash

-- `hex::decode(hex).expect(..)`: `none` is the panic.
unfoldable pub hex_to_bytes : Crypto → Text → Option Bytes
hex_to_bytes crypto hex = crypto.hex_decode hex
