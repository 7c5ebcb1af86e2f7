-- ===== src/Pow/Bits.antt =====
-- A hash has at least `d` leading zero bits exactly if, read as one big-endian number, it is below
-- 2 ^ (bits - d): the difficulty test is a bound on the hash.
use the_block.Prelude.{
  ℕ, zero, suc, ◌+◌, ◌-◌, ◌*◌, ◌^◌, ◌≤◌, ◌<◌, ◌≡◌, ◌↔◌, refl, [], ◌∷◌, Bytes, All, length, arith,
  dec_le,
}
use native.Mathlib.Nat.{pow-suc, pow-zero, add-zero, add-suc, mul-one, mul_assoc, le_trans}
use the_block.Pow.{leading_zeros, leading_zero_loop, leading_zero_bits}

-- The number that bytes stand for, the most significant first.
abbrev pub big_endian : Bytes → ℕ
big_endian [] = 0
big_endian (b ∷ bs) = b * 256 ^ length bs + big_endian bs

loop_shift : (count : ℕ) (bs : Bytes) → leading_zero_loop count bs ≡ count + leading_zero_loop 0 bs
unfolding leading_zero_loop
loop_shift count [] = omega arith
loop_shift count (b ∷ bs) = ground (arith, loop_shift (count + 8) bs, loop_shift 8 bs)

big_endian-lt : (bs : Bytes) → All (λ b. b < 256) bs → big_endian bs < 256 ^ length bs
big_endian-lt [] h = omega arith
big_endian-lt (b ∷ bs) h = grind (arith, pow-suc, big_endian-lt bs h.1)

pow-add : (a b : ℕ) → 2 ^ (a + b) ≡ 2 ^ a * 2 ^ b
pow-add a zero = rw (add-zero, pow-zero, mul-one)
pow-add a (suc b) = rw (add-suc, pow-suc, pow-suc, pow-add a b) (mul_assoc (2 ^ a) (2 ^ b) 2)

pow_pos : (a : ℕ) → 0 < 2 ^ a
pow_pos zero = omega arith
pow_pos (suc a) = omega (arith, pow-suc 2 a, pow_pos a)

pow_mono : (a b : ℕ) → a ≤ b → 2 ^ a ≤ 2 ^ b
pow_mono a b h =
    let e : b ≡ a + (b - a) = omega arith in rw (e, pow-add) (grind (arith, pow_pos (b - a)))

pow_256 : (n : ℕ) → 256 ^ n ≡ 2 ^ (8 * n)
pow_256 zero = refl
pow_256 (suc n) = let e : 8 * suc n ≡ 8 * n + 8 = omega arith in rw (pow-suc, pow_256 n, e, pow-add)

-- Of a byte that is not zero.
leading_zeros_bounds :
    (b : ℕ)
    → 0 < b
    → b < 256
    → (leading_zeros b ≤ 7) × (b < 2 ^ (8 - leading_zeros b)) × (2 ^ (7 - leading_zeros b) ≤ b)
unfolding leading_zeros
leading_zeros_bounds b p h = ground arith

-- The number has exactly the width that the count leaves.
record HasWidth (bs : Bytes) : Type 0 where
  count : leading_zero_loop 0 bs ≤ 8 * length bs
  below : big_endian bs < 2 ^ (8 * length bs - leading_zero_loop 0 bs)
  above :
      (leading_zero_loop 0 bs < 8 * length bs)
      → 2 ^ (8 * length bs - leading_zero_loop 0 bs - 1) ≤ big_endian bs

HasWidth-zero : (bs : Bytes) → HasWidth bs → HasWidth (0 ∷ bs)
unfolding leading_zero_loop
HasWidth-zero bs h =
    let e : leading_zero_loop 8 bs ≡ 8 + leading_zero_loop 0 bs = loop_shift 8 bs in
    let s : 8 * suc (length bs) - (8 + leading_zero_loop 0 bs)
        ≡ 8 * length bs - leading_zero_loop 0 bs =
      omega arith in
    record {
      count = omega (arith, e, h.count);
      below = rw (e, s) (omega (arith, h.below));
      above = λ lt. rw (e, s) (omega (arith, h.above (omega (arith, e))));
    }

HasWidth-byte : (b : ℕ) (bs : Bytes) → 0 < b → b < 256 → All (λ b. b < 256) bs → HasWidth (b ∷ bs)
unfolding leading_zero_loop
HasWidth-byte b bs p h hs =
    let (z, lo, hi) = leading_zeros_bounds b p h in
    let c : leading_zero_loop 0 (b ∷ bs) ≡ leading_zeros b = ground arith in
    let s : 8 * suc (length bs) - leading_zeros b ≡ (8 - leading_zeros b) + 8 * length bs =
      omega arith in
    let s' : 8 * suc (length bs) - leading_zeros b - 1 ≡ (7 - leading_zeros b) + 8 * length bs =
      omega arith in
    let r = big_endian-lt bs hs in
    record {
      count = rw c (omega arith);
      below = rw (c, s, pow-add, ← pow_256 (length bs)) (grind arith);
      above = λ lt. rw (c, s', pow-add, ← pow_256 (length bs)) (grind arith);
    }

width : (bs : Bytes) → All (λ b. b < 256) bs → HasWidth bs
unfolding leading_zero_loop
width [] h = record { count = omega arith; below = omega arith; above = λ lt. absurd (omega arith) }
width (zero ∷ bs) h = HasWidth-zero bs (width bs h.1)
width (suc b ∷ bs) h = HasWidth-byte (suc b) bs (omega arith) h.0 h.1

-- For bytes below 256 and a difficulty of at most their number of bits, the leading zero bits reach
-- the difficulty exactly if the big-endian number is below 2 ^ (bits - difficulty).
pub leading_zero_bits_bounds :
    (bs : Bytes) (d : ℕ)
    → All (λ b. b < 256) bs
    → d ≤ 8 * length bs
    → (d ≤ leading_zero_bits bs) ↔ (big_endian bs < 2 ^ (8 * length bs - d))
unfolding leading_zero_bits
leading_zero_bits_bounds bs d h hd = (
  λ le.
      le_trans (width bs h).below
        (pow_mono (8 * length bs - leading_zero_loop 0 bs) (8 * length bs - d) (omega arith)),
  λ lt. elim (dec_le d (leading_zero_loop 0 bs)) [
    | yes le ↦ le
    | no gt ↦ absurd (
        omega (
          arith,
          (width bs h).count,
          (width bs h).above (omega arith),
          pow_mono (8 * length bs - d) (8 * length bs - leading_zero_loop 0 bs - 1) (omega arith),
        ))
  ],
)
