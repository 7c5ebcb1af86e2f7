-- ===== src/Fee.antt =====
-- Fee routing, src/fee/mod.rs: a raw fee is split by its selector into consumer and industrial
-- parts. The Python exceptions are the two constructors of `FeeError`.
pub mod Laws
use the_block.Prelude.{ℕ, ◌+◌, ◌-◌, ◌/◌, ◌%◌, ◌^◌, ltb, ◌==◌, if◌then◌else◌}
use the_block.Prelude.Result.{Result, ok, err}

pub data FeeError : Type 0 where
  invalid_selector overflow : FeeError

-- (1u64 << 63) - 1
abbrev pub max_fee : ℕ
max_fee = 2 ^ 63 - 1

-- `u128::div_ceil`.
abbrev pub div_ceil : ℕ → ℕ → ℕ
div_ceil a b = if a % b == 0 then a / b else a / b + 1

unfoldable pub decompose : ℕ → ℕ → Result FeeError (ℕ × ℕ)
decompose selector fee =
    if ltb max_fee fee
    then err overflow
    else if selector == 0
    then ok (fee, 0)
    else if selector == 1
    then ok (0, fee)
    else if selector == 2
    then ok (div_ceil fee 2 % 2 ^ 64, fee / 2 % 2 ^ 64)
    else err invalid_selector
