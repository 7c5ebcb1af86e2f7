-- ===== src/Rewards.antt =====
-- The monetary constants of src/lib.rs, the decay of the reward and the supply cap, and the fee sums
-- and their checksum, which mining, validation and import share.
pub mod Laws
use the_block.Prelude.{ℕ, ◌*◌, ◌/◌, ◌%◌, ◌^◌, List, [], ◌∷◌, ◌++◌, Text, ltb, if◌then◌else◌}
use the_block.Prelude.Word.{add64, sub64, add128}
use the_block.Prelude.Result.{ok, err}
use the_block.Fee.{decompose}
use the_block.Transaction.{Crypto, SignedTransaction, le_bytes}
use the_block.Ledger.{TokenAmount}

abbrev pub max_supply_consumer : ℕ
max_supply_consumer = 20_000_000_000_000

abbrev pub max_supply_industrial : ℕ
max_supply_industrial = 20_000_000_000_000

abbrev pub initial_block_reward_consumer : ℕ
initial_block_reward_consumer = 60_000

abbrev pub initial_block_reward_industrial : ℕ
initial_block_reward_industrial = 30_000

-- The reward of the next block.
unfoldable pub decay : TokenAmount → TokenAmount
decay reward = reward * 99_995 % 2 ^ 128 / 100_000 % 2 ^ 64

-- The reward that is left under the supply cap.
unfoldable pub cap_reward : ℕ → ℕ → ℕ → ℕ
cap_reward max_supply emission reward =
    if ltb max_supply (add64 emission reward) then sub64 max_supply emission else reward

-- The sum of the fees that can be decomposed, in `u128`.
unfoldable pub fee_loop : ℕ → ℕ → List SignedTransaction → ℕ × ℕ
fee_loop c i [] = (c, i)
fee_loop c i (tx ∷ txs) = elim (decompose tx.payload.fee_selector tx.payload.fee) [
  | ok r ↦ fee_loop (add128 c r.0) (add128 i r.1) txs
  | err e ↦ fee_loop c i txs
]

-- blake3(total_fee_ct || total_fee_it) in hex.
unfoldable pub fee_checksum : Crypto → ℕ → ℕ → Text
fee_checksum crypto fc fi = crypto.to_hex (crypto.blake3 (le_bytes 8 fc ++ le_bytes 8 fi))
