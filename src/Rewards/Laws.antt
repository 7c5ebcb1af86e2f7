-- ===== src/Rewards/Laws.antt =====
-- The reward falls, the cap holds, and the fee sums do not overflow.
use the_block.Prelude.{
  ℕ, ◌+◌, ◌*◌, ◌/◌, ◌^◌, ◌≤◌, ◌<◌, ◌≡◌, List, [], ◌∷◌, length, arith, inl, inr, ◌∙◌,
}
use the_block.Prelude.Word.{add128}
use the_block.Prelude.Result.{Result-cases}
use the_block.Prelude.Map.{total}
use the_block.Fee.{decompose}
use the_block.Fee.Laws.{decompose_conserves}
use the_block.Transaction.{SignedTransaction}
use the_block.Mempool.Reserve.{fees}
use the_block.Rewards.{decay, cap_reward, fee_loop}

-- A reward of 64 bits decays to 99.995 % of it, rounded down: it never grows, and falls by at most
-- a 20000th of it and one.
pub decay_falls :
    (reward : ℕ)
    → reward < 2 ^ 64
    → (decay reward ≡ reward * 99_995 / 100_000)
      × (decay reward ≤ reward)
      × (reward ≤ decay reward + reward / 20_000 + 1)
unfolding decay
decay_falls reward h = omega arith

-- With an emission of at most the cap, and cap and reward together below 2 ^ 64, the capped reward
-- keeps the emission at or below the cap and is at most the reward.
pub cap_reward_bounds :
    (max_supply emission reward : ℕ)
    → emission ≤ max_supply
    → max_supply + reward < 2 ^ 64
    → (emission + cap_reward max_supply emission reward ≤ max_supply)
      × (cap_reward max_supply emission reward ≤ reward)
unfolding cap_reward
cap_reward_bounds max_supply emission reward h small = ground arith

-- The parts of the fee of one transaction.
abbrev pub fee_c : SignedTransaction → ℕ
fee_c tx = (fees tx).0

abbrev pub fee_i : SignedTransaction → ℕ
fee_i tx = (fees tx).1

pub fees-lt : (tx : SignedTransaction) → (fee_c tx < 2 ^ 63) × (fee_i tx < 2 ^ 63)
unfolding fees
fees-lt tx = elim (Result-cases (decompose tx.payload.fee_selector tx.payload.fee)) [
  | inl (r, e) ↦
      ground
        (arith, decompose_conserves tx.payload.fee_selector tx.payload.fee {c = r.0} {i = r.1} e)
  | inr (e, failed) ↦ ground arith
]

fee_loop-total_from :
    (c i : ℕ) (txs : List SignedTransaction)
    → c + length txs * 2 ^ 63 < 2 ^ 128
    → i + length txs * 2 ^ 63 < 2 ^ 128
    → fee_loop c i txs ≡ (c + total fee_c txs, i + total fee_i txs)
unfolding fee_loop fees
fee_loop-total_from c i [] hc hi = ground arith
fee_loop-total_from c i (tx ∷ txs) hc hi =
    ground (arith, fees-lt tx, fee_loop-total_from (add128 c (fee_c tx)) (add128 i (fee_i tx)) txs)

-- Over fewer than 2 ^ 64 transactions the sums in `u128` do not wrap: they are the sums of the
-- consumer and industrial parts of all fees.
pub fee_loop-total :
    (txs : List SignedTransaction)
    → length txs < 2 ^ 64
    → fee_loop 0 0 txs ≡ (total fee_c txs, total fee_i txs)
fee_loop-total txs h = fee_loop-total_from 0 0 txs (omega arith) (omega arith) ∙ ground arith
