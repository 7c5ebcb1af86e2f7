-- ===== src/Mining/Ready.antt =====
-- When mining is safe, and what the waiting transactions then burn.
use the_block.Prelude.{◌+◌, ◌^◌, ◌≤◌, ◌<◌, ◌≡◌, refl, List, [], ◌∷◌, arith, All, length, sym, ◌∙◌}
use the_block.Prelude.Map.{values, total}
use the_block.Transaction.{SignedTransaction}
use the_block.Ledger.{Blockchain}
use the_block.Mempool.Reserve.{total_c, total_i, one, of_sender, IsConsistent}
use the_block.Rewards.{max_supply_consumer, max_supply_industrial, decay, fee_loop}
use the_block.Rewards.Laws.{fee_c, fee_i, fee_loop-total}
use the_block.Order.{sort_pending}
use the_block.Order.Perm.{total-sort_pending, All-sort_pending}
use the_block.Apply.{apply_txs}
use the_block.Apply.Funded.{supply_c, supply_i, IsPayable, IsFunded}
use the_block.Apply.Supply.{apply_txs_burns_fees}

-- A state in which mining is safe: reservations are right, what waits can be mined, and the numbers
-- are within the supply.
pub record IsReady (s : Blockchain) : Type 0 where
  pub consistent : IsConsistent s
  pub payable : All (IsPayable s.accounts) (values s.mempool)
  pub range_c : supply_c s.accounts < 2 ^ 64
  pub range_i : supply_i s.accounts < 2 ^ 64
  pub emitted_c : s.emission_consumer ≤ max_supply_consumer
  pub emitted_i : s.emission_industrial ≤ max_supply_industrial
  pub reward_c : max_supply_consumer + decay s.block_reward_consumer < 2 ^ 64
  pub reward_i : max_supply_industrial + decay s.block_reward_industrial < 2 ^ 64
  pub room : length (values s.mempool) < 2 ^ 64

total-one : (txs : List SignedTransaction) → total one txs ≡ length txs
total-one [] = refl
total-one (tx ∷ txs) = omega (arith, total-one txs)

pub length-sort_pending : (txs : List SignedTransaction) → length (sort_pending txs) ≡ length txs
length-sort_pending txs =
    sym (total-one (sort_pending txs)) ∙ total-sort_pending one txs ∙ total-one txs

-- The pending transactions of a draft can be mined from the accounts of the state before.
pub funded :
    (s : Blockchain) (txs : List SignedTransaction)
    → IsReady s
    → txs ≡ sort_pending (values s.mempool)
    → IsFunded s.accounts txs
funded s txs h e = rw e (record {
  reserved = λ a acc g.
      let old = h.consistent.reserved a acc g in
      record {
        nonce = old.nonce ∙ sym (total-sort_pending (of_sender one a) (values s.mempool));
        consumer = old.consumer ∙ sym (total-sort_pending (of_sender total_c a) (values s.mempool));
        industrial =
            old.industrial ∙ sym (total-sort_pending (of_sender total_i a) (values s.mempool));
        covered_consumer = old.covered_consumer;
        covered_industrial = old.covered_industrial;
        range_consumer = old.range_consumer;
        range_industrial = old.range_industrial;
      };
  range_c = h.range_c;
  range_i = h.range_i;
})

-- What the waiting transactions of a ready state burn, and what is left for others.
pub ready_burns :
    (s : Blockchain)
    → IsReady s
    → let txs = sort_pending (values s.mempool) in
      (fee_loop 0 0 txs ≡ (total fee_c txs, total fee_i txs))
      × (supply_c (apply_txs txs s.accounts) + total fee_c txs ≡ supply_c s.accounts)
      × (supply_i (apply_txs txs s.accounts) + total fee_i txs ≡ supply_i s.accounts)
ready_burns s h =
    let txs = sort_pending (values s.mempool) in
    let burns =
      apply_txs_burns_fees txs s.accounts
        (All-sort_pending (IsPayable s.accounts) (values s.mempool) h.payable)
        (funded s txs h refl) in
    (fee_loop-total txs (rw (length-sort_pending (values s.mempool)) h.room), burns.0, burns.1)
