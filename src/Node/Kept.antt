-- ===== src/Node/Kept.antt =====
-- What is kept over a run of the node: reservations, the money, the caps and the rewards.
use the_block.Prelude.{ℕ, suc, ◌+◌, ◌^◌, ◌≤◌, ◌<◌, ◌≡◌, ap, Text, arith, All, length}
use the_block.Prelude.Result.{ok}
use the_block.Prelude.Map.{values}
use the_block.Transaction.{Crypto}
use the_block.Ledger.{Block, Blockchain}
use the_block.Mempool.Reserve.{IsConsistent}
use the_block.Store.{Codec, persist_chain}
use the_block.Rewards.{max_supply_consumer, max_supply_industrial, decay}
use the_block.Apply.Funded.{supply_c, supply_i, IsPayable}
use the_block.Mining.{mine_block}
use the_block.Mining.Prepare.{prepare_outcome, commit_outcome}
use the_block.Mining.Steps.{mine_steps}
use the_block.Mining.Ready.{IsReady}
use the_block.Node.Accounts.{length-values}

-- The bounds of a run of `n` calls that puts `c` and `i` into accounts: all money there can be fits in
-- 64 bits, and so do the transactions.
pub record IsBounded (start : Blockchain) (n c i : ℕ) : Type 0 where
  pub money_c : supply_c start.accounts + c + max_supply_consumer < 2 ^ 64 + start.emission_consumer
  pub money_i :
      supply_i start.accounts + i + max_supply_industrial < 2 ^ 64 + start.emission_industrial
  pub room : length start.mempool + n < 2 ^ 64

pub fewer : (start : Blockchain) (n c i : ℕ) → IsBounded start (suc n) c i → IsBounded start n c i
fewer start n c i b = record {
  money_c = b.money_c;
  money_i = b.money_i;
  room = omega (arith, b.room);
}

-- A state of a run against its start.
pub record IsKept (start : Blockchain) (n c i : ℕ) (s : Blockchain) : Type 0 where
  pub consistent : IsConsistent s
  pub payable : All (IsPayable s.accounts) (values s.mempool)
  pub money_c :
      supply_c s.accounts + start.emission_consumer
      ≡ supply_c start.accounts + c + s.emission_consumer
  pub money_i :
      supply_i s.accounts + start.emission_industrial
      ≡ supply_i start.accounts + i + s.emission_industrial
  pub cap_c : s.emission_consumer ≤ max_supply_consumer
  pub cap_i : s.emission_industrial ≤ max_supply_industrial
  pub reward_c : decay s.block_reward_consumer ≤ decay start.block_reward_consumer
  pub reward_i : decay s.block_reward_industrial ≤ decay start.block_reward_industrial
  pub few : length s.mempool ≤ length start.mempool + n

persist_rewards :
    (codec : Codec) (s : Blockchain) {s' : Blockchain}
    → persist_chain codec s ≡ (ok tt, s')
    → (s'.block_reward_consumer ≡ s.block_reward_consumer)
      × (s'.block_reward_industrial ≡ s.block_reward_industrial)
unfolding persist_chain
persist_rewards codec s h = ground arith

pub mined_rewards :
    (crypto : Crypto) (codec : Codec) (miner_addr : Text) (s : Blockchain) (block : Block)
    {s' : Blockchain}
    → mine_block crypto codec miner_addr s ≡ (ok block, s')
    → (decay s'.block_reward_consumer ≡ decay (decay s.block_reward_consumer))
      × (decay s'.block_reward_industrial ≡ decay (decay s.block_reward_industrial))
mined_rewards crypto codec miner_addr s block {s'} e =
    let m = mine_steps crypto codec miner_addr s e in
    let p = prepare_outcome crypto miner_addr s m.prepares in
    let c = commit_outcome miner_addr m.draft m.nonce m.hash m.prepared crypto m.commits in
    let w = persist_rewards codec m.committed m.persists in
    let rc : s'.block_reward_consumer ≡ decay s.block_reward_consumer =
      ground (arith, w, c.after, c.credits.after, p.after) in
    let ri : s'.block_reward_industrial ≡ decay s.block_reward_industrial =
      ground (arith, w, c.after, c.credits.after, p.after) in
    (ap decay rc, ap decay ri)

module _ (start : Blockchain) (h : IsReady start) where
  pub begin-IsKept : IsKept start 0 0 0 start
  begin-IsKept = record {
    consistent = h.consistent;
    payable = h.payable;
    money_c = omega arith;
    money_i = omega arith;
    cap_c = h.emitted_c;
    cap_i = h.emitted_i;
    reward_c = omega arith;
    reward_i = omega arith;
    few = omega arith;
  }

  module _ (n c i : ℕ) (s : Blockchain) (k : IsKept start n c i s) where
    pub kept-IsReady : IsBounded start n c i → IsReady s
    kept-IsReady b = record {
      consistent = k.consistent;
      payable = k.payable;
      range_c = omega (arith, k.money_c, k.cap_c, b.money_c);
      range_i = omega (arith, k.money_i, k.cap_i, b.money_i);
      emitted_c = k.cap_c;
      emitted_i = k.cap_i;
      reward_c = omega (arith, k.reward_c, h.reward_c);
      reward_i = omega (arith, k.reward_i, h.reward_i);
      room = omega (arith, length-values s.mempool, k.few, b.room);
    }
