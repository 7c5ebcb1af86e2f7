-- ===== src/Node/Typed/Draft.antt =====
-- The first half of `mine_block`, `prepare`, keeps every number within its type.
use the_block.Prelude.{ℕ, ◌^◌, ◌<◌, ◌≡◌, [], ◌∷◌, Text, arith, All, length, inl, inr}
use the_block.Prelude.Result.{ok}
use the_block.Prelude.Map.{values}
use the_block.Transaction.{Crypto}
use the_block.Ledger.{Blockchain}
use the_block.Ledger.Action.{Outcome-cases}
use the_block.Rewards.{decay}
use the_block.Order.{sort_pending}
use the_block.Order.Perm.{All-sort_pending}
use the_block.Mining.{Draft, coinbase, prepare}
use the_block.Node.Typed.{IsTransaction, IsBlock, IsTyped}

decay_lt : (r : ℕ) → decay r < 2 ^ 64
unfolding decay
decay_lt r = omega arith

-- The rewards of a state, decayed.
abbrev decayed : Blockchain → Blockchain
decayed s = record s {
  block_reward_consumer = decay s.block_reward_consumer;
  block_reward_industrial = decay s.block_reward_industrial;
}

decayed-IsTyped : (s : Blockchain) → IsTyped s → IsTyped (decayed s)
decayed-IsTyped s h = record {
  chain = h.chain;
  accounts = h.accounts;
  difficulty = h.difficulty;
  mempool = h.mempool;
  emission_consumer = h.emission_consumer;
  emission_industrial = h.emission_industrial;
  block_reward_consumer = decay_lt s.block_reward_consumer;
  block_reward_industrial = decay_lt s.block_reward_industrial;
  block_height = h.block_height;
}

cleared-IsTyped : (s : Blockchain) → IsTyped s → IsTyped (record s { mempool = [] })
cleared-IsTyped s h = record {
  chain = h.chain;
  accounts = h.accounts;
  difficulty = h.difficulty;
  mempool = tt;
  emission_consumer = h.emission_consumer;
  emission_industrial = h.emission_industrial;
  block_reward_consumer = h.block_reward_consumer;
  block_reward_industrial = h.block_reward_industrial;
  block_height = h.block_height;
}

-- The draft of a block.
pub record IsDraft (d : Draft) : Type 0 where
  pub block : IsBlock d.block
  pub pending : All IsTransaction d.pending

pub prepare_keeps :
    (crypto : Crypto) (miner_addr : Text) (s : Blockchain)
    → IsTyped s
    → IsTyped (prepare crypto miner_addr s).1
unfolding prepare
prepare_keeps crypto miner_addr s h = elim (Outcome-cases (prepare crypto miner_addr s)) [
  | inl (d, s1, e) ↦
      let after : (prepare crypto miner_addr s).1 ≡ record (decayed s) { mempool = [] } =
        ground arith in
      rw after (cleared-IsTyped (decayed s) (decayed-IsTyped s h))
  | inr (x, s1, e) ↦
      let after : (prepare crypto miner_addr s).1 ≡ decayed s = ground arith in
      rw after (decayed-IsTyped s h)
]

coinbase-IsTransaction :
    (m : Text) (c i : ℕ) → c < 2 ^ 64 → i < 2 ^ 64 → IsTransaction (coinbase m c i)
coinbase-IsTransaction m c i hc hi = record {
  amount_consumer = hc;
  amount_industrial = hi;
  fee = omega arith;
  fee_selector = omega arith;
  nonce = omega arith;
}

pub prepare-IsDraft :
    (crypto : Crypto) (miner_addr : Text) (s : Blockchain) {d : Draft} {s1 : Blockchain}
    → IsTyped s
    → length s.chain < 2 ^ 64
    → prepare crypto miner_addr s ≡ (ok d, s1)
    → IsDraft d
unfolding prepare
prepare-IsDraft crypto miner_addr s {d} h room e =
    let fc : d.block.coinbase_consumer < 2 ^ 64 = ground arith in
    let fi : d.block.coinbase_industrial < 2 ^ 64 = ground arith in
    let p : d.pending ≡ sort_pending (values s.mempool) = ground arith in
    let t : d.block.transactions
        ≡ coinbase miner_addr d.block.coinbase_consumer d.block.coinbase_industrial
          ∷ sort_pending (values s.mempool) =
      ground arith in
    let typed = All-sort_pending IsTransaction (values s.mempool) h.mempool in
    record {
      block = record {
        index = ground (arith, room);
        transactions = rw t (
          coinbase-IsTransaction miner_addr d.block.coinbase_consumer d.block.coinbase_industrial fc
              fi,
          typed,
        );
        difficulty = ground (arith, h.difficulty);
        nonce = ground arith;
        coinbase_consumer = fc;
        coinbase_industrial = fi;
      };
      pending = rw p typed;
    }
