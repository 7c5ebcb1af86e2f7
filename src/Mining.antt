-- ===== src/Mining.antt =====
-- `mine_block` of src/lib.rs, in two halves around the proof-of-work loop.
pub mod Prepare
pub mod Steps
pub mod Credit
pub mod Ready
pub mod Supply
pub mod Total
pub mod Consecutive
pub mod Nonces
pub mod Header
pub mod Accepted
pub mod AnyOrder
pub mod Ordered
pub mod Persisted
use the_block.Prelude.{ℕ, List, [], ◌∷◌, ◌++◌, Text, length}
use the_block.Prelude.Word.{add64, checked_add, try_u64}
use the_block.Prelude.Result.{Result, ok, err}
use the_block.Prelude.Map.{values}
use the_block.Transaction.{Crypto, SignedTransaction}
use the_block.Hashlayout.{zero_hash}
use the_block.Ledger.{Block, Blockchain}
use the_block.Ledger.Action.{
  Action, PyError, fee_overflow, panic, gets, or_raise, modify, pure, raise, ◌>>=◌, ◌>>◌,
}
use the_block.Rewards.{
  max_supply_consumer, max_supply_industrial, decay, cap_reward, fee_loop, fee_checksum,
}
use the_block.Order.{sort_pending}
use the_block.Apply.{zero_address, apply_txs, remove_txs, credit_miner}
use the_block.Search.{rounds, search_nonce}
use the_block.Store.{Codec, persist_chain}

-- `self.chain.last().unwrap().hash`, or zeros for an empty chain.
abbrev pub tip_hash : List Block → Text
tip_hash [] = zero_hash
tip_hash (b ∷ []) = b.hash
tip_hash (b ∷ c ∷ bs) = tip_hash (c ∷ bs)

-- `txs.iter().skip(1)`.
abbrev pub skip_one : List SignedTransaction → List SignedTransaction
skip_one [] = []
skip_one (cb ∷ txs) = txs

-- A block before its nonce is found, with the rewards and the transactions in it.
pub record Draft : Type 0 where
  pub block : Block
  pub reward_c : ℕ
  pub reward_i : ℕ
  pub pending : List SignedTransaction

-- What an error of the search is to the method.
abbrev pub or_error : {A : Type 0} → Result PyError A → Action A
or_error (ok a) = pure a
or_error (err e) = raise e

abbrev pub coinbase : Text → ℕ → ℕ → SignedTransaction
coinbase miner_addr cb_c cb_i = record {
  payload = record {
    from_ = zero_address;
    to = miner_addr;
    amount_consumer = cb_c;
    amount_industrial = cb_i;
    fee = 0;
    fee_selector = 0;
    nonce = 0;
    memo = [];
  };
  public_key = [];
  signature = [];
}

module _ (crypto : Crypto) where
  -- The first half of `mine_block`, up to the loop.
  unfoldable pub prepare : Text → Action Draft
  unfolding fee_checksum
  prepare miner_addr = do
    modify (λ s. record s {
      block_reward_consumer = decay s.block_reward_consumer;
      block_reward_industrial = decay s.block_reward_industrial;
    })
    s ← gets (λ s. s)
    let reward_c = cap_reward max_supply_consumer s.emission_consumer s.block_reward_consumer
    let reward_i = cap_reward max_supply_industrial s.emission_industrial s.block_reward_industrial
    let pending = sort_pending (values s.mempool)
    let sums = fee_loop 0 0 pending
    fee_c ← or_raise (try_u64 sums.0) fee_overflow
    fee_i ← or_raise (try_u64 sums.1) fee_overflow
    cb_c ← or_raise (checked_add reward_c fee_c) fee_overflow
    cb_i ← or_raise (checked_add reward_i fee_i) fee_overflow
    modify (λ s. record s { mempool = [] })
    pure (record {
      block = record {
        index = length s.chain;
        previous_hash = tip_hash s.chain;
        transactions = coinbase miner_addr cb_c cb_i ∷ pending;
        difficulty = s.difficulty;
        nonce = 0;
        hash = [];
        coinbase_consumer = cb_c;
        coinbase_industrial = cb_i;
        fee_checksum = fee_checksum crypto fee_c fee_i;
      };
      reward_c = reward_c;
      reward_i = reward_i;
      pending = pending;
    })

  -- The second half, once a nonce is found, up to `persist_chain`.
  unfoldable pub commit : Text → Draft → ℕ → Text → Action Block
  commit miner_addr d nonce hash = do
    let block = record d.block { nonce = nonce; hash = hash }
    modify (λ s. record s {
      chain = s.chain ++ block ∷ [];
      accounts = apply_txs d.pending s.accounts;
      mempool = remove_txs d.pending s.mempool;
    })
    credit_miner miner_addr d.block.coinbase_consumer d.block.coinbase_industrial
    modify (λ s. record s {
      emission_consumer = add64 s.emission_consumer d.reward_c;
      emission_industrial = add64 s.emission_industrial d.reward_i;
      block_height = add64 s.block_height 1;
    })
    pure block

  -- `none` of the search cannot happen: `rounds` is enough.
  unfoldable pub mine_block : Codec → Text → Action Block
  mine_block codec miner_addr = do
    d ← prepare miner_addr
    outcome ← or_raise (search_nonce crypto d.block rounds 0) panic
    found ← or_error outcome
    block ← commit miner_addr d found.0 found.1
    persist_chain codec
    pure block
