-- ===== src/Mining/Prepare.antt =====
-- What the halves of `mine_block` have done when they succeed.
use the_block.Prelude.{ℕ, ◌+◌, ◌^◌, ◌<◌, ◌≡◌, [], ◌∷◌, ◌++◌, Text, arith, text_dec, inl, inr}
use the_block.Prelude.Word.{add64}
use the_block.Prelude.Result.{ok}
use the_block.Prelude.Map
use the_block.Prelude.Map.{values}
use the_block.Transaction.{Crypto}
use the_block.Ledger.{Account, Block, Blockchain, new_account}
use the_block.Ledger.Action.{Outcome-cases}
use the_block.Rewards.{max_supply_consumer, max_supply_industrial, decay, cap_reward, fee_loop}
use the_block.Order.{sort_pending}
use the_block.Apply.{apply_txs, remove_txs, credit_miner}
use the_block.Mining.{Draft, coinbase, prepare, commit}

pub record IsPrepared (miner_addr : Text) (s s1 : Blockchain) (d : Draft) : Type 0 where
  pub pending : d.pending ≡ sort_pending (values s.mempool)
  pub reward_c :
      d.reward_c
      ≡ cap_reward max_supply_consumer s.emission_consumer (decay s.block_reward_consumer)
  pub reward_i :
      d.reward_i
      ≡ cap_reward max_supply_industrial s.emission_industrial (decay s.block_reward_industrial)
  pub coinbase_c : d.block.coinbase_consumer ≡ d.reward_c + (fee_loop 0 0 d.pending).0
  pub coinbase_i : d.block.coinbase_industrial ≡ d.reward_i + (fee_loop 0 0 d.pending).1
  pub transactions :
      d.block.transactions
      ≡ coinbase miner_addr d.block.coinbase_consumer d.block.coinbase_industrial ∷ d.pending
  pub after : s1 ≡ record s {
    block_reward_consumer = decay s.block_reward_consumer;
    block_reward_industrial = decay s.block_reward_industrial;
    mempool = [];
  }

pub prepare_outcome :
    (crypto : Crypto) (miner_addr : Text) (s : Blockchain) {s1 : Blockchain} {d : Draft}
    → prepare crypto miner_addr s ≡ (ok d, s1)
    → IsPrepared miner_addr s s1 d
unfolding prepare
prepare_outcome crypto miner_addr s h = record {
  pending = ground arith;
  reward_c = ground arith;
  reward_i = ground arith;
  coinbase_c = ground arith;
  coinbase_i = ground arith;
  transactions = ground arith;
  after = ground arith;
}

-- The account of the miner before and after its credit.
abbrev pub miner_before : Text → Blockchain → Account
miner_before miner_addr s = Map.entry_or text_dec miner_addr (new_account miner_addr 0 0) s.accounts

abbrev pub miner_after : Text → ℕ → ℕ → Blockchain → Account
miner_after miner_addr cb_c cb_i s =
    let m = miner_before miner_addr s in
    record m {
      balance = record {
        consumer = m.balance.consumer + cb_c;
        industrial = m.balance.industrial + cb_i;
      };
    }

module _ (miner_addr : Text) (cb_c cb_i : ℕ) (s : Blockchain) where
  pub record IsCredited (s1 : Blockchain) : Type 0 where
    pub after : s1 ≡ record s {
      accounts = Map.insert text_dec miner_addr (miner_after miner_addr cb_c cb_i s) s.accounts;
    }
    pub fits_c : (miner_before miner_addr s).balance.consumer + cb_c < 2 ^ 64
    pub fits_i : (miner_before miner_addr s).balance.industrial + cb_i < 2 ^ 64

  pub credit_miner_outcome :
      {s1 : Blockchain} → credit_miner miner_addr cb_c cb_i s ≡ (ok tt, s1) → IsCredited s1
  unfolding credit_miner
  credit_miner_outcome h =
      let m = miner_before miner_addr s in
      let paid : Account = record m {
        balance = record {
          consumer = m.balance.consumer + cb_c;
          industrial = m.balance.industrial;
        };
      } in
      record {
        after = ground (
          arith,
          Map.insert-insert_self text_dec miner_addr paid m s.accounts,
          Map.insert-insert_self text_dec miner_addr (miner_after miner_addr cb_c cb_i s) paid
              s.accounts,
          Map.insert-insert_self text_dec miner_addr (miner_after miner_addr cb_c cb_i s) m
              s.accounts,
        );
        fits_c = ground arith;
        fits_i = ground arith;
      }

-- The block with its nonce, and the state in which the miner is credited.
abbrev pub sealed : Draft → ℕ → Text → Block
sealed d nonce hash = record d.block { nonce = nonce; hash = hash }

abbrev pub applied : Draft → ℕ → Text → Blockchain → Blockchain
applied d nonce hash s = record s {
  chain = s.chain ++ sealed d nonce hash ∷ [];
  accounts = apply_txs d.pending s.accounts;
  mempool = remove_txs d.pending s.mempool;
}

module _ (miner_addr : Text) (d : Draft) (nonce : ℕ) (hash : Text) (s : Blockchain) where
  pub record IsCommitted (s1 : Blockchain) (block : Block) : Type 0 where
    pub credited : Blockchain
    pub credits :
        IsCredited miner_addr d.block.coinbase_consumer d.block.coinbase_industrial
          (applied d nonce hash s)
          credited
    pub block_sealed : block ≡ sealed d nonce hash
    pub after : s1 ≡ record credited {
      emission_consumer = add64 credited.emission_consumer d.reward_c;
      emission_industrial = add64 credited.emission_industrial d.reward_i;
      block_height = add64 credited.block_height 1;
    }

  pub commit_outcome :
      (crypto : Crypto) {s1 : Blockchain} {block : Block}
      → commit crypto miner_addr d nonce hash s ≡ (ok block, s1)
      → IsCommitted s1 block
  unfolding commit
  commit_outcome crypto {s1} {block} h =
      elim (Outcome-cases (
        credit_miner miner_addr d.block.coinbase_consumer d.block.coinbase_industrial
          (applied d nonce hash s))) [
            | inr (e, s2, r) ↦ absurd (ground arith)
            | inl (tt, s2, r) ↦ record {
              credited = s2;
              credits =
                  credit_miner_outcome miner_addr d.block.coinbase_consumer
                    d.block.coinbase_industrial (applied d nonce hash s) r;
              block_sealed = ground arith;
              after = ground arith;
            }
          ]
