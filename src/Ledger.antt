-- ===== src/Ledger.antt =====
-- The state of the node, src/lib.rs: accounts, blocks, `Blockchain`, and the accessors that read or
-- write one field of it.
pub mod Action
pub mod Accounts
use the_block.Prelude.{ℕ, List, [], ◌∷◌, Text, text_dec, Option, none, some, length}
use the_block.Prelude.Map.{HashMap}
use the_block.Transaction.{SignedTransaction}
use the_block.Db.{SimpleDb}

-- `TokenAmount`, a transparent wrapper of `u64`.
abbrev pub TokenAmount : Type 0
TokenAmount = ℕ

pub record TokenBalance : Type 0 where
  pub consumer : ℕ
  pub industrial : ℕ

pub record Account : Type 0 where
  pub address : Text
  pub balance : TokenBalance
  pub nonce : ℕ
  pub pending_consumer : ℕ
  pub pending_industrial : ℕ
  pub pending_nonce : ℕ

pub record Block : Type 0 where
  pub index : ℕ
  pub previous_hash : Text
  pub transactions : List SignedTransaction
  pub difficulty : ℕ
  pub nonce : ℕ
  pub hash : Text
  pub coinbase_consumer : TokenAmount
  pub coinbase_industrial : TokenAmount
  pub fee_checksum : Text

pub record Blockchain : Type 0 where
  pub chain : List Block
  pub accounts : HashMap Text Account
  pub difficulty : ℕ
  pub mempool : HashMap (Text × ℕ) SignedTransaction
  pub db : SimpleDb
  pub emission_consumer : ℕ
  pub emission_industrial : ℕ
  pub block_reward_consumer : TokenAmount
  pub block_reward_industrial : TokenAmount
  pub block_height : ℕ

-- The account that `or_insert` puts in, and that `add_account` fills with balances.
abbrev pub new_account : Text → ℕ → ℕ → Account
new_account address consumer industrial = record {
  address = address;
  balance = record { consumer = consumer; industrial = industrial };
  nonce = 0;
  pending_consumer = 0;
  pending_industrial = 0;
  pending_nonce = 0;
}
