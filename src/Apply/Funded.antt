-- ===== src/Apply/Funded.antt =====
-- The supply, and when a list of transactions can be mined.
use the_block.Prelude.{ℕ, ◌+◌, ◌^◌, ◌<◌, ◌≢◌, List, none, Text, text_dec}
use the_block.Prelude.Map
use the_block.Prelude.Map.{HashMap, values, total}
use the_block.Transaction.{SignedTransaction}
use the_block.Ledger.{Account}
use the_block.Mempool.Reserve.{AllReserved}
use the_block.Rewards.Laws.{fee_c, fee_i}
use the_block.Apply.{zero_address}

-- What all accounts hold together, by token.
abbrev pub supply_c : HashMap Text Account → ℕ
supply_c accounts = total (λ a. a.balance.consumer) (values accounts)

abbrev pub supply_i : HashMap Text Account → ℕ
supply_i accounts = total (λ a. a.balance.industrial) (values accounts)

-- A transaction that can be mined as it should: its sender has an account, is not the address of
-- the coinbase, and amounts and fees do not wrap.
pub record IsPayable (accounts : HashMap Text Account) (tx : SignedTransaction) : Type 0 where
  pub known : Map.get text_dec tx.payload.from_ accounts ≢ none
  pub ordinary : tx.payload.from_ ≢ zero_address
  pub no_wrap_c : tx.payload.amount_consumer + fee_c tx < 2 ^ 64
  pub no_wrap_i : tx.payload.amount_industrial + fee_i tx < 2 ^ 64

-- The accounts are in range and reserve for the transactions.
pub record IsFunded (accounts : HashMap Text Account) (txs : List SignedTransaction) : Type 0 where
  pub reserved : AllReserved accounts txs
  pub range_c : supply_c accounts < 2 ^ 64
  pub range_i : supply_i accounts < 2 ^ 64
