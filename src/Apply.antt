-- ===== src/Apply.antt =====
-- What mining does to the accounts, from `mine_block` of src/lib.rs: the loop over the transactions
-- of the block and the credit of the miner.
pub mod Funded
pub mod Pay
pub mod Receive
pub mod Supply
pub mod Minting
use the_block.Prelude.{ℕ, List, [], ◌∷◌, none, some, Text, text_dec, key_dec, ite, replicate}
use the_block.Prelude.Word.{add64, saturating_sub, checked_add}
use the_block.Prelude.Map
use the_block.Prelude.Map.{HashMap}
use the_block.Transaction.{SignedTransaction}
use the_block.Ledger.{Account, new_account}
use the_block.Ledger.Action.{Action, panic, gets, or_raise, modify, ◌>>=◌, ◌>>◌}
use the_block.Mempool.{key}
use the_block.Mempool.Reserve.{total_c, total_i}

-- "0".repeat(34), the sender of a coinbase.
unfoldable pub zero_address : Text
zero_address = replicate 34 b'0'

-- What one transaction does to its sender when it is mined.
abbrev pub debit : SignedTransaction → Account → Account
debit tx a = record a {
  balance = record {
    consumer = saturating_sub a.balance.consumer (total_c tx);
    industrial = saturating_sub a.balance.industrial (total_i tx);
  };
  pending_consumer = saturating_sub a.pending_consumer (total_c tx);
  pending_industrial = saturating_sub a.pending_industrial (total_i tx);
  pending_nonce = saturating_sub a.pending_nonce 1;
  nonce = tx.payload.nonce;
}

-- `r.balance.* +=`.
abbrev pub credit : SignedTransaction → Account → Account
credit tx a = record a {
  balance = record {
    consumer = add64 a.balance.consumer tx.payload.amount_consumer;
    industrial = add64 a.balance.industrial tx.payload.amount_industrial;
  };
}

-- The sender's half: nothing for the zero address or for a sender with no account.
unfoldable pub pay : SignedTransaction → HashMap Text Account → HashMap Text Account
pay tx accounts =
    ite (text_dec tx.payload.from_ zero_address) accounts
      (elim (Map.get text_dec tx.payload.from_ accounts) [
        | none ↦ accounts
        | some a ↦ Map.insert text_dec tx.payload.from_ (debit tx a) accounts
      ])

-- The recipient's half, with `or_insert`.
unfoldable pub receive : SignedTransaction → HashMap Text Account → HashMap Text Account
receive tx accounts =
    Map.insert text_dec tx.payload.to
      (credit tx (Map.entry_or text_dec tx.payload.to (new_account tx.payload.to 0 0) accounts))
      accounts

-- The loop over `txs.iter().skip(1)`.
unfoldable pub apply_txs : List SignedTransaction → HashMap Text Account → HashMap Text Account
unfolding pay receive
apply_txs [] accounts = accounts
apply_txs (tx ∷ txs) accounts = apply_txs txs (receive tx (pay tx accounts))

-- `self.mempool.remove` in the same loop.
unfoldable pub remove_txs :
    List SignedTransaction
    → HashMap (Text × ℕ) SignedTransaction
    → HashMap (Text × ℕ) SignedTransaction
remove_txs [] mempool = mempool
remove_txs (tx ∷ txs) mempool = remove_txs txs (Map.remove key_dec (key tx) mempool)

-- The credit of the miner, which panics on overflow.
unfoldable pub credit_miner : Text → ℕ → ℕ → Action (Unit {0})
credit_miner miner_addr cb_c cb_i = do
  miner ← gets (λ s. Map.entry_or text_dec miner_addr (new_account miner_addr 0 0) s.accounts)
  modify (λ s. record s { accounts = Map.insert text_dec miner_addr miner s.accounts })
  consumer ← or_raise (checked_add miner.balance.consumer cb_c) panic
  let paid = record miner { balance = record miner.balance { consumer = consumer } }
  modify (λ s. record s { accounts = Map.insert text_dec miner_addr paid s.accounts })
  industrial ← or_raise (checked_add miner.balance.industrial cb_i) panic
  let both = record paid { balance = record paid.balance { industrial = industrial } }
  modify (λ s. record s { accounts = Map.insert text_dec miner_addr both s.accounts })
