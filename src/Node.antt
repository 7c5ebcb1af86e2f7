-- ===== src/Node.antt =====
-- The node as a state machine: the calls of `#[pymethods]` of `Blockchain` in src/lib.rs that change
-- accounts, mempool and chain, in any order.
pub mod Accounts
pub mod Kept
pub mod Steps
pub mod Ready
pub mod Orderly
pub mod Typed
pub mod Waits
pub mod Gap
pub mod Extends
pub mod Served
pub mod Serving
use the_block.Prelude.{ℕ, suc, ◌+◌, ◌^◌, ◌<◌, ◌≡◌, ◌≢◌, Text}
use the_block.Prelude.Result.{ok}
use the_block.Transaction.{Crypto, SignedTransaction}
use the_block.Ledger.{Block, Blockchain}
use the_block.Ledger.Accounts.{add_account}
use the_block.Mempool.{submit_transaction, drop_transaction}
use the_block.Rewards.Laws.{fee_c, fee_i}
use the_block.Apply.{zero_address}
use the_block.Store.{Codec}
use the_block.Mining.{mine_block}

-- A transaction whose sender is not the address of the coinbase, and whose amounts and fees do not
-- wrap: the two things that `submit_transaction` does not look at.
pub record IsPlain (tx : SignedTransaction) : Type 0 where
  pub ordinary : tx.payload.from_ ≢ zero_address
  pub no_wrap_c : tx.payload.amount_consumer + fee_c tx < 2 ^ 64
  pub no_wrap_i : tx.payload.amount_industrial + fee_i tx < 2 ^ 64

-- The states that a number of successful calls leads to, with what `add_account` has put in, by
-- token. A refused call of the first three leaves the state as it is.
pub data Runs (crypto : Crypto) (codec : Codec) (start : Blockchain)
    : ℕ → ℕ → ℕ → Blockchain → Type 0 where
  begin : Runs crypto codec start 0 0 0 start
  added :
      (n c i : ℕ) (s s' : Blockchain) (address : Text) (consumer industrial : ℕ)
      → Runs crypto codec start n c i s
      → add_account address consumer industrial s ≡ (ok tt, s')
      → Runs crypto codec start (suc n) (c + consumer) (i + industrial) s'
  submitted :
      (n c i : ℕ) (s s' : Blockchain) (tx : SignedTransaction)
      → Runs crypto codec start n c i s
      → IsPlain tx
      → submit_transaction crypto tx s ≡ (ok tt, s')
      → Runs crypto codec start (suc n) c i s'
  dropped :
      (n c i : ℕ) (s s' : Blockchain) (sender : Text) (nonce : ℕ)
      → Runs crypto codec start n c i s
      → drop_transaction sender nonce s ≡ (ok tt, s')
      → Runs crypto codec start (suc n) c i s'
  mined :
      (n c i : ℕ) (s s' : Blockchain) (miner_addr : Text) (block : Block)
      → Runs crypto codec start n c i s
      → mine_block crypto codec miner_addr s ≡ (ok block, s')
      → Runs crypto codec start (suc n) c i s'
