-- ===== src/Lib.antt =====
-- The ledger node of this repository (the Rust crate under src/) as a model in type theory, with
-- the theorems that make it correct.
--
-- The node keeps a chain of blocks, accounts with balances in two tokens (consumer and
-- industrial), and a mempool. `submit_transaction` checks a signed transaction and reserves its
-- cost in the account of its sender; `drop_transaction` takes it back; `mine_block` puts all waiting
-- transactions in a block behind a coinbase, finds a nonce, moves the money and writes the state to a
-- key-value store; `validate_block` and `is_valid_chain_rust` judge blocks and chains of others;
-- `import_chain` replaces the chain and replays the accounts; `open` reads and migrates the store.
--
-- Modules, and the code that they model:
--   Prelude       native numbers, lists, maps as association lists, u64 and u128 arithmetic, results
--   Fee           src/fee/mod.rs: decompose
--   Transaction   src/transaction.rs, src/consensus.rs: payloads, ids, signatures
--   Db            src/simple_db.rs
--   Hashlayout    src/hashlayout.rs, src/hash_genesis.rs, and calculate_hash of src/lib.rs
--   Pow, Search   leading_zero_bits and the nonce loop of mine_block
--   Ledger        the structs of src/lib.rs; Ledger.Action, methods that read and write a
--                 `Blockchain` and may raise; Ledger.Accounts, the accessors
--   Mempool       submit_transaction, drop_transaction
--   Rewards       the monetary constants, decay, cap and fee sums
--   Order         the sort of mine_block
--   Apply         the loop of mine_block over the transactions, and the credit of the miner
--   Mining        mine_block: prepare, the search, commit, persist_chain
--   Store, Open   persist_chain, genesis_block, open, with_difficulty, new, and the migration
--   Check         what the two validators share
--   Validate      validate_block
--   ValidChain    is_valid_chain_rust
--   Import        import_chain
--   Node          runs of the calls that change the node (add_account, submit_transaction,
--                 drop_transaction, mine_block), and the types of its numbers
--   Consensus     the genesis hash of src/consensus.rs and its assertion at compile time
--   Build         build.rs
--   Api           what the Python module offers around the node: TokenAmount, keys, printing, wrappers
--   Xtask         xtask/src/main.rs
--   Tests         sample data, runs, and examples of the theorems
--
-- A method on `&mut self` is an `Action`: a function from a state to a result and a state, so what
-- was written before an error stays written. Panics (`expect`, `unwrap`) are the error `panic`.
-- Unsigned integers are natural numbers; unchecked sums wrap at 2 ^ 64 or 2 ^ 128, as in a release
-- build. A `HashMap` or `DashMap` is a list of keys and values. The nonce loop has fuel for all
-- 2 ^ 64 nonces, which is shown to be enough. Ed25519, BLAKE3, hex and bincode are the records
-- `Crypto` and `Codec`, of which theorems assume only what they name.
--
-- `Db::open` is always empty, so the branches of `open` and `new` that read, migrate or refuse data
-- are translated, and no theorem is about them.
--
-- Not modelled: the attributes of PyO3 that generate getters and setters, the module initialiser,
-- the value of BLAKE3 (so the constant GENESIS_HASH is compared as a text, not computed), the
-- git2, clap and serde_json calls of xtask, the advisory database, scripts and tests.
pub mod Prelude
pub mod Fee
pub mod Transaction
pub mod Db
pub mod Hashlayout
pub mod Pow
pub mod Ledger
pub mod Mempool
pub mod Store
pub mod Rewards
pub mod Order
pub mod Apply
pub mod Search
pub mod Mining
pub mod Check
pub mod Validate
pub mod ValidChain
pub mod Import
pub mod Open
pub mod Node
pub mod Consensus
pub mod Build
pub mod Api
pub mod Xtask
pub mod Tests
