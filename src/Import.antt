-- ===== src/Import.antt =====
-- `import_chain` of src/lib.rs: the state is emptied and rebuilt block by block, and what was
-- written before an error stays.
pub mod Frame
pub mod Outcome
pub mod Genesis
use the_block.Prelude.{
  ℕ, ◌+◌, ◌%◌, ◌^◌, List, [], ◌∷◌, ◌++◌, Option, none, some, Bool, true, false, not, Text, Bytes,
  text_dec, length, leb, ◌==◌, ◌&&◌, if◌then◌else◌,
}
use the_block.Prelude.Word.{add64, add128, saturating_sub, try_u64}
use the_block.Prelude.Map
use the_block.Prelude.Map.{HashMap}
use the_block.Prelude.Result.{Result, ok, err}
use the_block.Transaction.{Crypto, SignedTransaction, signing_bytes, to_array_32, to_array_64}
use the_block.Ledger.{Account, Block, Blockchain}
use the_block.Ledger.Action.{
  Action, PyError, chain_not_longer, invalid_chain, invalid_pubkey, invalid_signature,
  bad_tx_signature, fee_overflow, checksum_mismatch, fee_mismatch, coinbase_mismatch, gets, pure,
  raise, or_raise, raise_if, modify, ◌>>=◌, ◌>>◌,
}
use the_block.Mempool.Reserve.{fees, total_c, total_i}
use the_block.Rewards.{
  initial_block_reward_consumer, initial_block_reward_industrial, decay, fee_checksum,
}
use the_block.Apply.{zero_address, receive, credit_miner}
use the_block.Mining.{or_error, skip_one}
use the_block.Check.{same}
use the_block.Validate.{coinbase_amounts_ok, covers}
use the_block.ValidChain.{is_valid_chain}

-- The debit of an imported transaction: unlike mining it leaves the pending fields alone.
abbrev pub import_debit : SignedTransaction → Account → Account
import_debit tx a = record a {
  balance = record {
    consumer = saturating_sub a.balance.consumer (total_c tx);
    industrial = saturating_sub a.balance.industrial (total_i tx);
  };
  nonce = tx.payload.nonce;
}

-- The first transaction's recipient.
abbrev pub miner_of : Block → Text
miner_of b = elim b.transactions [ [] ↦ [] | cb ∷ txs ↦ cb.payload.to ]

-- `if let Some(cb) = block.transactions.first()` and the test under it.
abbrev pub coinbase_differs : Block → Bool
coinbase_differs b = elim b.transactions [
  | [] ↦ false
  | cb ∷ txs ↦ not (coinbase_amounts_ok b b.transactions)
]

module _ (crypto : Crypto) where
  -- The signature of one transaction, with an error for each way to fail.
  unfoldable pub verify_or_raise : SignedTransaction → Action (Unit {0})
  verify_or_raise tx = do
    pk ← or_raise (to_array_32 tx.public_key) invalid_pubkey
    raise_if (not (crypto.key_ok pk)) invalid_pubkey
    sig ← or_raise (to_array_64 tx.signature) invalid_signature
    raise_if (not (crypto.verify pk (signing_bytes crypto tx.payload) sig)) bad_tx_signature

  -- The debit of the sender, if it has an account; returns the fees that were taken.
  unfoldable pub import_pay : SignedTransaction → Action (ℕ × ℕ)
  import_pay tx = do
    sender ← gets (λ s. Map.get text_dec tx.payload.from_ s.accounts)
    elim sender [
      | none ↦ pure (0, 0)
      | some a ↦ do
        modify (λ s. record s {
          accounts = Map.insert text_dec tx.payload.from_ (import_debit tx a) s.accounts;
        })
        pure (fees tx)
    ]

  unfoldable pub import_tx : SignedTransaction → Action (ℕ × ℕ)
  import_tx tx = do
    taken ← elim (same tx.payload.from_ zero_address) [
      | true ↦ pure (0, 0)
      | false ↦ do verify_or_raise tx; import_pay tx
    ]
    modify (λ s. record s { accounts = receive tx s.accounts })
    pure taken

  -- The loop over the transactions of a block, with the sums of the fees that were taken.
  unfoldable pub import_txs : ℕ → ℕ → List SignedTransaction → Action (ℕ × ℕ)
  import_txs c i [] = pure (c, i)
  import_txs c i (tx ∷ txs) = do
    taken ← import_tx tx
    import_txs (add128 c taken.0) (add128 i taken.1) txs

  unfoldable pub import_block : Block → Action (Unit {0})
  import_block b = do
    sums ← import_txs 0 0 (skip_one b.transactions)
    fc ← or_raise (try_u64 sums.0) fee_overflow
    fi ← or_raise (try_u64 sums.1) fee_overflow
    raise_if (not (same (fee_checksum crypto fc fi) b.fee_checksum)) checksum_mismatch
    raise_if (not (covers b sums.0 sums.1)) fee_mismatch
    credit_miner (miner_of b) b.coinbase_consumer b.coinbase_industrial
    raise_if (coinbase_differs b) coinbase_mismatch
    modify (λ s. record s {
      block_reward_consumer = decay s.block_reward_consumer;
      block_reward_industrial = decay s.block_reward_industrial;
      emission_consumer = add64 s.emission_consumer b.coinbase_consumer;
      emission_industrial = add64 s.emission_industrial b.coinbase_industrial;
      chain = s.chain ++ b ∷ [];
      block_height = add64 s.block_height 1;
    })

  unfoldable pub import_blocks : List Block → Action (Unit {0})
  import_blocks [] = pure tt
  import_blocks (b ∷ bs) = import_block b >> import_blocks bs

  -- `self.chain.clear()` and the resets after it. The mempool is left as it is.
  abbrev pub reset : Blockchain → Blockchain
  reset s = record s {
    chain = [];
    accounts = [];
    emission_consumer = 0;
    emission_industrial = 0;
    block_reward_consumer = initial_block_reward_consumer;
    block_reward_industrial = initial_block_reward_industrial;
    block_height = 0;
  }

  unfoldable pub import_chain : List Block → Action (Unit {0})
  import_chain new_chain = do
    s ← gets (λ s. s)
    raise_if (leb (length new_chain) (length s.chain)) chain_not_longer
    valid ← or_error (is_valid_chain crypto new_chain (s.difficulty % 2 ^ 32))
    raise_if (not valid) invalid_chain
    modify reset
    import_blocks new_chain
