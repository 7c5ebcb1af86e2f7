-- ===== src/ValidChain.antt =====
-- `is_valid_chain_rust` of src/lib.rs.
pub mod Sound
pub mod Complete
pub mod Loop
pub mod Equivalent
use the_block.Prelude.{
  ℕ, ◌+◌, ◌%◌, ◌^◌, List, [], ◌∷◌, Bool, true, false, none, some, Text, Bytes, text_dec, key_dec,
  ◌==◌,
}
use the_block.Prelude.Word.{add64, add128, try_u64}
use the_block.Prelude.Map
use the_block.Prelude.Map.{HashMap}
use the_block.Prelude.Result.{Result, ok, err, ◌>>=◌, ◌>>◌}
use the_block.Transaction.{Crypto, SignedTransaction, id, verify_signed_tx}
use the_block.Hashlayout.{zero_hash}
use the_block.Ledger.{Block}
use the_block.Ledger.Action.{PyError}
use the_block.Mempool.{key}
use the_block.Rewards.{fee_checksum}
use the_block.Apply.{zero_address}
use the_block.Check.{Check, Stop, reject, require, verdict, same, fees_of, HashSet, insert_new}
use the_block.Validate.{coinbase_ok, coinbase_amounts_ok, proof_ok, covers}

module _ (crypto : Crypto) where
  -- The loop over the transactions of one block: signatures, nonces, ids and fees. A sender may
  -- start at any nonce.
  unfoldable pub tx_loop :
      HashMap Text ℕ
      → HashSet (Text × ℕ)
      → HashSet Bytes
      → ℕ
      → ℕ
      → List SignedTransaction
      → Check (ℕ × ℕ)
  tx_loop expected seen_nonce seen c i [] = ok (c, i)
  tx_loop expected seen_nonce seen c i (tx ∷ txs) =
      let a = tx.payload.from_ in
      let next = Map.entry_or text_dec a tx.payload.nonce expected in
      let finish = λ (expected' : HashMap Text ℕ) (seen_nonce' : HashSet (Text × ℕ)).
        insert_new text_dec (id crypto tx) seen >>= λ seen'.
        fees_of tx >>= λ r. tx_loop expected' seen_nonce' seen' (add128 c r.0) (add128 i r.1) txs in
      elim (same a zero_address) [
        | true ↦ finish expected seen_nonce
        | false ↦ do
          require (verify_signed_tx crypto tx)
          require (tx.payload.nonce == next)
          seen_nonce' ← insert_new key_dec (key tx) seen_nonce
          finish (Map.insert text_dec a (add64 next 1) expected) seen_nonce'
      ]

  -- `u64::try_from`, where a failure is `return false`.
  abbrev pub or_reject : ℕ → Check ℕ
  or_reject n = elim (try_u64 n) [ none ↦ err reject | some v ↦ ok v ]

  -- One block of the chain, after the block with hash `prev`.
  unfoldable pub check_chain_block : ℕ → Text → Block → Check (Unit {0})
  check_chain_block difficulty prev b = do
    require (same b.previous_hash prev)
    require (b.difficulty == difficulty)
    txs ← coinbase_ok b b.transactions
    require (coinbase_amounts_ok b b.transactions)
    proof_ok crypto difficulty b
    sums ← tx_loop [] [] [] 0 0 txs
    fc ← or_reject sums.0
    fi ← or_reject sums.1
    require (same (fee_checksum crypto fc fi) b.fee_checksum)
    require (covers b sums.0 sums.1)

  -- The loop over the chain, with the hash of the block before.
  unfoldable pub chain_loop : ℕ → Text → List Block → Check (Unit {0})
  chain_loop difficulty prev [] = ok tt
  chain_loop difficulty prev (b ∷ bs) = do
    check_chain_block difficulty prev b
    chain_loop difficulty b.hash bs

  unfoldable pub is_valid_chain : List Block → ℕ → Result PyError Bool
  unfolding chain_loop
  is_valid_chain chain difficulty = verdict (chain_loop difficulty zero_hash chain)
