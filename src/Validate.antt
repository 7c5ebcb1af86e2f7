-- ===== src/Validate.antt =====
-- `validate_block` of src/lib.rs.
pub mod Sound
pub mod Safe
pub mod Distinct
pub mod Counts
pub mod Complete
pub mod Equivalent
use the_block.Prelude.{
  ℕ, zero, suc, ◌+◌, ◌-◌, ◌%◌, ◌^◌, List, [], ◌∷◌, Option, none, some, Bool, true, false, ◌&&◌, not,
  Text, Bytes, text_dec, key_dec, get_elem?, ltb, leb, ◌==◌, if◌then◌else◌,
}
use the_block.Prelude.Word.{add64, add128, saturating_sub, try_u64}
use the_block.Prelude.Map
use the_block.Prelude.Map.{HashMap}
use the_block.Prelude.Result.{Result, ok, err, ◌>>=◌, ◌>>◌}
use the_block.Transaction.{Crypto, SignedTransaction, id}
use the_block.Hashlayout.{zero_hash, calculate_hash}
use the_block.Pow.{hex_to_bytes, leading_zero_bits}
use the_block.Ledger.{Account, Block, Blockchain}
use the_block.Ledger.Action.{PyError, missing_previous_block, fee_overflow, panic}
use the_block.Mempool.{key}
use the_block.Rewards.{fee_checksum}
use the_block.Apply.{zero_address}
use the_block.Check.{
  Check, Stop, reject, raised, require, or_raised, verdict, same, fees_of, HashSet, insert_new,
}

-- The hash that a block must point to, by its own index.
unfoldable pub expected_prev : List Block → ℕ → Check Text
expected_prev chain zero = ok zero_hash
expected_prev chain (suc i) = elim (get_elem? chain i) [
  | none ↦ err (raised missing_previous_block)
  | some b ↦ ok b.hash
]

-- The first transaction is a coinbase with the amounts of the header.
unfoldable pub coinbase_ok : Block → List SignedTransaction → Check (List SignedTransaction)
coinbase_ok b [] = err reject
coinbase_ok b (cb ∷ txs) = if same cb.payload.from_ zero_address then ok txs else err reject

unfoldable pub coinbase_amounts_ok : Block → List SignedTransaction → Bool
coinbase_amounts_ok b [] = false
coinbase_amounts_ok b (cb ∷ txs) =
    (cb.payload.amount_consumer == b.coinbase_consumer)
    && (cb.payload.amount_industrial == b.coinbase_industrial)

-- `*counts.entry(..).or_insert(0) += 1`, unless the sender is the zero address.
abbrev pub counted : HashMap Text ℕ → SignedTransaction → HashMap Text ℕ
counted counts tx =
    let a = tx.payload.from_ in
    if same a zero_address
    then counts
    else Map.insert text_dec a (add64 (Map.entry_or text_dec a 0 counts) 1) counts

-- The first loop: transactions by sender, and the fees.
unfoldable pub count_loop :
    HashMap Text ℕ → ℕ → ℕ → List SignedTransaction → Check (HashMap Text ℕ × ℕ × ℕ)
count_loop counts c i [] = ok (counts, c, i)
count_loop counts c i (tx ∷ txs) = elim (fees_of tx) [
  | ok r ↦ count_loop (counted counts tx) (add128 c r.0) (add128 i r.1) txs
  | err e ↦ err e
]

-- The nonce from which each sender of the block counts.
unfoldable pub expect_loop : HashMap Text Account → HashMap Text ℕ → HashMap Text ℕ → HashMap Text ℕ
expect_loop accounts [] expected = expected
expect_loop accounts ((a, count) ∷ counts) expected =
    let nonce : ℕ = elim (Map.get text_dec a accounts) [ none ↦ 0 | some acc ↦ acc.nonce ] in
    expect_loop accounts counts (Map.insert text_dec a (saturating_sub nonce count) expected)

-- The coinbase covers the fees.
abbrev pub covers : Block → ℕ → ℕ → Bool
covers b c i = leb c b.coinbase_consumer && leb i b.coinbase_industrial

module _ (crypto : Crypto) where
  -- The second loop: nonces go up by one for each sender, and no id comes twice.
  unfoldable pub nonce_loop :
      HashMap Text ℕ
      → HashSet (Text × ℕ)
      → HashSet Bytes
      → List SignedTransaction
      → Check (Unit {0})
  nonce_loop expected seen_nonce seen [] = ok tt
  nonce_loop expected seen_nonce seen (tx ∷ txs) =
      let a = tx.payload.from_ in
      let next = add64 (Map.entry_or text_dec a 0 expected) 1 in
      elim (same a zero_address) [
        | true ↦ elim (insert_new text_dec (id crypto tx) seen) [
          | err e ↦ err e
          | ok seen' ↦ nonce_loop expected seen_nonce seen' txs
        ]
        | false ↦ elim (tx.payload.nonce == next) [
          | false ↦ err reject
          | true ↦ elim (insert_new key_dec (key tx) seen_nonce) [
            | err e ↦ err e
            | ok seen_nonce' ↦ elim (insert_new text_dec (id crypto tx) seen) [
              | err e ↦ err e
              | ok seen' ↦ nonce_loop (Map.insert text_dec a next expected) seen_nonce' seen' txs
            ]
          ]
        ]
      ]

  -- The hash of a block, from its own fields.
  abbrev pub block_hash : Block → Text
  block_hash b =
      calculate_hash crypto b.index b.previous_hash b.nonce b.difficulty b.coinbase_consumer
        b.coinbase_industrial b.fee_checksum b.transactions

  -- The header is what it says, and its hash meets the difficulty.
  unfoldable pub proof_ok : ℕ → Block → Check (Unit {0})
  proof_ok difficulty b = do
    require (same (block_hash b) b.hash)
    bytes ← or_raised (hex_to_bytes crypto b.hash) panic
    require (leb (difficulty % 2 ^ 32) (leading_zero_bits bytes))

  unfoldable pub check_block : Blockchain → Block → Check (Unit {0})
  check_block s b = do
    prev ← expected_prev s.chain b.index
    require (same b.previous_hash prev)
    require (b.difficulty == s.difficulty)
    txs ← coinbase_ok b b.transactions
    proof_ok s.difficulty b
    require (coinbase_amounts_ok b b.transactions)
    counted ← count_loop [] 0 0 txs
    nonce_loop (expect_loop s.accounts counted.0 []) [] [] b.transactions
    fc ← or_raised (try_u64 counted.1) fee_overflow
    fi ← or_raised (try_u64 counted.2) fee_overflow
    require (same (fee_checksum crypto fc fi) b.fee_checksum)
    require (covers b counted.1 counted.2)

  unfoldable pub validate_block : Blockchain → Block → Result PyError Bool
  unfolding check_block
  validate_block s b = verdict (check_block s b)
