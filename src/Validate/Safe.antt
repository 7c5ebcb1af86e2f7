-- ===== src/Validate/Safe.antt =====
-- `validate_block` cannot panic: it decodes a hash only after it has computed the same one.
use the_block.Prelude.{
  ℕ, ◌≡◌, ◌≢◌, List, [], ◌∷◌, some, Text, Bytes, arith, inl, inr, key_dec, text_dec,
}
use the_block.Prelude.Word.{add64, add128}
use the_block.Prelude.Map
use the_block.Prelude.Map.{HashMap}
use the_block.Prelude.Result.{err, Result-cases}
use the_block.Fee.{decompose}
use the_block.Transaction.{Crypto, SignedTransaction, id}
use the_block.Hashlayout.{hash}
use the_block.Pow.{hex_to_bytes}
use the_block.Mempool.{key}
use the_block.Ledger.{Block, Blockchain}
use the_block.Ledger.Action.{PyError, panic}
use the_block.Check.{Check, raised, verdict, HashSet, insert_new}
use the_block.Validate.{
  expected_prev, counted, coinbase_ok, count_loop, nonce_loop, expect_loop, proof_ok, block_hash,
  check_block, validate_block,
}
use the_block.Validate.Sound.{HexRoundTrips}

-- A check that stops, if at all, by refusing the block.
abbrev IsQuiet : {A : Type 0} → Check A → Type 0
IsQuiet c = (e : PyError) → c ≢ err (raised e)

count_loop-IsQuiet :
    (txs : List SignedTransaction) (counts : HashMap Text ℕ) (c i : ℕ)
    → IsQuiet (count_loop counts c i txs)
unfolding count_loop
count_loop-IsQuiet [] counts c i e h = cc
count_loop-IsQuiet (tx ∷ txs) counts c i e h =
    elim (Result-cases (decompose tx.payload.fee_selector tx.payload.fee)) [
      | inr (x, bad) ↦ absurd (ground arith)
      | inl (f, good) ↦
          count_loop-IsQuiet txs (counted counts tx) (add128 c f.0) (add128 i f.1) e (ground arith)
    ]

module _ (crypto : Crypto) where
  nonce_loop-IsQuiet :
      (txs : List SignedTransaction) (expected : HashMap Text ℕ) (keys : HashSet (Text × ℕ))
      (ids : HashSet Bytes)
      → IsQuiet (nonce_loop crypto expected keys ids txs)
  unfolding nonce_loop insert_new
  nonce_loop-IsQuiet [] expected keys ids e h = cc
  nonce_loop-IsQuiet (tx ∷ txs) expected keys ids e h =
      let a = tx.payload.from_ in
      let next = add64 (Map.entry_or text_dec a 0 expected) 1 in
      ground (
        arith,
        nonce_loop-IsQuiet txs expected keys (Map.insert text_dec (id crypto tx) tt ids) e,
        nonce_loop-IsQuiet txs (Map.insert text_dec a next expected)
            (Map.insert key_dec (key tx) tt keys) (Map.insert text_dec (id crypto tx) tt ids) e,
      )

  -- The hash of a block can be decoded.
  pub block_decodes :
      HexRoundTrips crypto
      → (b : Block) → (bytes : Bytes) × (hex_to_bytes crypto (block_hash crypto b) ≡ some bytes)
  unfolding hex_to_bytes hash the_block.Hashlayout.calculate_hash
  block_decodes hex b = (_, hex _)

  proof_ok-no-panic :
      HexRoundTrips crypto → (difficulty : ℕ) (b : Block) → IsQuiet (proof_ok crypto difficulty b)
  unfolding proof_ok
  proof_ok-no-panic hex difficulty b e h = let (bytes, d) = block_decodes hex b in ground (arith, d)

  -- If hex decoding reads back what hex encoding writes, `validate_block` never panics, on any
  -- block and in any state.
  pub validate_block_no_panic :
      HexRoundTrips crypto → (s : Blockchain) (b : Block) → validate_block crypto s b ≢ err panic
  unfolding validate_block check_block verdict expected_prev coinbase_ok
  validate_block_no_panic hex s b h = elim (Result-cases (coinbase_ok b b.transactions)) [
    | inr (e, q) ↦ absurd (ground (arith, proof_ok-no-panic hex s.difficulty b panic))
    | inl (txs, q) ↦ elim (Result-cases (count_loop [] 0 0 txs)) [
      | inr (e, k) ↦ absurd (
          ground (
            arith,
            proof_ok-no-panic hex s.difficulty b panic,
            count_loop-IsQuiet txs [] 0 0 panic,
          ))
      | inl (r, k) ↦ absurd (
          ground (
            arith,
            proof_ok-no-panic hex s.difficulty b panic,
            nonce_loop-IsQuiet b.transactions (expect_loop s.accounts r.0 []) [] [] panic,
          ))
    ]
  ]
