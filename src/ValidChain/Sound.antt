-- ===== src/ValidChain/Sound.antt =====
-- What a chain has that `is_valid_chain_rust` accepts.
use the_block.Prelude.{
  ℕ, ◌≤◌, ◌≡◌, refl, List, [], ◌∷◌, true, Text, Bytes, arith, All, inl, inr, ◌⊎◌, key_dec, text_dec,
}
use the_block.Prelude.Word.{add64, add128}
use the_block.Prelude.Map
use the_block.Prelude.Map.{HashMap}
use the_block.Prelude.Result.{ok, Result-cases}
use the_block.Fee.{decompose}
use the_block.Transaction.{Crypto, SignedTransaction, id, verify_signed_tx}
use the_block.Hashlayout.{zero_hash}
use the_block.Mempool.{key}
use the_block.Mempool.Reserve.{fees}
use the_block.Ledger.{Block}
use the_block.Rewards.{fee_checksum, fee_loop}
use the_block.Apply.{zero_address}
use the_block.Check.{reject, raised, verdict, HashSet, insert_new}
use the_block.Validate.{coinbase_ok, proof_ok}
use the_block.Validate.Sound.{
  HasProof, HasCoinbase, HasFee, proof_ok-HasProof, coinbase-HasCoinbase,
}
use the_block.ValidChain.{tx_loop, check_chain_block, chain_loop, is_valid_chain}

module _ (crypto : Crypto) where
  -- A transaction carries a signature, unless it claims to come from the zero address.
  abbrev pub IsSigned : SignedTransaction → Type 0
  IsSigned tx = (tx.payload.from_ ≡ zero_address) ⊎ (verify_signed_tx crypto tx ≡ true)

  -- One round of the loop that goes on.
  record IsRound (tx : SignedTransaction) (txs : List SignedTransaction) (c i : ℕ) (r : ℕ × ℕ)
      : Type 0 where
    fee : ℕ × ℕ
    split : decompose tx.payload.fee_selector tx.payload.fee ≡ ok fee
    signed : IsSigned tx
    expected : HashMap Text ℕ
    keys : HashSet (Text × ℕ)
    ids : HashSet Bytes
    rest : tx_loop crypto expected keys ids (add128 c fee.0) (add128 i fee.1) txs ≡ ok r

  tx-IsRound :
      (tx : SignedTransaction) (txs : List SignedTransaction) (expected : HashMap Text ℕ)
      (keys : HashSet (Text × ℕ)) (ids : HashSet Bytes) (c i : ℕ) {r : ℕ × ℕ}
      → tx_loop crypto expected keys ids c i (tx ∷ txs) ≡ ok r
      → IsRound tx txs c i r
  unfolding tx_loop
  tx-IsRound tx txs expected keys ids c i {r} h =
      elim (Result-cases (decompose tx.payload.fee_selector tx.payload.fee)) [
        | inr (e, bad) ↦ absurd (ground arith)
        | inl (f, good) ↦ elim (Result-cases (insert_new text_dec (id crypto tx) ids)) [
          | inr (e, old) ↦ absurd (ground arith)
          | inl (ids', new) ↦ elim (text_dec tx.payload.from_ zero_address) [
            | yes z ↦ record {
              fee = f;
              split = good;
              signed = inl z;
              expected = expected;
              keys = keys;
              ids = ids';
              rest = ground arith;
            }
            | no n ↦ elim (Result-cases (insert_new key_dec (key tx) keys)) [
              | inr (e, used) ↦ absurd (ground arith)
              | inl (keys', free) ↦ record {
                fee = f;
                split = good;
                signed = inr (ground arith);
                expected =
                    Map.insert text_dec tx.payload.from_
                      (add64 (Map.entry_or text_dec tx.payload.from_ tx.payload.nonce expected) 1)
                      expected;
                keys = keys';
                ids = ids';
                rest = ground arith;
              }
            ]
          ]
        ]
      ]

  pub tx_loop_sound :
      (txs : List SignedTransaction) (expected : HashMap Text ℕ) (keys : HashSet (Text × ℕ))
      (ids : HashSet Bytes) (c i : ℕ) {r : ℕ × ℕ}
      → tx_loop crypto expected keys ids c i txs ≡ ok r
      → All IsSigned txs × All HasFee txs × (fee_loop c i txs ≡ r)
  unfolding tx_loop fee_loop fees
  tx_loop_sound [] expected keys ids c i h = (tt, tt, ground arith)
  tx_loop_sound (tx ∷ txs) expected keys ids c i {r} h =
      let o = tx-IsRound tx txs expected keys ids c i h in
      let (signed, valid, sums) =
        tx_loop_sound txs o.expected o.keys o.ids (add128 c o.fee.0) (add128 i o.fee.1) o.rest in
      ((o.signed, signed), (ground (arith, o.split), valid), ground (arith, o.split))

  -- A block of a valid chain: it points to the block before, its header repeats its coinbase, its
  -- hash is its proof of work, its transactions are signed or come from the zero address, and its
  -- fees are valid, are those of the checksum, and are covered by the coinbase.
  pub record IsValidLink (difficulty : ℕ) (prev : Text) (b : Block) : Type 0 where
    pub linked : b.previous_hash ≡ prev
    pub difficulty_kept : b.difficulty ≡ difficulty
    pub txs : List SignedTransaction
    pub coinbase : HasCoinbase crypto b txs
    pub proof : HasProof crypto difficulty b
    pub signed : All IsSigned txs
    pub fees_valid : All HasFee txs
    pub covered :
        ((fee_loop 0 0 txs).0 ≤ b.coinbase_consumer)
        × ((fee_loop 0 0 txs).1 ≤ b.coinbase_industrial)
    pub checksum : b.fee_checksum ≡ fee_checksum crypto (fee_loop 0 0 txs).0 (fee_loop 0 0 txs).1

  pub check_chain_block_sound :
      (difficulty : ℕ) (prev : Text) (b : Block)
      → check_chain_block crypto difficulty prev b ≡ ok tt
      → IsValidLink difficulty prev b
  unfolding check_chain_block
  check_chain_block_sound difficulty prev b h = elim (Result-cases (coinbase_ok b b.transactions)) [
    | inr (e, q) ↦ absurd (ground arith)
    | inl (txs, q) ↦ elim (Result-cases (proof_ok crypto difficulty b)) [
      | inr (e, w) ↦ absurd (ground arith)
      | inl (tt, w) ↦ elim (Result-cases (tx_loop crypto [] [] [] 0 0 txs)) [
        | inr (e, k) ↦ absurd (ground arith)
        | inl (r, k) ↦
            let (signed, valid, sums) = tx_loop_sound txs [] [] [] 0 0 {r = r} k in
            record {
              linked = ground arith;
              difficulty_kept = ground arith;
              txs = txs;
              coinbase = coinbase-HasCoinbase crypto b b.transactions txs refl q (ground arith);
              proof = proof_ok-HasProof crypto difficulty b w;
              signed = signed;
              fees_valid = valid;
              covered = rw sums (ground arith);
              checksum = rw sums (ground arith);
            }
      ]
    ]
  ]

  -- Every block of a chain is valid after the block before it.
  abbrev pub AllLinked : ℕ → Text → List Block → Type 0
  AllLinked difficulty prev [] = Unit
  AllLinked difficulty prev (b ∷ bs) =
      IsValidLink difficulty prev b × AllLinked difficulty b.hash bs

  chain_loop-AllLinked :
      (difficulty : ℕ) (prev : Text) (bs : List Block)
      → chain_loop crypto difficulty prev bs ≡ ok tt
      → AllLinked difficulty prev bs
  unfolding chain_loop
  chain_loop-AllLinked difficulty prev [] h = tt
  chain_loop-AllLinked difficulty prev (b ∷ bs) h =
      elim (Result-cases (check_chain_block crypto difficulty prev b)) [
        | inr (e, bad) ↦ absurd (ground arith)
        | inl (tt, good) ↦ (
          check_chain_block_sound difficulty prev b good,
          chain_loop-AllLinked difficulty b.hash bs (ground arith),
        )
      ]

  -- `is_valid_chain_rust` accepts only chains of valid blocks, each pointing to the one before and
  -- the first to the zero hash.
  pub is_valid_chain_sound :
      (chain : List Block) (difficulty : ℕ)
      → is_valid_chain crypto chain difficulty ≡ ok true
      → AllLinked difficulty zero_hash chain
  unfolding is_valid_chain verdict
  is_valid_chain_sound chain difficulty h =
      elim (Result-cases (chain_loop crypto difficulty zero_hash chain)) [
        | inl (tt, good) ↦ chain_loop-AllLinked difficulty zero_hash chain good
        | inr (reject, bad) ↦ absurd (ground arith)
        | inr (raised e, bad) ↦ absurd (ground arith)
      ]
