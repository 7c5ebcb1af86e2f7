-- ===== src/Validate/Sound.antt =====
-- What a block has that `validate_block` accepts, and that the check cannot panic.
use the_block.Prelude.{
  ℕ, ◌%◌, ◌^◌, ◌≤◌, ◌≡◌, refl, List, [], ◌∷◌, some, true, Text, Bytes, arith, All, Option-cases,
  inl, inr,
}
use the_block.Prelude.Word.{add128}
use the_block.Prelude.Map.{HashMap}
use the_block.Prelude.Result.{ok, Result-cases}
use the_block.Fee.{decompose}
use the_block.Transaction.{Crypto, SignedTransaction}
use the_block.Pow.{hex_to_bytes, leading_zero_bits}
use the_block.Ledger.{Block, Blockchain}
use the_block.Mempool.Reserve.{fees}
use the_block.Rewards.{fee_checksum, fee_loop}
use the_block.Apply.{zero_address}
use the_block.Check.{verdict}
use the_block.Validate.{
  expected_prev, counted, coinbase_ok, coinbase_amounts_ok, count_loop, proof_ok, block_hash,
  check_block, validate_block,
}

-- `to_hex` writes what `hex::decode` reads.
abbrev pub HexRoundTrips : Crypto → Type 0
HexRoundTrips crypto = (b : Bytes) → crypto.hex_decode (crypto.to_hex b) ≡ some b

module _ (crypto : Crypto) where
  -- A proof of work: the hash is that of the fields, and it meets the difficulty.
  pub record HasProof (difficulty : ℕ) (b : Block) : Type 0 where
    pub hash : b.hash ≡ block_hash crypto b
    pub bytes : Bytes
    pub decodes : hex_to_bytes crypto b.hash ≡ some bytes
    pub work : difficulty % 2 ^ 32 ≤ leading_zero_bits bytes

  pub proof_ok-HasProof :
      (difficulty : ℕ) (b : Block) → proof_ok crypto difficulty b ≡ ok tt → HasProof difficulty b
  unfolding proof_ok
  proof_ok-HasProof difficulty b h = elim (Option-cases (hex_to_bytes crypto b.hash)) [
    | inl broken ↦ absurd (ground arith)
    | inr (bytes, decodes) ↦ record {
      hash = ground arith;
      bytes = bytes;
      decodes = decodes;
      work = ground arith;
    }
  ]

  -- A block begins with a coinbase whose amounts the header repeats.
  pub record HasCoinbase (b : Block) (txs : List SignedTransaction) : Type 0 where
    pub coinbase : SignedTransaction
    pub transactions : b.transactions ≡ coinbase ∷ txs
    pub sender : coinbase.payload.from_ ≡ zero_address
    pub consumer : coinbase.payload.amount_consumer ≡ b.coinbase_consumer
    pub industrial : coinbase.payload.amount_industrial ≡ b.coinbase_industrial

  pub coinbase-HasCoinbase :
      (b : Block) (all txs : List SignedTransaction)
      → b.transactions ≡ all
      → coinbase_ok b all ≡ ok txs
      → coinbase_amounts_ok b all ≡ true
      → HasCoinbase b txs
  unfolding coinbase_ok coinbase_amounts_ok
  coinbase-HasCoinbase b [] txs e h k = cc
  coinbase-HasCoinbase b (cb ∷ rest) txs e h k = record {
    coinbase = cb;
    transactions = ground arith;
    sender = ground arith;
    consumer = ground arith;
    industrial = ground arith;
  }

-- A transaction whose fee and selector are valid.
abbrev pub HasFee : SignedTransaction → Type 0
HasFee tx = decompose tx.payload.fee_selector tx.payload.fee ≡ ok (fees tx)

-- The first loop refuses a bad fee, and else sums as `fee_loop` does.
pub count_loop-fees :
    (txs : List SignedTransaction) (counts : HashMap Text ℕ) (c i : ℕ) {r : HashMap Text ℕ × ℕ × ℕ}
    → count_loop counts c i txs ≡ ok r
    → All HasFee txs × (fee_loop c i txs ≡ (r.1, r.2))
unfolding count_loop fee_loop fees
count_loop-fees [] counts c i h = (tt, ground arith)
count_loop-fees (tx ∷ txs) counts c i {r} h =
    elim (Result-cases (decompose tx.payload.fee_selector tx.payload.fee)) [
      | inr (e, bad) ↦ absurd (ground arith)
      | inl (f, good) ↦
          let (rest, sums) =
            count_loop-fees txs (counted counts tx) (add128 c f.0) (add128 i f.1) {r = r}
              (ground arith) in
          ((ground arith, rest), ground arith)
    ]

module _ (crypto : Crypto) where
  -- What an accepted block has: it points to the block before, its header repeats its coinbase, its
  -- hash is its proof of work, its fees are valid, are those of the checksum, and are covered.
  pub record IsValidBlock (s : Blockchain) (b : Block) : Type 0 where
    pub linked : expected_prev s.chain b.index ≡ ok b.previous_hash
    pub difficulty : b.difficulty ≡ s.difficulty
    pub txs : List SignedTransaction
    pub coinbase : HasCoinbase crypto b txs
    pub proof : HasProof crypto s.difficulty b
    pub fees_valid : All HasFee txs
    pub covered :
        ((fee_loop 0 0 txs).0 ≤ b.coinbase_consumer)
        × ((fee_loop 0 0 txs).1 ≤ b.coinbase_industrial)
    pub checksum : b.fee_checksum ≡ fee_checksum crypto (fee_loop 0 0 txs).0 (fee_loop 0 0 txs).1

  -- `validate_block` accepts only blocks that point to the block before, have the difficulty of
  -- the node, begin with a coinbase whose amounts the header repeats, have their proof of work as
  -- hash, and have valid fees that the checksum and the coinbase cover (`IsValidBlock`).
  pub validate_block_sound :
      (s : Blockchain) (b : Block) → validate_block crypto s b ≡ ok true → IsValidBlock s b
  unfolding validate_block check_block verdict
  validate_block_sound s b h = elim (Result-cases (expected_prev s.chain b.index)) [
    | inr (e, p) ↦ absurd (ground arith)
    | inl (prev, p) ↦ elim (Result-cases (coinbase_ok b b.transactions)) [
      | inr (e, q) ↦ absurd (ground arith)
      | inl (txs, q) ↦ elim (Result-cases (proof_ok crypto s.difficulty b)) [
        | inr (e, w) ↦ absurd (ground arith)
        | inl (tt, w) ↦ elim (Result-cases (count_loop [] 0 0 txs)) [
          | inr (e, k) ↦ absurd (ground arith)
          | inl (counted, k) ↦
              let (valid, sums) = count_loop-fees txs [] 0 0 {r = counted} k in
              record {
                linked = ground arith;
                difficulty = ground arith;
                txs = txs;
                coinbase = coinbase-HasCoinbase crypto b b.transactions txs refl q (ground arith);
                proof = proof_ok-HasProof crypto s.difficulty b w;
                fees_valid = valid;
                covered = rw sums (ground arith);
                checksum = rw sums (ground arith);
              }
        ]
      ]
    ]
  ]
