-- ===== src/Search/Total.antt =====
-- The proof-of-work loop ends within 2 ^ 64 rounds, and finds the first nonce that solves the block.
use the_block.Prelude.{
  ℕ, zero, suc, ◌+◌, ◌%◌, ◌^◌, ◌≤◌, ◌<◌, ◌≡◌, ◌≢◌, inl, inr, refl, none, some, Bool, true, false,
  Text, leb, arith, Bool-cases, Option-cases, dec_lt,
}
use the_block.Prelude.Result.{Result, ok}
use the_block.Transaction.{Crypto}
use the_block.Hashlayout.{calculate_hash}
use the_block.Pow.{hex_to_bytes, leading_zero_bits}
use the_block.Ledger.{Block}
use the_block.Ledger.Action.{PyError}
use the_block.Search.{rounds, search_nonce}

module _ (crypto : Crypto) where
  -- The hash of a block at a nonce.
  abbrev pub hash_at : Block → ℕ → Text
  hash_at b nonce =
      calculate_hash crypto b.index b.previous_hash nonce b.difficulty b.coinbase_consumer
        b.coinbase_industrial b.fee_checksum b.transactions

  -- A nonce meets the difficulty: its hash is hex and starts with enough zero bits.
  abbrev pub solves : Block → ℕ → Bool
  solves b nonce = elim (hex_to_bytes crypto (hash_at b nonce)) [
    | none ↦ false
    | some bytes ↦ leb (b.difficulty % 2 ^ 32) (leading_zero_bits bytes)
  ]

  search_ends :
      (b : Block) (fuel nonce : ℕ)
      → nonce + fuel ≡ 2 ^ 64
      → nonce < 2 ^ 64
      → search_nonce crypto b fuel nonce ≢ none
  unfolding search_nonce
  search_ends b zero nonce e lt = absurd (omega arith)
  search_ends b (suc fuel) nonce e lt = ground (arith, search_ends b fuel (nonce + 1))

  -- The search of `mine_block` never runs out of its 2 ^ 64 rounds: it finds a nonce or raises.
  pub search_nonce_total :
      (b : Block) → (r : Result PyError (ℕ × Text)) × (search_nonce crypto b rounds 0 ≡ some r)
  unfolding rounds
  search_nonce_total b = elim (Option-cases (search_nonce crypto b rounds 0)) [
    | inl out ↦ absurd (search_ends b rounds 0 refl (omega arith) out)
    | inr found ↦ found
  ]

  pub record IsFirst (b : Block) (start nonce : ℕ) (digest : Text) : Type 0 where
    pub hash : digest ≡ hash_at b nonce
    pub solved : solves b nonce ≡ true
    pub within : (start ≤ nonce) × (nonce < 2 ^ 64)
    pub first : (m : ℕ) → start ≤ m → m < nonce → solves b m ≡ false

  search-IsFirst :
      (b : Block) (fuel start nonce : ℕ) (hash : Text)
      → start < 2 ^ 64
      → search_nonce crypto b fuel start ≡ some (ok (nonce, hash))
      → IsFirst b start nonce hash
  unfolding search_nonce
  search-IsFirst b zero start nonce hash lt e = cc
  search-IsFirst b (suc fuel) start nonce hash lt e = elim (Bool-cases (solves b start)) [
    | inl yes_now ↦
        let n : start ≡ nonce = ground arith in
        record {
          hash = ground arith;
          solved = rw (← n) yes_now;
          within = omega arith;
          first = λ m lo hi. absurd (omega arith);
        }
    | inr not_now ↦
        let later = search-IsFirst b fuel (start + 1) nonce hash (ground arith) (ground arith) in
        record {
          hash = later.hash;
          solved = later.solved;
          within = omega (arith, later.within);
          first = λ m lo hi. elim (dec_lt start m) [
            | yes p ↦ later.first m (omega arith) hi
            | no p ↦ let s : start ≡ m = omega arith in rw (← s) not_now
          ];
        }
  ]

  -- What the search of `mine_block` returns is the first nonce of `u64` that meets the difficulty,
  -- with the hash of the block at that nonce.
  pub search_nonce-IsFirst :
      (b : Block) (nonce : ℕ) (hash : Text)
      → search_nonce crypto b rounds 0 ≡ some (ok (nonce, hash))
      → IsFirst b 0 nonce hash
  search_nonce-IsFirst b nonce hash e = search-IsFirst b rounds 0 nonce hash (omega arith) e
