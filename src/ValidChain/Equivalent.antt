-- ===== src/ValidChain/Equivalent.antt =====
-- `is_valid_chain_rust` accepts exactly the chains that a description without loops and maps calls
-- valid.
use the_block.Prelude.{
  ℕ, ◌+◌, ◌^◌, ◌<◌, ◌≡◌, ◌≢◌, ◌↔◌, refl, ap, List, [], ◌∷◌, none, true, Text, arith, inl, inr, All,
}
use the_block.Prelude.Result.{ok, Result-cases}
use the_block.Prelude.Map
use the_block.Prelude.Map.{HashMap}
use the_block.Transaction.{Crypto, SignedTransaction}
use the_block.Hashlayout.{zero_hash}
use the_block.Ledger.{Block}
use the_block.Apply.{zero_address}
use the_block.Check.{reject, raised, verdict}
use the_block.Validate.Distinct.{nonces_of, AllDistinct}
use the_block.Validate.Equivalent.{proof_accepts, coinbase_accepts, all_new}
use the_block.ValidChain.{tx_loop, check_chain_block, chain_loop, is_valid_chain}
use the_block.ValidChain.Sound.{IsValidLink, check_chain_block_sound}
use the_block.ValidChain.Complete.{Follows, tx_loop_accepts}
use the_block.ValidChain.Loop.{loop_apart, loop-Follows}

-- The numbers of a block are those of their types, and no nonce is the last of `u64`.
pub record IsInRange (b : Block) : Type 0 where
  pub consumer : b.coinbase_consumer < 2 ^ 64
  pub industrial : b.coinbase_industrial < 2 ^ 64
  pub nonces : All (λ t. t.payload.nonce + 1 < 2 ^ 64) b.transactions

module _ (crypto : Crypto) where
  -- A block of a valid chain: a link (`IsValidLink`) whose transactions have distinct ids, and in
  -- which the nonces of each sender go up by one from its first.
  pub record IsEntry (difficulty : ℕ) (prev : Text) (b : Block) : Type 0 where
    pub link : IsValidLink crypto difficulty prev b
    pub distinct : AllDistinct crypto link.txs
    pub counts : (a : Text) → a ≢ zero_address → Follows none (nonces_of a link.txs)

  tail_nonces :
      (b : Block) (cb : SignedTransaction) (txs : List SignedTransaction)
      → b.transactions ≡ cb ∷ txs
      → All (λ t. t.payload.nonce + 1 < 2 ^ 64) b.transactions
      → All (λ t. t.payload.nonce + 1 < 2 ^ 64) txs
  tail_nonces b cb txs e h = (rw e at h).1

  pub entry_accepted :
      (difficulty : ℕ) (prev : Text) (b : Block)
      → IsInRange b
      → IsEntry difficulty prev b
      → check_chain_block crypto difficulty prev b ≡ ok tt
  unfolding check_chain_block Map.get
  entry_accepted difficulty prev b range h =
      let l = h.link in
      let first = coinbase_accepts crypto b l.txs b.transactions refl l.coinbase in
      let loop =
        tx_loop_accepts crypto l.txs [] [] [] 0 0
          (record { follows = h.counts; unused = λ a n z e. refl; free = λ a n e z g le. refl })
          (tail_nonces b l.coinbase.coinbase l.txs l.coinbase.transactions range.nonces) l.signed
          l.fees_valid h.distinct (all_new crypto l.txs) in
      ground (
        arith,
        l.linked,
        l.difficulty_kept,
        first,
        proof_accepts crypto difficulty b l.proof,
        loop,
        l.checksum,
        l.covered,
        range.consumer,
        range.industrial,
      )

  accepted-IsEntry :
      (difficulty : ℕ) (prev : Text) (b : Block)
      → check_chain_block crypto difficulty prev b ≡ ok tt
      → IsEntry difficulty prev b
  unfolding check_chain_block Map.get
  accepted-IsEntry difficulty prev b h =
      let l = check_chain_block_sound crypto difficulty prev b h in
      let first = coinbase_accepts crypto b l.txs b.transactions refl l.coinbase in
      elim (Result-cases (tx_loop crypto [] [] [] 0 0 l.txs)) [
        | inr (e, k) ↦ absurd (
            ground (
              arith,
              l.linked,
              l.difficulty_kept,
              first,
              proof_accepts crypto difficulty b l.proof,
              k,
            ))
        | inl (r, k) ↦ record {
          link = l;
          distinct = (loop_apart crypto l.txs [] [] [] 0 0 {r = r} k).0;
          counts = λ a nz. loop-Follows crypto a l.txs [] [] [] 0 0 {r = r} nz k;
        }
      ]

  -- Every block of a chain is an entry after the block before it.
  abbrev pub AllEntries : ℕ → Text → List Block → Type 0
  AllEntries difficulty prev [] = Unit
  AllEntries difficulty prev (b ∷ bs) = IsEntry difficulty prev b × AllEntries difficulty b.hash bs

  pub entries_accepted :
      (difficulty : ℕ) (prev : Text) (bs : List Block)
      → All IsInRange bs
      → AllEntries difficulty prev bs
      → chain_loop crypto difficulty prev bs ≡ ok tt
  unfolding chain_loop
  entries_accepted difficulty prev [] range h = refl
  entries_accepted difficulty prev (b ∷ bs) range h = ground (
    arith,
    entry_accepted difficulty prev b range.0 h.0,
    entries_accepted difficulty b.hash bs range.1 h.1,
  )

  pub chain_loop-AllEntries :
      (difficulty : ℕ) (prev : Text) (bs : List Block)
      → chain_loop crypto difficulty prev bs ≡ ok tt
      → AllEntries difficulty prev bs
  unfolding chain_loop
  chain_loop-AllEntries difficulty prev [] h = tt
  chain_loop-AllEntries difficulty prev (b ∷ bs) h =
      elim (Result-cases (check_chain_block crypto difficulty prev b)) [
        | inr (e, bad) ↦ absurd (ground arith)
        | inl (tt, good) ↦ (
          accepted-IsEntry difficulty prev b good,
          chain_loop-AllEntries difficulty b.hash bs (ground arith),
        )
      ]

  -- For a chain whose numbers are within their types and whose nonces are below the last of `u64`,
  -- `is_valid_chain_rust` accepts exactly the chains in which every block is an entry after the block
  -- before, and the first after the zero hash (`IsEntry`: linked, with its coinbase, proof of work,
  -- signatures, fees and checksum as `IsValidLink` says, distinct ids, and nonces of each sender that
  -- go up by one from its first).
  pub is_valid_chain_iff :
      (chain : List Block) (difficulty : ℕ)
      → All IsInRange chain
      → (is_valid_chain crypto chain difficulty ≡ ok true) ↔ AllEntries difficulty zero_hash chain
  unfolding is_valid_chain verdict
  is_valid_chain_iff chain difficulty range = (
    (λ h. elim (Result-cases (chain_loop crypto difficulty zero_hash chain)) [
      | inl (tt, good) ↦ chain_loop-AllEntries difficulty zero_hash chain good
      | inr (reject, bad) ↦ absurd (ground arith)
      | inr (raised e, bad) ↦ absurd (ground arith)
    ]),
    (λ h. ap verdict (entries_accepted difficulty zero_hash chain range h)),
  )
