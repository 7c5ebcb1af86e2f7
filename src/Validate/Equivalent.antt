-- ===== src/Validate/Equivalent.antt =====
-- `validate_block` accepts exactly the blocks that a description without loops and maps calls
-- acceptable.
use the_block.Prelude.{
  ℕ, ◌-◌, ◌^◌, ◌<◌, ◌≤◌, ◌≡◌, ◌≢◌, refl, List, [], ◌∷◌, none, true, Text, arith, inl, inr, ◌⊎◌, ◌↔◌,
  text_dec, All, length, if_neg, sym, ◌∙◌, ap, Option-cases,
}
use the_block.Prelude.Result.{ok}
use the_block.Prelude.Map
use the_block.Prelude.Map.{HashMap}
use the_block.Transaction.{Crypto, SignedTransaction, id}
use the_block.Ledger.{Account, Block, Blockchain}
use the_block.Apply.{zero_address}
use the_block.Check.{verdict}
use the_block.Validate.{
  coinbase_ok, coinbase_amounts_ok, count_loop, nonce_loop, expect_loop, proof_ok, check_block,
  validate_block,
}
use the_block.Validate.Sound.{
  HasCoinbase, HasProof, IsValidBlock, validate_block_sound, count_loop-fees,
}
use the_block.Validate.Distinct.{nonces_of, count_up, AllDistinct, ids_apart, nonces_count}
use the_block.Validate.Counts.{
  nonce_of, count_of, count_of-le, count_loop-IsCounted, count_loop_total, expect_loop_entry,
  expect_loop-none,
}
use the_block.Validate.Complete.{CountsUp, nonce_loop_accepts}

-- The nonces of each sender end at the nonce of its account, and go up by one.
abbrev pub EndsAtNonce : HashMap Text Account → List SignedTransaction → Type 0
EndsAtNonce accounts txs =
    (a : Text)
    → a ≢ zero_address
    → nonces_of a txs ≡ count_up (count_of a txs) (nonce_of accounts a - count_of a txs)

-- The numbers are those of their types.
pub record HasRange (accounts : HashMap Text Account) (b : Block) : Type 0 where
  pub nonces : (a : Text) → a ≢ zero_address → nonce_of accounts a < 2 ^ 64
  pub transactions : length b.transactions < 2 ^ 64
  pub consumer : b.coinbase_consumer < 2 ^ 64
  pub industrial : b.coinbase_industrial < 2 ^ 64

-- Where a sender starts, as the first two loops find it.
module _ (a : Text) (accounts : HashMap Text Account) (txs : List SignedTransaction)
    {r : HashMap Text ℕ × ℕ × ℕ} (k : count_loop [] 0 0 txs ≡ ok r) (nz : a ≢ zero_address)
    (short : length txs < 2 ^ 64) where
  start_is :
      (Map.entry_or text_dec a 0 (expect_loop accounts r.0 [])
        ≡ nonce_of accounts a - count_of a txs)
      ⊎ ((Map.entry_or text_dec a 0 (expect_loop accounts r.0 []) ≡ 0) × (count_of a txs ≡ 0))
  unfolding Map.entry_or Map.get
  start_is =
      let c = count_loop-IsCounted txs [] 0 0 {r = r} k in
      let n : Map.entry_or text_dec a 0 r.0 ≡ count_of a txs =
        omega (arith, c.entry a nz (omega (arith, count_of-le a txs, short))) in
      elim (Option-cases (Map.get text_dec a r.0)) [
        | inl absent ↦ inr (
          expect_loop-none a accounts r.0 [] absent,
          sym n ∙ Map.entry_or-none text_dec a 0 r.0 absent,
        )
        | inr (j, found) ↦
            let e : j ≡ count_of a txs = sym (Map.entry_or-some text_dec a 0 j r.0 found) ∙ n in
            inl (rw (← e) (expect_loop_entry a j accounts r.0 [] (c.unique tt) found))
      ]

empty_counts : (xs : List ℕ) (start : ℕ) → length xs ≡ 0 → xs ≡ count_up (length xs) start
empty_counts [] start e = refl
empty_counts (x ∷ xs) start e = absurd (omega (arith, e))

-- The condition of the second loop, in terms of the accounts.
module _ (b : Block) (accounts : HashMap Text Account) (txs : List SignedTransaction)
    {r : HashMap Text ℕ × ℕ × ℕ} (k : count_loop [] 0 0 txs ≡ ok r) (range : HasRange accounts b)
    (rest : (a : Text) → a ≢ zero_address → nonces_of a b.transactions ≡ nonces_of a txs)
    (short : length txs ≤ length b.transactions) where
  abbrev start : HashMap Text ℕ
  start = expect_loop accounts r.0 []

  at_start :
      (a : Text)
      → a ≢ zero_address
      → EndsAtNonce accounts b.transactions
      → nonces_of a b.transactions
        ≡ count_up (count_of a b.transactions) (Map.entry_or text_dec a 0 start)
  at_start a nz h =
      elim (start_is a accounts txs {r = r} k nz (omega (arith, short, range.transactions))) [
        | inl e ↦ rw (e, ← rest a nz) (h a nz)
        | inr (z, none_) ↦
            empty_counts (nonces_of a b.transactions) (Map.entry_or text_dec a 0 start)
              (ap length (rest a nz) ∙ none_)
      ]

  start-CountsUp : EndsAtNonce accounts b.transactions → CountsUp start b.transactions
  start-CountsUp h = record {
    steps = λ a nz. at_start a nz h;
    fits = λ a nz.
        let same_count : count_of a b.transactions ≡ count_of a txs = ap length (rest a nz) in
        elim (start_is a accounts txs {r = r} k nz (omega (arith, short, range.transactions))) [
          | inl e ↦ omega (
            arith,
            e,
            same_count,
            range.nonces a nz,
            count_of-le a b.transactions,
            range.transactions,
          )
          | inr (z, none_) ↦ omega (arith, z, same_count, none_)
        ];
  }

  start-EndsAtNonce :
      ((a : Text)
        → a ≢ zero_address
        → nonces_of a b.transactions
          ≡ count_up (count_of a b.transactions) (Map.entry_or text_dec a 0 start))
      → EndsAtNonce accounts b.transactions
  start-EndsAtNonce h a nz =
      elim (start_is a accounts txs {r = r} k nz (omega (arith, short, range.transactions))) [
        | inl e ↦ h a nz ∙ ap (count_up (count_of a b.transactions)) (rw (rest a nz) e)
        | inr (z, none_) ↦
            empty_counts (nonces_of a b.transactions)
              (nonce_of accounts a - count_of a b.transactions) (ap length (rest a nz) ∙ none_)
      ]

module _ (crypto : Crypto) where
  pub proof_accepts :
      (difficulty : ℕ) (b : Block)
      → HasProof crypto difficulty b
      → proof_ok crypto difficulty b ≡ ok tt
  unfolding proof_ok
  proof_accepts difficulty b h = ground (arith, h.hash, h.decodes, h.work)

  pub coinbase_accepts :
      (b : Block) (txs all : List SignedTransaction)
      → b.transactions ≡ all
      → HasCoinbase crypto b txs
      → (coinbase_ok b all ≡ ok txs) × (coinbase_amounts_ok b all ≡ true)
  unfolding coinbase_ok coinbase_amounts_ok
  coinbase_accepts b txs [] e h = absurd (ground (arith, h.transactions))
  coinbase_accepts b txs (cb ∷ rest) e h = (
    ground (arith, h.transactions, h.sender),
    ground (arith, h.transactions, h.consumer, h.industrial),
  )

  -- The coinbase is from the zero address, which is not counted.
  pub coinbase_aside :
      (b : Block) (txs : List SignedTransaction)
      → HasCoinbase crypto b txs
      → ((a : Text) → a ≢ zero_address → nonces_of a b.transactions ≡ nonces_of a txs)
        × (length txs ≤ length b.transactions)
  coinbase_aside b txs h = rw h.transactions (
    (λ a nz. rw (if_neg (text_dec a h.coinbase.payload.from_) (λ p. nz (p ∙ h.sender))) refl),
    omega arith,
  )

  -- A description of the accepted blocks.
  pub record IsAccepted (s : Blockchain) (b : Block) : Type 0 where
    pub valid : IsValidBlock crypto s b
    pub distinct : AllDistinct crypto b.transactions
    pub counts : EndsAtNonce s.accounts b.transactions

  pub all_new :
      (txs : List SignedTransaction)
      → All (λ t. Map.get {V = Unit {0}} text_dec (id crypto t) [] ≡ none) txs
  unfolding Map.get
  all_new [] = tt
  all_new (tx ∷ txs) = (refl, all_new txs)

  accepted_runs :
      (s : Blockchain) (b : Block)
      → HasRange s.accounts b
      → IsAccepted s b
      → validate_block crypto s b ≡ ok true
  unfolding validate_block check_block verdict Map.get
  accepted_runs s b range h =
      let v = h.valid in
      let (r, k) = count_loop_total v.txs [] 0 0 v.fees_valid in
      let sums = (count_loop-fees v.txs [] 0 0 {r = r} k).1 in
      let aside = coinbase_aside b v.txs v.coinbase in
      let loop : nonce_loop crypto (expect_loop s.accounts r.0 []) [] [] b.transactions ≡ ok tt =
        nonce_loop_accepts crypto b.transactions (expect_loop s.accounts r.0 []) [] []
          (start-CountsUp b s.accounts v.txs {r = r} k range aside.0 aside.1 h.counts)
          (λ a n nz lt. refl) h.distinct (all_new b.transactions) in
      let first = coinbase_accepts b v.txs b.transactions refl v.coinbase in
      ground (
        arith,
        v.linked,
        v.difficulty,
        first,
        proof_accepts s.difficulty b v.proof,
        k,
        loop,
        sums,
        v.checksum,
        v.covered,
        range.consumer,
        range.industrial,
      )

  run-IsAccepted :
      (s : Blockchain) (b : Block)
      → HasRange s.accounts b
      → validate_block crypto s b ≡ ok true
      → IsAccepted s b
  unfolding validate_block check_block verdict
  run-IsAccepted s b range h =
      let v = validate_block_sound crypto s b h in
      let first = coinbase_accepts b v.txs b.transactions refl v.coinbase in
      let (r, k) = count_loop_total v.txs [] 0 0 v.fees_valid in
      let aside = coinbase_aside b v.txs v.coinbase in
      let loop : nonce_loop crypto (expect_loop s.accounts r.0 []) [] [] b.transactions ≡ ok tt =
        ground (arith, v.linked, v.difficulty, first, proof_accepts s.difficulty b v.proof, k) in
      record {
        valid = v;
        distinct = (ids_apart crypto b.transactions (expect_loop s.accounts r.0 []) [] [] loop).0;
        counts = start-EndsAtNonce b s.accounts v.txs {r = r} k range aside.0 aside.1 (λ a nz.
            nonces_count crypto a b.transactions (expect_loop s.accounts r.0 []) [] [] nz loop);
      }

  -- For a block and accounts whose numbers are within 64 bits, `validate_block` accepts exactly the
  -- blocks that `IsAccepted` describes: linked, with the node's difficulty, their coinbase, proof of
  -- work, fees and checksum as `IsValidBlock` says, with distinct ids, and such that the nonces of
  -- each sender go up by one and end at the nonce of its account (or start at 1, if the account's
  -- nonce is below their number).
  pub validate_block_iff :
      (s : Blockchain) (b : Block)
      → HasRange s.accounts b
      → (validate_block crypto s b ≡ ok true) ↔ IsAccepted s b
  validate_block_iff s b range = (run-IsAccepted s b range, accepted_runs s b range)
