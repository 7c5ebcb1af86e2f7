-- ===== src/Mining/Accepted.antt =====
-- The node accepts its own blocks: what `mine_block` puts on the chain passes `validate_block`.
use the_block.Prelude.{
  ◌+◌, ◌-◌, ◌^◌, ◌<◌, ◌≡◌, ◌≢◌, refl, ap, ◌∙◌, [], ◌∷◌, ◌++◌, none, true, Text, text_dec, key_dec,
  arith, All_mono, AllApart, length, inl, inr, Option-cases,
}
use the_block.Prelude.Result.{ok}
use the_block.Prelude.Map
use the_block.Prelude.Map.{HashMap, values, total}
use the_block.Transaction.{Crypto, id}
use the_block.Pow.{hex_to_bytes}
use the_block.Ledger.{Block, Blockchain}
use the_block.Mempool.{key}
use the_block.Mempool.Reserve.{of_sender, one}
use the_block.Store.{Codec}
use the_block.Order.{sort_pending}
use the_block.Order.Perm.{total-sort_pending, All-sort_pending}
use the_block.Order.Apart.{sort_pending-AllApart}
use the_block.Apply.{zero_address, apply_txs}
use the_block.Apply.Funded.{IsPayable}
use the_block.Search.Total.{IsFirst, search_nonce-IsFirst, hash_at}
use the_block.Validate.{expected_prev, validate_block}
use the_block.Validate.Sound.{HasCoinbase, HasProof, HasFee, IsValidBlock}
use the_block.Validate.Distinct.{nonces_of, count_up, AllDistinct}
use the_block.Validate.Counts.{nonce_of, count_of}
use the_block.Validate.Equivalent.{HasRange, IsAccepted, coinbase_aside, validate_block_iff}
use the_block.Mining.{Draft, coinbase, tip_hash, mine_block}
use the_block.Mining.Prepare.{IsPrepared, IsCommitted, miner_after, prepare_outcome, commit_outcome}
use the_block.Mining.Steps.{IsMining, mine_steps}
use the_block.Mining.Ready.{IsReady, length-sort_pending}
use the_block.Mining.Consecutive.{NoGaps, sorted_counts_up, count_is_total}
use the_block.Mining.Nonces.{nonce_of-insert_same, nonce_of-apply_txs}
use the_block.Mining.Supply
use the_block.Mining.Header.{
  HasHeader, prepare-HasHeader, expected_prev-append, persist_difficulty, miner_nonce,
}

-- What waits can go into a block: nonces without gaps, and numbers within 64 bits.
pub record IsOrderly (s : Blockchain) : Type 0 where
  pub gaps : NoGaps s.accounts (values s.mempool)
  pub nonces :
      (a : Text)
      → a ≢ zero_address
      → nonce_of s.accounts a + total (of_sender one a) (values s.mempool) < 2 ^ 64
  pub room : length (values s.mempool) + 1 < 2 ^ 64

module _ (crypto : Crypto) (codec : Codec) (miner_addr : Text) (s s' : Blockchain) (block : Block)
    (h : IsReady s) (o : IsOrderly s) (m : IsMining crypto codec miner_addr s s' block) where
  abbrev d : Draft
  d = m.draft

  p : IsPrepared miner_addr s m.prepared d
  p = prepare_outcome crypto miner_addr s m.prepares

  header : HasHeader crypto s d
  header = prepare-HasHeader crypto miner_addr s m.prepares

  c : IsCommitted miner_addr d m.nonce m.hash m.prepared m.committed block
  c = commit_outcome miner_addr d m.nonce m.hash m.prepared crypto m.commits

  first : IsFirst crypto d.block 0 m.nonce m.hash
  first = search_nonce-IsFirst crypto d.block m.nonce m.hash m.searches

  pub chain_is : s'.chain ≡ s.chain ++ block ∷ []
  chain_is = Supply.chain_is crypto codec miner_addr s s' block h m

  pub difficulty_is : s'.difficulty ≡ s.difficulty
  difficulty_is =
      ground
        (arith, persist_difficulty codec m.committed m.persists, c.after, c.credits.after, p.after)

  transactions_are :
      block.transactions
      ≡ coinbase miner_addr block.coinbase_consumer block.coinbase_industrial ∷ d.pending
  transactions_are = ground (arith, c.block_sealed, p.transactions)

  pub sorted_is :
      block.transactions
      ≡ coinbase miner_addr block.coinbase_consumer block.coinbase_industrial
        ∷ sort_pending (values s.mempool)
  sorted_is =
      transactions_are
      ∙ ap (λ q. coinbase miner_addr block.coinbase_consumer block.coinbase_industrial ∷ q)
          p.pending

  pub previous_is : block.previous_hash ≡ tip_hash s.chain
  previous_is = ground (arith, c.block_sealed, header.previous_hash)

  block-HasProof : HasProof crypto s'.difficulty block
  block-HasProof =
      rw (c.block_sealed, difficulty_is)
        (elim (Option-cases (hex_to_bytes crypto (hash_at crypto d.block m.nonce))) [
          | inl broken ↦ absurd (ground (arith, first.solved))
          | inr (bytes, decoded) ↦ record {
            hash = first.hash;
            bytes = bytes;
            decodes = ap (hex_to_bytes crypto) first.hash ∙ decoded;
            work = ground (arith, first.solved, header.difficulty);
          }
        ])

  block-HasCoinbase : HasCoinbase crypto block d.pending
  block-HasCoinbase = record {
    coinbase = coinbase miner_addr block.coinbase_consumer block.coinbase_industrial;
    transactions = transactions_are;
    sender = refl;
    consumer = refl;
    industrial = refl;
  }

  index_is : block.index ≡ length s.chain
  index_is = ground (arith, c.block_sealed, header.index)

  linked : expected_prev s'.chain block.index ≡ ok block.previous_hash
  linked =
      let at_end = expected_prev-append s.chain block in
      ap (λ q. expected_prev q block.index) chain_is
      ∙ ap (expected_prev (s.chain ++ block ∷ [])) index_is
      ∙ at_end
      ∙ ground (arith, c.block_sealed, header.previous_hash)

  block-IsValidBlock : IsValidBlock crypto s' block
  block-IsValidBlock = record {
    linked = linked;
    difficulty = ground (arith, c.block_sealed, header.difficulty, difficulty_is);
    txs = d.pending;
    coinbase = block-HasCoinbase;
    proof = block-HasProof;
    fees_valid = rw p.pending (
        All-sort_pending HasFee (values s.mempool) (
          Map.All-values key_dec HasFee s.mempool h.consistent.mempool.unique
            h.consistent.mempool.decomposes));
    covered = (
      ground (arith, c.block_sealed, p.coinbase_c),
      ground (arith, c.block_sealed, p.coinbase_i),
    );
    checksum = ground (arith, c.block_sealed, header.checksum);
  }

  pending_apart : AllApart key (values s.mempool)
  pending_apart =
      Map.AllApart-values key_dec key s.mempool h.consistent.mempool.unique
        h.consistent.mempool.keyed

  module _ (a : Text) (nz : a ≢ zero_address) where
    steps : nonces_of a d.pending ≡ count_up (count_of a d.pending) (nonce_of s.accounts a)
    steps =
        rw p.pending
          (sorted_counts_up s.accounts (values s.mempool) a pending_apart o.gaps (o.nonces a nz))

    pending_count : count_of a d.pending ≡ total (of_sender one a) (values s.mempool)
    pending_count =
        count_is_total a d.pending
        ∙ rw p.pending (total-sort_pending (of_sender one a) (values s.mempool))

    nonce_is : nonce_of s'.accounts a ≡ nonce_of s.accounts a + count_of a d.pending
    nonce_is =
        let mid = Supply.mid crypto codec miner_addr s s' block h m in
        let e : mid.accounts ≡ apply_txs d.pending s.accounts =
          ap (λ x. apply_txs d.pending x.accounts) p.after in
        ap (λ x. nonce_of x a) (Supply.accounts_are crypto codec miner_addr s s' block h m)
        ∙ nonce_of-insert_same a miner_addr
            (miner_after miner_addr d.block.coinbase_consumer d.block.coinbase_industrial mid)
            mid.accounts (miner_nonce miner_addr mid)
        ∙ ap (λ x. nonce_of x a) e
        ∙ nonce_of-apply_txs a d.pending s.accounts nz
            (rw p.pending (
              All-sort_pending _ (values s.mempool) (
                All_mono (IsPayable s.accounts)
                  (λ t. Map.get text_dec t.payload.from_ s.accounts ≢ none) (values s.mempool)
                  (λ t q. q.known) h.payable)))
            steps (omega (arith, pending_count, o.nonces a nz))

    pub mined_nonce :
        nonce_of s'.accounts a ≡ nonce_of s.accounts a + total (of_sender one a) (values s.mempool)
    mined_nonce = omega (arith, nonce_is, pending_count)

    ends :
        nonces_of a block.transactions
        ≡ count_up
            (count_of a block.transactions)
            (nonce_of s'.accounts a - count_of a block.transactions)
    ends =
        let aside : nonces_of a block.transactions ≡ nonces_of a d.pending =
          (coinbase_aside crypto block d.pending block-HasCoinbase).0 a nz in
        rw (aside) (steps ∙ ap (count_up (count_of a d.pending)) (omega (arith, nonce_is)))

  pub block-IsAccepted :
      AllDistinct crypto
        (coinbase miner_addr block.coinbase_consumer block.coinbase_industrial ∷ values s.mempool)
      → IsAccepted crypto s' block
  block-IsAccepted apart = record {
    valid = block-IsValidBlock;
    distinct =
        rw (transactions_are, p.pending)
          (
            All-sort_pending
                (λ t.
                  id crypto t
                  ≢ id crypto
                      (coinbase miner_addr block.coinbase_consumer block.coinbase_industrial))
                (values s.mempool) apart.0,
            sort_pending-AllApart (id crypto) (values s.mempool) apart.1,
          );
    counts = ends;
  }

  pub block-HasRange : HasRange s'.accounts block
  block-HasRange = record {
    nonces = λ a nz. omega (arith, nonce_is a nz, pending_count a nz, o.nonces a nz);
    transactions =
        rw (transactions_are, p.pending)
          (omega (arith, length-sort_pending (values s.mempool), o.room));
    consumer = ground (arith, c.block_sealed, c.credits.fits_c);
    industrial = ground (arith, c.block_sealed, c.credits.fits_i);
  }

-- The node accepts its own blocks. From a ready state (`IsReady`) in which the waiting transactions
-- leave no gap between the nonces of their senders and fit in 64 bits (`IsOrderly`), and in which
-- no two of them, nor one of them and the coinbase, have the same id: if `mine_block` succeeds,
-- then `validate_block` accepts the new block in the state after.
pub mined_block_accepted :
    (crypto : Crypto) (codec : Codec) (miner_addr : Text) (s s' : Blockchain) (block : Block)
    → IsReady s
    → IsOrderly s
    → AllDistinct crypto
        (coinbase miner_addr block.coinbase_consumer block.coinbase_industrial ∷ values s.mempool)
    → mine_block crypto codec miner_addr s ≡ (ok block, s')
    → validate_block crypto s' block ≡ ok true
mined_block_accepted crypto codec miner_addr s s' block h o apart e =
    let m = mine_steps crypto codec miner_addr s e in
    (validate_block_iff crypto s' block (block-HasRange crypto codec miner_addr s s' block h o m)).1
      (block-IsAccepted crypto codec miner_addr s s' block h o m apart)
