-- ===== src/Mining/Supply.antt =====
-- Supply neutrality (INV-FEE-01 of CONSENSUS.md) and the supply cap over a mined block.
use the_block.Prelude.{
  ℕ, ◌+◌, ◌≤◌, ◌≡◌, [], ◌∷◌, ◌++◌, Text, text_dec, key_dec, arith, ap, ◌∙◌, some,
}
use the_block.Prelude.Word.{add64}
use the_block.Prelude.Result.{ok}
use the_block.Prelude.Map
use the_block.Prelude.Map.{values, total}
use the_block.Transaction.{Crypto, SignedTransaction}
use the_block.Ledger.{Account, Block, Blockchain}
use the_block.Mempool.Reserve.{IsConsistent}
use the_block.Store.{Codec, persist_chain}
use the_block.Rewards.{max_supply_consumer, max_supply_industrial, decay, fee_loop}
use the_block.Rewards.Laws.{fee_c, fee_i, fee_loop-total, cap_reward_bounds}
use the_block.Order.Perm.{All-sort_pending}
use the_block.Apply.Funded.{supply_c, supply_i, IsPayable, IsFunded}
use the_block.Apply.Supply.{apply_txs_burns_fees}
use the_block.Mining.{Draft, skip_one, mine_block}
use the_block.Mining.Prepare.{
  IsPrepared, IsCommitted, prepare_outcome, commit_outcome, miner_after, applied,
}
use the_block.Mining.Credit.{remove_txs-empty, supply_c-credit, supply_i-credit, credit-AllReserved}
use the_block.Mining.Steps.{IsMining, mine_steps}
use the_block.Mining.Ready.{IsReady, funded, length-sort_pending}

-- What a mined block has done to the money: all accounts together hold more by exactly what was
-- emitted, so fees only change hands, and no more was emitted than the cap.
pub record IsNeutral (s s' : Blockchain) : Type 0 where
  pub supply_consumer :
      supply_c s'.accounts + s.emission_consumer ≡ supply_c s.accounts + s'.emission_consumer
  pub supply_industrial :
      supply_i s'.accounts + s.emission_industrial ≡ supply_i s.accounts + s'.emission_industrial
  pub cap_c : s'.emission_consumer ≤ max_supply_consumer
  pub cap_i : s'.emission_industrial ≤ max_supply_industrial
  pub grows_c : s.emission_consumer ≤ s'.emission_consumer
  pub grows_i : s.emission_industrial ≤ s'.emission_industrial

get-empty :
    (k : Text × ℕ) (tx : SignedTransaction)
    → Map.get {V = SignedTransaction} key_dec k [] ≡ some tx
    → ⊥
unfolding Map.get
get-empty k tx e = cc

persist_outcome :
    (codec : Codec) (s : Blockchain) {s' : Blockchain}
    → persist_chain codec s ≡ (ok tt, s')
    → (s'.accounts ≡ s.accounts)
      × (s'.mempool ≡ s.mempool)
      × (s'.chain ≡ s.chain)
      × (s'.emission_consumer ≡ s.emission_consumer)
      × (s'.emission_industrial ≡ s.emission_industrial)
unfolding persist_chain
persist_outcome codec s h = ground arith

module _ (crypto : Crypto) (codec : Codec) (miner_addr : Text) (s s' : Blockchain) (block : Block)
    (h : IsReady s) (m : IsMining crypto codec miner_addr s s' block) where
  abbrev pub d : Draft
  d = m.draft

  p : IsPrepared miner_addr s m.prepared d
  p = prepare_outcome crypto miner_addr s m.prepares

  c : IsCommitted miner_addr d m.nonce m.hash m.prepared m.committed block
  c = commit_outcome miner_addr d m.nonce m.hash m.prepared crypto m.commits

  abbrev pub mid : Blockchain
  mid = applied d m.nonce m.hash m.prepared

  -- The transactions, applied to the accounts of the start.
  burned :
      (supply_c mid.accounts + total fee_c d.pending ≡ supply_c s.accounts)
      × (supply_i mid.accounts + total fee_i d.pending ≡ supply_i s.accounts)
      × IsFunded mid.accounts []
  burned = rw p.after (
      apply_txs_burns_fees d.pending s.accounts
        (rw p.pending (All-sort_pending (IsPayable s.accounts) (values s.mempool) h.payable))
        (funded s d.pending h p.pending))

  fee_sums : fee_loop 0 0 d.pending ≡ (total fee_c d.pending, total fee_i d.pending)
  fee_sums =
      fee_loop-total d.pending (rw (p.pending, length-sort_pending (values s.mempool)) h.room)

  abbrev pub last : Map.HashMap Text Account
  last =
      Map.insert text_dec miner_addr
        (miner_after miner_addr d.block.coinbase_consumer d.block.coinbase_industrial mid)
        mid.accounts

  w :
      (s'.accounts ≡ m.committed.accounts)
      × (s'.mempool ≡ m.committed.mempool)
      × (s'.chain ≡ m.committed.chain)
      × (s'.emission_consumer ≡ m.committed.emission_consumer)
      × (s'.emission_industrial ≡ m.committed.emission_industrial)
  w = persist_outcome codec m.committed m.persists

  pub accounts_are : s'.accounts ≡ last
  accounts_are = ground (arith, w, c.after, c.credits.after)

  pub mempool_is : s'.mempool ≡ []
  mempool_is = ground (arith, w, c.after, c.credits.after, p.after, remove_txs-empty d.pending)

  pub chain_is : s'.chain ≡ s.chain ++ block ∷ []
  chain_is = ground (arith, w, c.after, c.credits.after, p.after, c.block_sealed)

  emission_c_is : s'.emission_consumer ≡ add64 s.emission_consumer d.reward_c
  emission_c_is = ground (arith, w, c.after, c.credits.after, p.after)

  emission_i_is : s'.emission_industrial ≡ add64 s.emission_industrial d.reward_i
  emission_i_is = ground (arith, w, c.after, c.credits.after, p.after)

  neutral : IsNeutral s s'
  neutral =
      let bc =
        cap_reward_bounds max_supply_consumer s.emission_consumer (decay s.block_reward_consumer)
          h.emitted_c h.reward_c in
      let bi =
        cap_reward_bounds max_supply_industrial s.emission_industrial
          (decay s.block_reward_industrial) h.emitted_i h.reward_i in
      let sc : supply_c s'.accounts ≡ supply_c mid.accounts + d.block.coinbase_consumer =
        ap supply_c accounts_are
        ∙ supply_c-credit miner_addr d.block.coinbase_consumer d.block.coinbase_industrial mid in
      let si : supply_i s'.accounts ≡ supply_i mid.accounts + d.block.coinbase_industrial =
        ap supply_i accounts_are
        ∙ supply_i-credit miner_addr d.block.coinbase_consumer d.block.coinbase_industrial mid in
      let fc : d.block.coinbase_consumer ≡ d.reward_c + total fee_c d.pending =
        p.coinbase_c ∙ ap (λ q. d.reward_c + q.0) fee_sums in
      let fi : d.block.coinbase_industrial ≡ d.reward_i + total fee_i d.pending =
        p.coinbase_i ∙ ap (λ q. d.reward_i + q.1) fee_sums in
      record {
        supply_consumer = omega (arith, bc, sc, fc, burned, emission_c_is, p.reward_c, h.reward_c);
        supply_industrial =
            omega (arith, bi, si, fi, burned, emission_i_is, p.reward_i, h.reward_i);
        cap_c = omega (arith, bc, emission_c_is, p.reward_c, h.reward_c);
        cap_i = omega (arith, bi, emission_i_is, p.reward_i, h.reward_i);
        grows_c = omega (arith, bc, emission_c_is, p.reward_c, h.reward_c);
        grows_i = omega (arith, bi, emission_i_is, p.reward_i, h.reward_i);
      }

  skip_is : skip_one block.transactions ≡ d.pending
  skip_is = ground (arith, c.block_sealed, p.transactions)

  coinbase_is :
      (block.coinbase_consumer + s.emission_consumer
        ≡ s'.emission_consumer + total fee_c (skip_one block.transactions))
      × (block.coinbase_industrial + s.emission_industrial
          ≡ s'.emission_industrial + total fee_i (skip_one block.transactions))
  coinbase_is =
      let bc =
        cap_reward_bounds max_supply_consumer s.emission_consumer (decay s.block_reward_consumer)
          h.emitted_c h.reward_c in
      let bi =
        cap_reward_bounds max_supply_industrial s.emission_industrial
          (decay s.block_reward_industrial) h.emitted_i h.reward_i in
      let fc : d.block.coinbase_consumer ≡ d.reward_c + total fee_c d.pending =
        p.coinbase_c ∙ ap (λ q. d.reward_c + q.0) fee_sums in
      let fi : d.block.coinbase_industrial ≡ d.reward_i + total fee_i d.pending =
        p.coinbase_i ∙ ap (λ q. d.reward_i + q.1) fee_sums in
      let sc : block.coinbase_consumer ≡ d.block.coinbase_consumer =
        ap (λ b. b.coinbase_consumer) c.block_sealed in
      let si : block.coinbase_industrial ≡ d.block.coinbase_industrial =
        ap (λ b. b.coinbase_industrial) c.block_sealed in
      rw skip_is (
        omega (arith, bc, fc, sc, emission_c_is, p.reward_c, h.reward_c),
        omega (arith, bi, fi, si, emission_i_is, p.reward_i, h.reward_i),
      )

  consistent : IsConsistent s'
  consistent = record {
    mempool = record {
      unique = rw mempool_is tt;
      keyed = λ k tx e. absurd (no_waiting k tx e);
      known = λ k tx e. absurd (no_waiting k tx e);
      decomposes = λ k tx e. absurd (no_waiting k tx e);
    };
    reserved =
        rw (accounts_are, mempool_is)
          (credit-AllReserved miner_addr d.block.coinbase_consumer d.block.coinbase_industrial mid
            burned.2.reserved c.credits.fits_c c.credits.fits_i);
  }
    where
      no_waiting :
          (k : Text × ℕ) (tx : SignedTransaction) → Map.get key_dec k s'.mempool ≡ some tx → ⊥
      no_waiting k tx e = get-empty k tx (rw mempool_is at e)

-- The coinbase of a block that is mined from a ready state is, in each token, the growth of the
-- emission and the fees of the transactions in the block.
pub mined_coinbase :
    (crypto : Crypto) (codec : Codec) (miner_addr : Text) (s s' : Blockchain) (block : Block)
    → IsReady s
    → mine_block crypto codec miner_addr s ≡ (ok block, s')
    → (block.coinbase_consumer + s.emission_consumer
        ≡ s'.emission_consumer + total fee_c (skip_one block.transactions))
      × (block.coinbase_industrial + s.emission_industrial
          ≡ s'.emission_industrial + total fee_i (skip_one block.transactions))
mined_coinbase crypto codec miner_addr s s' block h e =
    coinbase_is crypto codec miner_addr s s' block h (mine_steps crypto codec miner_addr s e)

-- From a ready state (`IsReady`), a `mine_block` that succeeds is neutral (`IsNeutral`: all
-- accounts together hold more by exactly what was emitted, and the emission stays within the cap),
-- leaves an empty mempool and reservations that are right, and puts its block at the end of the
-- chain.
pub mine_block-IsNeutral :
    (crypto : Crypto) (codec : Codec) (miner_addr : Text) (s s' : Blockchain) (block : Block)
    → IsReady s
    → mine_block crypto codec miner_addr s ≡ (ok block, s')
    → IsNeutral s s' × IsConsistent s' × (s'.mempool ≡ []) × (s'.chain ≡ s.chain ++ block ∷ [])
mine_block-IsNeutral crypto codec miner_addr s s' block h e =
    let m = mine_steps crypto codec miner_addr s e in
    (
      neutral crypto codec miner_addr s s' block h m,
      consistent crypto codec miner_addr s s' block h m,
      mempool_is crypto codec miner_addr s s' block h m,
      chain_is crypto codec miner_addr s s' block h m,
    )
