-- ===== src/Import/Frame.antt =====
-- What the import of one block writes.
use the_block.Prelude.{ℕ, ◌≡◌, ◌≢◌, ◌⊎◌, inl, inr, refl, List, [], ◌∷◌, ◌++◌, Text, arith}
use the_block.Prelude.Word.{add64, add128}
use the_block.Prelude.Result.{Result, ok}
use the_block.Transaction.{Crypto, SignedTransaction}
use the_block.Ledger.{Block, Blockchain}
use the_block.Ledger.Action.{PyError, Outcome-cases}
use the_block.Apply.{credit_miner}
use the_block.Mining.{skip_one}
use the_block.Import.{import_tx, import_txs, import_block, miner_of, import_pay, verify_or_raise}

-- Nothing but the accounts has changed.
abbrev OnlyAccounts : Blockchain → Blockchain → Type 0
OnlyAccounts s s' = s' ≡ record s { accounts = s'.accounts }

credit_miner-OnlyAccounts :
    (m : Text) (c i : ℕ) (s : Blockchain) → OnlyAccounts s (credit_miner m c i s).1
unfolding credit_miner
credit_miner-OnlyAccounts m c i s = ground arith

module _ (crypto : Crypto) where
  import_pay-OnlyAccounts :
      (tx : SignedTransaction) (s : Blockchain) → OnlyAccounts s (import_pay crypto tx s).1
  unfolding import_pay
  import_pay-OnlyAccounts tx s = ground arith

  verify_or_raise-same :
      (tx : SignedTransaction) (s : Blockchain) → (verify_or_raise crypto tx s).1 ≡ s
  unfolding verify_or_raise
  verify_or_raise-same tx s = ground arith

  import_tx-OnlyAccounts :
      (tx : SignedTransaction) (s : Blockchain) → OnlyAccounts s (import_tx crypto tx s).1
  unfolding import_tx
  import_tx-OnlyAccounts tx s =
      ground (arith, verify_or_raise-same tx s, import_pay-OnlyAccounts tx s)

  import_txs-OnlyAccounts :
      (txs : List SignedTransaction) (c i : ℕ) (s : Blockchain)
      → OnlyAccounts s (import_txs crypto c i txs s).1
  unfolding import_txs
  import_txs-OnlyAccounts [] c i s = refl
  import_txs-OnlyAccounts (tx ∷ txs) c i s = elim (Outcome-cases (import_tx crypto tx s)) [
    | inr (e, s1, p) ↦ ground (arith, import_tx-OnlyAccounts tx s)
    | inl (taken, s1, p) ↦
        let first : s1 ≡ record s { accounts = s1.accounts } =
          ground (arith, import_tx-OnlyAccounts tx s) in
        ground (arith, first, import_txs-OnlyAccounts txs (add128 c taken.0) (add128 i taken.1) s1)
  ]

  -- A block that was imported is put on the chain, with its coinbase on the emission; one that was
  -- not leaves the chain as it was. In both cases the mempool stays.
  pub record IsImported (b : Block) (s : Blockchain) (r : Result PyError (Unit {0}))
      (s' : Blockchain) : Type 0 where
    pub mempool : s'.mempool ≡ s.mempool
    pub outcome :
        ((r ≡ ok tt)
          × (s'.chain ≡ s.chain ++ b ∷ [])
          × (s'.emission_consumer ≡ add64 s.emission_consumer b.coinbase_consumer)
          × (s'.emission_industrial ≡ add64 s.emission_industrial b.coinbase_industrial))
        ⊎ ((r ≢ ok tt) × (s'.chain ≡ s.chain))

  pub import_block_outcome :
      (b : Block) (s : Blockchain) → let (r, s') = import_block crypto b s in IsImported b s r s'
  unfolding import_block
  import_block_outcome b s =
      elim (Outcome-cases (import_txs crypto 0 0 (skip_one b.transactions) s)) [
        | inr (e, s1, p) ↦
            let frame : OnlyAccounts s s1 =
              ground (arith, import_txs-OnlyAccounts (skip_one b.transactions) 0 0 s) in
            record {
              mempool = ground (arith, frame);
              outcome = inr (ground arith, ground (arith, frame));
            }
        | inl (sums, s1, p) ↦
            let frame : OnlyAccounts s s1 =
              ground (arith, import_txs-OnlyAccounts (skip_one b.transactions) 0 0 s) in
            let paid =
              credit_miner-OnlyAccounts (miner_of b) b.coinbase_consumer b.coinbase_industrial s1 in
            elim (Outcome-cases (import_block crypto b s)) [
              | inl (tt, s2, q) ↦ record {
                mempool = ground (arith, frame, paid);
                outcome = inl (
                  ground arith,
                  ground (arith, frame, paid),
                  ground (arith, frame, paid),
                  ground (arith, frame, paid),
                );
              }
              | inr (e, s2, q) ↦ record {
                mempool = ground (arith, frame, paid);
                outcome = inr (ground arith, ground (arith, frame, paid));
              }
            ]
      ]
