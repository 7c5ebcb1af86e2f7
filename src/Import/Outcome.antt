-- ===== src/Import/Outcome.antt =====
-- How `import_chain` ends: refused with nothing changed, done, or stopped on the way.
use the_block.Prelude.{
  ◌+◌, ◌%◌, ◌^◌, ◌<◌, ◌≡◌, ◌≢◌, ◌⊎◌, inl, inr, refl, List, [], ◌∷◌, ◌++◌, true, false, arith,
  length, ◌∙◌, ap, sym, leb, Bool-cases,
}
use the_block.Prelude.Word.{add64}
use the_block.Prelude.Result.{Result, ok, Result-cases}
use the_block.Prelude.Map.{total}
use mathlib.Core.List.{append-nil, append_assoc}
use the_block.Transaction.{Crypto}
use the_block.Hashlayout.{zero_hash}
use the_block.Ledger.{Block, Blockchain}
use the_block.Ledger.Action.{PyError, Outcome-cases}
use the_block.ValidChain.{is_valid_chain}
use the_block.ValidChain.Sound.{AllLinked, is_valid_chain_sound}
use the_block.Import.{import_block, import_blocks, import_chain, reset}
use the_block.Import.Frame.{import_block_outcome}

module _ (crypto : Crypto) where
  -- The blocks that a chain is the first part of.
  abbrev pub IsPartOf : List Block → List Block → Type 0
  IsPartOf done all = (rest : List Block) × (all ≡ done ++ rest)

  -- What a run over several blocks adds to the chain and the emission.
  record AreImported (bs : List Block) (s : Blockchain) (r : Result PyError (Unit {0}))
      (s' : Blockchain) : Type 0 where
    pub mempool : s'.mempool ≡ s.mempool
    pub outcome :
        ((r ≡ ok tt)
          × (s'.chain ≡ s.chain ++ bs)
          × (s'.emission_consumer
              ≡ (s.emission_consumer + total (λ b. b.coinbase_consumer) bs) % 2 ^ 64)
          × (s'.emission_industrial
              ≡ (s.emission_industrial + total (λ b. b.coinbase_industrial) bs) % 2 ^ 64))
        ⊎ ((r ≢ ok tt) × (done : List Block) × IsPartOf done bs × (s'.chain ≡ s.chain ++ done))

  import_blocks_outcome :
      (bs : List Block) (s : Blockchain)
      → s.emission_consumer < 2 ^ 64
      → s.emission_industrial < 2 ^ 64
      → let (r, s') = import_blocks crypto bs s in AreImported bs s r s'
  unfolding import_blocks
  import_blocks_outcome [] s hc hi = record {
    mempool = refl;
    outcome = inl (refl, sym (append-nil s.chain), ground arith, ground arith);
  }
  import_blocks_outcome (b ∷ bs) s hc hi =
      let first = import_block_outcome crypto b s in
      elim (Outcome-cases (import_block crypto b s)) [
        | inr (e, s1, p) ↦ elim first.outcome [
          | inl (good, _, _, _) ↦ absurd (ground arith)
          | inr (bad, chain) ↦ record {
            mempool = ground (arith, first.mempool);
            outcome =
                inr (ground arith, [], (b ∷ bs, refl), ground (arith, chain, append-nil s.chain));
          }
        ]
        | inl (u, s1, p) ↦ elim first.outcome [
          | inr (bad, _) ↦ absurd (ground arith)
          | inl (good, chain, ec, ei) ↦
              let c1 : s1.chain ≡ s.chain ++ b ∷ [] = ground (arith, chain) in
              let m1 : s1.mempool ≡ s.mempool = ground (arith, first.mempool) in
              let e1 : s1.emission_consumer ≡ add64 s.emission_consumer b.coinbase_consumer =
                ground (arith, ec) in
              let i1 : s1.emission_industrial ≡ add64 s.emission_industrial b.coinbase_industrial =
                ground (arith, ei) in
              let later = import_blocks_outcome bs s1 (omega arith) (omega arith) in
              let go : (import_blocks crypto (b ∷ bs) s) ≡ import_blocks crypto bs s1 =
                ground arith in
              rw go (record {
                mempool = later.mempool ∙ m1;
                outcome = elim later.outcome [
                  | inl (done, c2, e2, i2) ↦ inl (
                    done,
                    c2 ∙ ap (λ x. x ++ bs) c1 ∙ append_assoc s.chain (b ∷ []) bs,
                    omega (arith, e1, e2),
                    omega (arith, i1, i2),
                  )
                  | inr (stopped, done, (rest, parts), c2) ↦ inr (
                    stopped,
                    b ∷ done,
                    (rest, ap (λ x. b ∷ x) parts),
                    c2 ∙ ap (λ x. x ++ done) c1 ∙ append_assoc s.chain (b ∷ []) done,
                  )
                ];
              })
        ]
      ]

  -- How an import ended.
  pub record IsStopped (new_chain : List Block) (r : Result PyError (Unit {0})) (s' : Blockchain)
      : Type 0 where
    pub raised : r ≢ ok tt
    pub done : List Block
    pub part : IsPartOf done new_chain
    pub chain : s'.chain ≡ done

  pub record IsDone (new_chain : List Block) (r : Result PyError (Unit {0})) (s' : Blockchain)
      : Type 0 where
    pub succeeded : r ≡ ok tt
    pub chain : s'.chain ≡ new_chain
    pub emission_c : s'.emission_consumer ≡ total (λ b. b.coinbase_consumer) new_chain % 2 ^ 64
    pub emission_i : s'.emission_industrial ≡ total (λ b. b.coinbase_industrial) new_chain % 2 ^ 64

  -- An import either raises and changes nothing; or the new chain is longer and valid, the mempool
  -- stays, and the import is done, with the new chain and all its coinbases emitted, or it raised on
  -- the way, with the old chain gone and a first part of the new one in its place.
  pub import_chain_outcome :
      (new_chain : List Block) (s : Blockchain)
      → let (r, s') = import_chain crypto new_chain s in
        ((r ≢ ok tt) × (s' ≡ s))
        ⊎ ((length s.chain < length new_chain)
            × AllLinked crypto (s.difficulty % 2 ^ 32) zero_hash new_chain
            × (s'.mempool ≡ s.mempool)
            × (IsDone new_chain r s' ⊎ IsStopped new_chain r s'))
  unfolding import_chain
  import_chain_outcome new_chain s =
      elim (Result-cases (is_valid_chain crypto new_chain (s.difficulty % 2 ^ 32))) [
        | inr (e, bad) ↦ inl (ground arith, ground arith)
        | inl (false, bad) ↦ inl (ground arith, ground arith)
        | inl (true, good) ↦ elim (Bool-cases (leb (length new_chain) (length s.chain))) [
          | inl short ↦ inl (ground arith, ground arith)
          | inr long ↦
              let valid = is_valid_chain_sound crypto new_chain (s.difficulty % 2 ^ 32) good in
              let start : import_chain crypto new_chain s
                  ≡ import_blocks crypto new_chain (reset crypto s) =
                ground arith in
              let later =
                import_blocks_outcome new_chain (reset crypto s) (omega arith) (omega arith) in
              inr (
                ground arith,
                valid,
                rw start later.mempool,
                elim later.outcome [
                  | inl (done, c, e, i) ↦ inl (
                      rw start (record {
                        succeeded = done;
                        chain = c;
                        emission_c = omega (arith, e);
                        emission_i = omega (arith, i);
                      }))
                  | inr (stopped, done, part, c) ↦
                      inr (
                        rw start (record { raised = stopped; done = done; part = part; chain = c }))
                ],
              )
        ]
      ]
