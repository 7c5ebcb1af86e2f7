-- ===== src/Import/Genesis.antt =====
-- The genesis block of the node against `import_chain`, and what an imported block emits.
use the_block.Prelude.{
  ◌+◌, ◌-◌, ◌%◌, ◌^◌, ◌≡◌, ◌≢◌, inl, inr, refl, List, [], ◌∷◌, ◌++◌, Text, arith, subst,
}
use the_block.Prelude.Result.{ok}
use the_block.Prelude.Map.{total}
use the_block.Transaction.{Crypto}
use the_block.Hashlayout.{zero_hash}
use the_block.Ledger.{Block, Blockchain}
use the_block.Rewards.Laws.{fee_c, fee_i}
use the_block.Store.{Codec, genesis_block}
use the_block.Mining.{mine_block, skip_one}
use the_block.Mining.Ready.{IsReady}
use the_block.Mining.Supply.{mine_block-IsNeutral, mined_coinbase}
use the_block.ValidChain.Sound.{AllLinked}
use the_block.Import.{import_block, import_chain}
use the_block.Import.Frame.{import_block_outcome}
use the_block.Import.Outcome.{import_chain_outcome}

genesis_chain :
    (codec : Codec) (genesis_hash : Text) (s s' : Blockchain)
    → s.chain ≡ []
    → genesis_block codec genesis_hash s ≡ (ok tt, s')
    → (b : Block) × (s'.chain ≡ b ∷ []) × (b.transactions ≡ [])
unfolding genesis_block
genesis_chain codec genesis_hash s s' e h = (
  record {
    index = 0;
    previous_hash = zero_hash;
    transactions = [];
    difficulty = s.difficulty;
    nonce = 0;
    hash = genesis_hash;
    coinbase_consumer = 0;
    coinbase_industrial = 0;
    fee_checksum = zero_hash;
  },
  ground arith,
  refl,
)

-- A node starts its empty chain with `genesis_block`. Then no node can import that chain, whatever
-- blocks follow: `import_chain` raises and changes nothing.
pub genesis_not_importable :
    (crypto : Crypto) (codec : Codec) (genesis_hash : Text) (s s' t : Blockchain)
    (more : List Block)
    → s.chain ≡ []
    → genesis_block codec genesis_hash s ≡ (ok tt, s')
    → ((import_chain crypto (s'.chain ++ more) t).0 ≢ ok tt)
      × ((import_chain crypto (s'.chain ++ more) t).1 ≡ t)
genesis_not_importable crypto codec genesis_hash s s' t more e h =
    let (b, c, none) = genesis_chain codec genesis_hash s s' e h in
    elim (import_chain_outcome crypto (s'.chain ++ more) t) [
      | inl refused ↦ refused
      | inr (_, linked, _, _) ↦
          let l =
            subst (λ q. AllLinked crypto (t.difficulty % 2 ^ 32) zero_hash (q ++ more)) c linked in
          absurd (cc (none, l.0.coinbase.transactions))
    ]

-- A block is mined in a ready state and imported by another node. Then the emission of the
-- importing node grows, modulo 2 ^ 64, by what the emission of the mining node grew and the fees
-- of the transactions in the block.
pub import_counts_fees :
    (crypto : Crypto) (codec : Codec) (miner_addr : Text) (s s' t t' : Blockchain) (block : Block)
    → IsReady s
    → mine_block crypto codec miner_addr s ≡ (ok block, s')
    → import_block crypto block t ≡ (ok tt, t')
    → (t'.emission_consumer
        ≡ (t.emission_consumer
            + (s'.emission_consumer - s.emission_consumer)
            + total fee_c (skip_one block.transactions))
          % 2 ^ 64)
      × (t'.emission_industrial
          ≡ (t.emission_industrial
              + (s'.emission_industrial - s.emission_industrial)
              + total fee_i (skip_one block.transactions))
            % 2 ^ 64)
import_counts_fees crypto codec miner_addr s s' t t' block ready mined imported =
    let (mc, mi) = mined_coinbase crypto codec miner_addr s s' block ready mined in
    let n = (mine_block-IsNeutral crypto codec miner_addr s s' block ready mined).0 in
    elim (import_block_outcome crypto block t).outcome [
      | inr (bad, _) ↦ absurd (ground arith)
      | inl (_, _, ec, ei) ↦ (ground (arith, ec, mc, n.grows_c), ground (arith, ei, mi, n.grows_i))
    ]
