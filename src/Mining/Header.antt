-- ===== src/Mining/Header.antt =====
-- The header that `mine_block` gives its block, and where it stands on the chain.
use the_block.Prelude.{◌≡◌, refl, List, [], ◌∷◌, ◌++◌, some, Text, arith, length, get_elem?}
use the_block.Prelude.Result.{ok}
use the_block.Prelude.Map
use the_block.Prelude.Map.{HashMap, values, total}
use the_block.Transaction.{Crypto}
use the_block.Ledger.{Block, Blockchain}
use the_block.Store.{Codec, persist_chain}
use the_block.Rewards.{fee_loop, fee_checksum}
use the_block.Validate.{expected_prev}
use the_block.Validate.Counts.{nonce_of}
use the_block.Mining.{Draft, tip_hash, prepare}
use the_block.Mining.Prepare.{miner_before}

-- The fields of the header that `prepare` fills in.
pub record HasHeader (crypto : Crypto) (s : Blockchain) (d : Draft) : Type 0 where
  pub index : d.block.index ≡ length s.chain
  pub previous_hash : d.block.previous_hash ≡ tip_hash s.chain
  pub difficulty : d.block.difficulty ≡ s.difficulty
  pub checksum :
      d.block.fee_checksum
      ≡ fee_checksum crypto (fee_loop 0 0 d.pending).0 (fee_loop 0 0 d.pending).1

pub prepare-HasHeader :
    (crypto : Crypto) (miner_addr : Text) (s : Blockchain) {s1 : Blockchain} {d : Draft}
    → prepare crypto miner_addr s ≡ (ok d, s1)
    → HasHeader crypto s d
unfolding prepare
prepare-HasHeader crypto miner_addr s h = record {
  index = ground arith;
  previous_hash = ground arith;
  difficulty = ground arith;
  checksum = ground arith;
}

-- The last block of a chain.
tip :
    (c : Block) (cs ys : List Block)
    → (x : Block) × (get_elem? ((c ∷ cs) ++ ys) (length cs) ≡ some x) × (x.hash ≡ tip_hash (c ∷ cs))
tip c [] ys = (c, refl, refl)
tip c (b ∷ cs) ys = tip b cs ys

-- A block after a chain points to the end of it.
pub expected_prev-append :
    (chain : List Block) (b : Block)
    → expected_prev (chain ++ b ∷ []) (length chain) ≡ ok (tip_hash chain)
unfolding expected_prev
expected_prev-append [] b = refl
expected_prev-append (c ∷ cs) b =
    let (x, found, hash) = tip c cs (b ∷ []) in ground (arith, found, hash)

pub persist_difficulty :
    (codec : Codec) (s : Blockchain) {s' : Blockchain}
    → persist_chain codec s ≡ (ok tt, s')
    → s'.difficulty ≡ s.difficulty
unfolding persist_chain
persist_difficulty codec s h = ground arith

pub miner_nonce :
    (miner_addr : Text) (s : Blockchain)
    → (miner_before miner_addr s).nonce ≡ nonce_of s.accounts miner_addr
unfolding Map.entry_or
miner_nonce miner_addr s = ground arith
