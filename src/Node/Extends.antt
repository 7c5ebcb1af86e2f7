-- ===== src/Node/Extends.antt =====
-- Mining keeps the chain of a node valid in the eyes of `is_valid_chain_rust`, with which other nodes
-- judge it in `import_chain`.
use the_block.Prelude.{
  ℕ, ◌+◌, ◌-◌, ◌^◌, ◌<◌, ◌≡◌, refl, ◌∙◌, List, [], ◌∷◌, ◌++◌, true, Text, arith, All, All-append,
}
use the_block.Prelude.Word.{add64}
use the_block.Prelude.Result.{ok}
use the_block.Prelude.Map.{values}
use the_block.Transaction.{Crypto, SignedTransaction}
use the_block.Hashlayout.{zero_hash}
use the_block.Ledger.{Block, Blockchain}
use the_block.Store.{Codec}
use the_block.Order.{sort_pending}
use the_block.Order.Perm.{All-sort_pending}
use the_block.Validate.Distinct.{AllDistinct}
use the_block.Validate.Counts.{nonce_of, count_of}
use the_block.Validate.Equivalent.{IsAccepted, coinbase_aside}
use the_block.ValidChain.{is_valid_chain}
use the_block.ValidChain.Sound.{IsSigned}
use the_block.ValidChain.Complete.{count_up-count_from}
use the_block.ValidChain.Equivalent.{IsEntry, IsInRange, AllEntries, is_valid_chain_iff}
use the_block.Mining.{coinbase, tip_hash, mine_block}
use the_block.Mining.Steps.{mine_steps}
use the_block.Mining.Ready.{IsReady}
use the_block.Mining.Accepted.{IsOrderly}
use the_block.Mining.Accepted

-- A block that `validate_block` accepts, with signed transactions, is an entry of a chain.
accepted-IsEntry :
    (crypto : Crypto) (s : Blockchain) (b : Block) (cb : SignedTransaction)
    (txs : List SignedTransaction)
    → b.transactions ≡ cb ∷ txs
    → IsAccepted crypto s b
    → All (IsSigned crypto) txs
    → IsEntry crypto s.difficulty b.previous_hash b
accepted-IsEntry crypto s b cb txs e h signed =
    let v = h.valid in
    let same : txs ≡ v.txs = ground (arith, e, v.coinbase.transactions) in
    record {
      link = record {
        linked = refl;
        difficulty_kept = v.difficulty;
        txs = v.txs;
        coinbase = v.coinbase;
        proof = v.proof;
        signed = rw same at signed;
        fees_valid = v.fees_valid;
        covered = v.covered;
        checksum = v.checksum;
      };
      distinct = (rw v.coinbase.transactions at h.distinct).1;
      counts = λ a nz.
          let k = count_of a b.transactions in
          let aside = (coinbase_aside crypto b v.txs v.coinbase).0 a nz in
          let start = nonce_of s.accounts a - k in
          (add64 start 1, rw (← aside) (h.counts a nz ∙ count_up-count_from k start));
    }

-- The hash at the end of a chain after a block with a given hash.
abbrev end_of : Text → List Block → Text
end_of prev [] = prev
end_of prev (b ∷ bs) = end_of b.hash bs

end_of-tip_hash :
    (prev : Text) (b : Block) (bs : List Block) → end_of prev (b ∷ bs) ≡ tip_hash (b ∷ bs)
end_of-tip_hash prev b [] = refl
end_of-tip_hash prev b (c ∷ bs) = end_of-tip_hash b.hash c bs

start-tip_hash : (bs : List Block) → end_of zero_hash bs ≡ tip_hash bs
start-tip_hash [] = refl
start-tip_hash (b ∷ bs) = end_of-tip_hash zero_hash b bs

AllEntries-append :
    (crypto : Crypto) (difficulty : ℕ) (prev : Text) (bs : List Block) (b : Block)
    → AllEntries crypto difficulty prev bs
    → IsEntry crypto difficulty (end_of prev bs) b
    → AllEntries crypto difficulty prev (bs ++ b ∷ [])
AllEntries-append crypto difficulty prev [] b h k = (k, tt)
AllEntries-append crypto difficulty prev (c ∷ bs) b h k =
    (h.0, AllEntries-append crypto difficulty c.hash bs b h.1 k)

-- The chain with the new block is within its types as well.
pub extended-IsInRange :
    (crypto : Crypto) (codec : Codec) (miner_addr : Text) (s s' : Blockchain) (block : Block)
    → IsReady s
    → IsOrderly s
    → All (λ t. t.payload.nonce + 1 < 2 ^ 64) (values s.mempool)
    → All IsInRange s.chain
    → mine_block crypto codec miner_addr s ≡ (ok block, s')
    → All IsInRange (s.chain ++ block ∷ [])
extended-IsInRange crypto codec miner_addr s s' block h o small range e =
    let m = mine_steps crypto codec miner_addr s e in
    let sorted = Accepted.sorted_is crypto codec miner_addr s s' block h o m in
    let bounds = Accepted.block-HasRange crypto codec miner_addr s s' block h o m in
    All-append IsInRange s.chain (block ∷ []) range (
      record {
        consumer = bounds.consumer;
        industrial = bounds.industrial;
        nonces = rw sorted (
          omega arith,
          All-sort_pending (λ t. t.payload.nonce + 1 < 2 ^ 64) (values s.mempool) small,
        );
      },
      tt,
    )

pub mined_chain_valid :
    (crypto : Crypto) (codec : Codec) (miner_addr : Text) (s s' : Blockchain) (block : Block)
    → IsReady s
    → IsOrderly s
    → AllDistinct crypto
        (coinbase miner_addr block.coinbase_consumer block.coinbase_industrial ∷ values s.mempool)
    → All (IsSigned crypto) (values s.mempool)
    → All (λ t. t.payload.nonce + 1 < 2 ^ 64) (values s.mempool)
    → All IsInRange s.chain
    → is_valid_chain crypto s.chain s.difficulty ≡ ok true
    → mine_block crypto codec miner_addr s ≡ (ok block, s')
    → is_valid_chain crypto s'.chain s'.difficulty ≡ ok true
mined_chain_valid crypto codec miner_addr s s' block h o apart signed small range valid e =
    let m = mine_steps crypto codec miner_addr s e in
    let sorted = Accepted.sorted_is crypto codec miner_addr s s' block h o m in
    let previous = Accepted.previous_is crypto codec miner_addr s s' block h o m in
    let same = Accepted.difficulty_is crypto codec miner_addr s s' block h o m in
    let extended = s.chain ++ block ∷ [] in
    let entry =
      accepted-IsEntry crypto s' block
        (coinbase miner_addr block.coinbase_consumer block.coinbase_industrial)
        (sort_pending (values s.mempool)) sorted
        (Accepted.block-IsAccepted crypto codec miner_addr s s' block h o m apart)
        (All-sort_pending (IsSigned crypto) (values s.mempool) signed) in
    let at_end : IsEntry crypto s.difficulty (end_of zero_hash s.chain) block =
      rw (← same, start-tip_hash s.chain, ← previous) entry in
    let in_range = extended-IsInRange crypto codec miner_addr s s' block h o small range e in
    let before = (is_valid_chain_iff crypto s.chain s.difficulty range).0 valid in
    rw (Accepted.chain_is crypto codec miner_addr s s' block h o m, same)
      ((is_valid_chain_iff crypto extended s.difficulty in_range).1
        (AllEntries-append crypto s.difficulty zero_hash s.chain block before at_end))
