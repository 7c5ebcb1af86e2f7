-- ===== src/Mining/Ordered.antt =====
-- What stands in a mined block, and in which order.
use the_block.Prelude.{◌≡◌, List, ◌∷◌, Text, key_dec, arith}
use mathlib.Core.List.{Perm}
use the_block.Prelude.Result.{ok}
use the_block.Prelude.Map
use the_block.Prelude.Map.{values}
use the_block.Transaction.{Crypto, SignedTransaction}
use the_block.Ledger.{Block, Blockchain}
use the_block.Mempool.{key}
use the_block.Mempool.Reserve.{IsConsistent}
use the_block.Store.{Codec}
use the_block.Order.{sort_pending}
use the_block.Order.Lexicographic.{IsInOrder, sort_pending-IsInOrder, sort_pending-perm}
use the_block.Mining.{coinbase, mine_block}
use the_block.Mining.Prepare.{prepare_outcome, commit_outcome}
use the_block.Mining.Steps.{mine_steps}

pub transactions_are :
    (crypto : Crypto) (codec : Codec) (miner_addr : Text) (s s' : Blockchain) (block : Block)
    → mine_block crypto codec miner_addr s ≡ (ok block, s')
    → block.transactions
      ≡ coinbase miner_addr block.coinbase_consumer block.coinbase_industrial
        ∷ sort_pending (values s.mempool)
transactions_are crypto codec miner_addr s s' block e =
    let m = mine_steps crypto codec miner_addr s e in
    let p = prepare_outcome crypto miner_addr s m.prepares in
    let c = commit_outcome miner_addr m.draft m.nonce m.hash m.prepared crypto m.commits in
    ground (arith, c.block_sealed, p.transactions, p.pending)

-- In a consistent state: if `mine_block` succeeds, then its block holds the coinbase, and behind it
-- exactly the transactions that waited, in the order of sender (byte by byte) and nonce: of any two
-- of them, the one in front has the sender that comes before, or the same sender and a lower nonce.
pub mined_block-IsInOrder :
    (crypto : Crypto) (codec : Codec) (miner_addr : Text) (s s' : Blockchain) (block : Block)
    → IsConsistent s
    → mine_block crypto codec miner_addr s ≡ (ok block, s')
    → (txs : List SignedTransaction) × (block.transactions
        ≡ coinbase miner_addr block.coinbase_consumer block.coinbase_industrial ∷ txs)
      × Perm txs (values s.mempool)
      × IsInOrder txs
mined_block-IsInOrder crypto codec miner_addr s s' block h e =
    let waiting = values s.mempool in
    let apart = Map.AllApart-values key_dec key s.mempool h.mempool.unique h.mempool.keyed in
    (
      sort_pending waiting,
      transactions_are crypto codec miner_addr s s' block e,
      sort_pending-perm waiting,
      sort_pending-IsInOrder waiting apart,
    )
