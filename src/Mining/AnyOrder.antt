-- ===== src/Mining/AnyOrder.antt =====
-- The block that is mined does not depend on the order of the entries in the `DashMap`.
use the_block.Prelude.{ℕ, ◌≡◌, Text, key_dec, arith}
use the_block.Prelude.Result.{ok}
use the_block.Prelude.Map
use the_block.Prelude.Map.{HashMap, values}
use mathlib.Core.List.{Perm}
use the_block.Transaction.{Crypto, SignedTransaction}
use the_block.Ledger.{Block, Blockchain}
use the_block.Mempool.{key}
use the_block.Mempool.Reserve.{IsConsistent}
use the_block.Store.{Codec}
use the_block.Order.{sort_pending}
use the_block.Order.Agreement.{sort_pending_agrees}
use the_block.Mining.{Draft, prepare, mine_block}
use the_block.Mining.Steps.{mine_steps}

prepare_agrees :
    (crypto : Crypto) (miner_addr : Text) (s : Blockchain)
    (other : HashMap (Text × ℕ) SignedTransaction) {d : Draft} {s1 : Blockchain}
    → sort_pending (values s.mempool) ≡ sort_pending (values other)
    → prepare crypto miner_addr s ≡ (ok d, s1)
    → prepare crypto miner_addr (record s { mempool = other }) ≡ (ok d, s1)
unfolding prepare
prepare_agrees crypto miner_addr s other same e = ground (arith, same)

-- In a consistent state: if `mine_block` succeeds, then it returns the same block and leaves the same
-- state when the entries of the mempool stand in any other order.
pub mine_block_any_order :
    (crypto : Crypto) (codec : Codec) (miner_addr : Text) (s s' : Blockchain) (block : Block)
    (other : HashMap (Text × ℕ) SignedTransaction)
    → IsConsistent s
    → Perm (values s.mempool) (values other)
    → mine_block crypto codec miner_addr s ≡ (ok block, s')
    → mine_block crypto codec miner_addr (record s { mempool = other }) ≡ (ok block, s')
unfolding mine_block
mine_block_any_order crypto codec miner_addr s s' block other h p e =
    let apart = Map.AllApart-values key_dec key s.mempool h.mempool.unique h.mempool.keyed in
    let same = sort_pending_agrees (values s.mempool) (values other) p apart in
    let m = mine_steps crypto codec miner_addr s e in
    let q = prepare_agrees crypto miner_addr s other same m.prepares in
    ground (arith, q, m.searches, m.commits, m.persists)
