-- ===== src/Node/Serving.antt =====
-- The life of a node on which nothing is dropped: any number of calls of `add_account`,
-- `submit_transaction` and `mine_block`.
use the_block.Prelude.{ℕ, ◌+◌, ◌^◌, ◌<◌, ◌∷◌, length}
use the_block.Prelude.Map.{values}
use the_block.Transaction.{Crypto}
use the_block.Ledger.{Blockchain}
use the_block.Store.{Codec}
use the_block.Validate.Distinct.{AllDistinct}
use the_block.Mining.{coinbase}
use the_block.Mining.Ready.{IsReady}
use the_block.Node.{Runs, begin, added, submitted, dropped, mined}
use the_block.Node.Served.{IsServed}

-- A run without drops, in which the transactions of every block have distinct ids when it is mined.
unfoldable pub IsServing :
    {crypto : Crypto} {codec : Codec} {start : Blockchain} {n c i : ℕ} {s : Blockchain}
    → Runs crypto codec start n c i s
    → Type 0
IsServing begin = Unit
IsServing (added _ _ _ _ _ _ _ _ r _) = IsServing r
IsServing (submitted _ _ _ _ _ _ r _ _) = IsServing r
IsServing (dropped _ _ _ _ _ _ _ _ _) = ⊥
IsServing {crypto} (mined _ _ _ s _ miner_addr block r _) =
    IsServing r
    × AllDistinct crypto
        (coinbase miner_addr block.coinbase_consumer block.coinbase_industrial ∷ values s.mempool)

-- What a run starts from: a ready node whose chain is valid, with room for `n` calls.
pub record IsFresh (crypto : Crypto) (top n : ℕ) (start : Blockchain) : Type 0 where
  pub ready : IsReady start
  pub served : IsServed crypto top start
  pub room : length start.mempool + n + 1 < 2 ^ 64
  pub fits : top + n + 1 < 2 ^ 64
