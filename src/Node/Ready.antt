-- ===== src/Node/Ready.antt =====
-- What holds in every state that the node can reach: reservations, the money and the caps.
use the_block.Prelude.{ℕ, zero, suc, ◌+◌, ◌≡◌, arith}
use the_block.Transaction.{Crypto}
use the_block.Ledger.{Blockchain}
use the_block.Store.{Codec}
use the_block.Apply.Funded.{supply_c, supply_i}
use the_block.Mining.Ready.{IsReady}
use the_block.Node.{Runs, begin, added, submitted, dropped, mined}
use the_block.Node.Kept.{IsBounded, IsKept, begin-IsKept, kept-IsReady, fewer}
use the_block.Node.Steps.{added-IsKept, submitted-IsKept, dropped-IsKept, mined-IsKept}

module _ (start : Blockchain) (h : IsReady start) where
  pub runs-IsKept :
      (crypto : Crypto) (codec : Codec) (n c i : ℕ) (s : Blockchain)
      → IsBounded start n c i
      → Runs crypto codec start n c i s
      → IsKept start n c i s
  runs-IsKept crypto codec zero _ _ s b begin = begin-IsKept start h
  runs-IsKept crypto codec (suc n) _ _ s b (added _ c i t _ a x y r e) =
      added-IsKept start h n c i t
        (runs-IsKept crypto codec n c i t
          (record {
            money_c = omega (arith, b.money_c);
            money_i = omega (arith, b.money_i);
            room = omega (arith, b.room);
          })
          r)
        a x y b e
  runs-IsKept crypto codec (suc n) c i s b (submitted _ _ _ t _ tx r plain e) =
      submitted-IsKept start h n c i t (runs-IsKept crypto codec n c i t (fewer start n c i b) r)
        crypto tx b plain e
  runs-IsKept crypto codec (suc n) c i s b (dropped _ _ _ t _ a k r e) =
      dropped-IsKept start h n c i t (runs-IsKept crypto codec n c i t (fewer start n c i b) r) a k
        e
  runs-IsKept crypto codec (suc n) c i s b (mined _ _ _ t _ m block r e) =
      mined-IsKept start h n c i t (runs-IsKept crypto codec n c i t (fewer start n c i b) r) crypto
        codec m block b e

-- The ledger over any run of successful calls of `add_account`, `submit_transaction` (of transactions
-- that are `IsPlain`), `drop_transaction` and `mine_block`, from a ready state and within the bounds
-- of `IsBounded`: every state of it is ready again (reservations right, everything that waits can be
-- mined, emission within the cap), and all accounts together hold, in each token, exactly what they
-- held, what `add_account` put in, and what was emitted since.
pub Runs-IsReady :
    (crypto : Crypto) (codec : Codec) (start : Blockchain) (n c i : ℕ) (s : Blockchain)
    → IsReady start
    → IsBounded start n c i
    → Runs crypto codec start n c i s
    → IsReady s
      × (supply_c s.accounts + start.emission_consumer
          ≡ supply_c start.accounts + c + s.emission_consumer)
      × (supply_i s.accounts + start.emission_industrial
          ≡ supply_i start.accounts + i + s.emission_industrial)
Runs-IsReady crypto codec start n c i s h b r =
    let k = runs-IsKept start h crypto codec n c i s b r in
    (kept-IsReady start h n c i s k b, k.money_c, k.money_i)
