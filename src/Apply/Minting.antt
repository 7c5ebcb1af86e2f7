-- ===== src/Apply/Minting.antt =====
-- What mining does with a transaction that is not a coinbase and claims to come from its address.
use the_block.Prelude.{◌+◌, ◌^◌, ◌<◌, ◌≡◌, [], ◌∷◌, some, Text, text_dec, arith}
use the_block.Prelude.Map
use the_block.Prelude.Map.{HashMap, values, total}
use the_block.Transaction.{SignedTransaction}
use the_block.Ledger.{Account}
use the_block.Apply.{zero_address, credit, pay, receive, apply_txs}
use the_block.Apply.Funded.{supply_c, supply_i}

-- A mined transaction from the address of 34 zeros pays its recipient and takes from nobody: for a
-- recipient with an account whose balances stay below 2 ^ 64, the sum of all balances grows by the
-- amounts of the transaction.
pub zero_sender_mints :
    (tx : SignedTransaction) (accounts : HashMap Text Account) (r : Account)
    → tx.payload.from_ ≡ zero_address
    → Map.get text_dec tx.payload.to accounts ≡ some r
    → r.balance.consumer + tx.payload.amount_consumer < 2 ^ 64
    → r.balance.industrial + tx.payload.amount_industrial < 2 ^ 64
    → (supply_c (apply_txs (tx ∷ []) accounts) ≡ supply_c accounts + tx.payload.amount_consumer)
      × (supply_i (apply_txs (tx ∷ []) accounts) ≡ supply_i accounts + tx.payload.amount_industrial)
unfolding apply_txs pay receive Map.entry_or
zero_sender_mints tx accounts r z found fits_c fits_i = (
  ground (
    arith,
    Map.total-insert text_dec (λ a. a.balance.consumer) tx.payload.to (credit tx r) r accounts
        found,
  ),
  ground (
    arith,
    Map.total-insert text_dec (λ a. a.balance.industrial) tx.payload.to (credit tx r) r accounts
        found,
  ),
)
