-- ===== src/Apply/Pay.antt =====
-- The sender's half of a transaction: the supply falls by what the sender is debited.
use the_block.Prelude.{◌+◌, ◌≡◌, ◌≢◌, inl, inr, List, ◌∷◌, some, Text, text_dec, arith}
use the_block.Prelude.Map
use the_block.Prelude.Map.{HashMap, values, total}
use the_block.Transaction.{SignedTransaction}
use the_block.Ledger.{Account}
use the_block.Mempool.Reserve.{total_c, total_i, IsReserved, AllReserved}
use the_block.Apply.{debit, pay}
use the_block.Apply.Funded.{supply_c, supply_i, IsPayable, IsFunded}

-- The sender pays.
module _ (tx : SignedTransaction) (txs : List SignedTransaction) (accounts : HashMap Text Account)
    (payable : IsPayable accounts tx) (funded : IsFunded accounts (tx ∷ txs)) (a : Account)
    (found : Map.get text_dec tx.payload.from_ accounts ≡ some a) where
  paid : pay tx accounts ≡ Map.insert text_dec tx.payload.from_ (debit tx a) accounts
  unfolding pay
  paid = ground (arith, payable.ordinary)

  sender-IsReserved : IsReserved txs tx.payload.from_ (debit tx a)
  sender-IsReserved =
      let old = funded.reserved tx.payload.from_ a found in
      record {
        nonce = ground (arith, old.nonce);
        consumer = ground (arith, old.consumer);
        industrial = ground (arith, old.industrial);
        covered_consumer = omega (arith, old.covered_consumer);
        covered_industrial = omega (arith, old.covered_industrial);
        range_consumer = omega (arith, old.range_consumer);
        range_industrial = omega (arith, old.range_industrial);
      }

  other-IsReserved :
      (b : Text) (acc : Account)
      → b ≢ tx.payload.from_
      → IsReserved (tx ∷ txs) b acc
      → IsReserved txs b acc
  other-IsReserved b acc ne old = record {
    nonce = ground (arith, old.nonce);
    consumer = ground (arith, old.consumer);
    industrial = ground (arith, old.industrial);
    covered_consumer = old.covered_consumer;
    covered_industrial = old.covered_industrial;
    range_consumer = old.range_consumer;
    range_industrial = old.range_industrial;
  }

  pub pay-AllReserved : AllReserved (pay tx accounts) txs
  pay-AllReserved b acc e =
      elim (Map.get-insert_inv text_dec b tx.payload.from_ (debit tx a) acc accounts
        (rw paid at e)) [
          | inl (p, q) ↦ rw (p, ← q) sender-IsReserved
          | inr (ne, old) ↦ other-IsReserved b acc ne (funded.reserved b acc old)
        ]

  pub supply_c-pay : supply_c (pay tx accounts) + total_c tx ≡ supply_c accounts
  supply_c-pay =
      let old = funded.reserved tx.payload.from_ a found in
      rw paid (
        ground (
          arith,
          old.consumer,
          old.covered_consumer,
          Map.total-insert text_dec (λ (x : Account). x.balance.consumer) tx.payload.from_
              (debit tx a) a accounts found,
        ))

  pub supply_i-pay : supply_i (pay tx accounts) + total_i tx ≡ supply_i accounts
  supply_i-pay =
      let old = funded.reserved tx.payload.from_ a found in
      rw paid (
        ground (
          arith,
          old.industrial,
          old.covered_industrial,
          Map.total-insert text_dec (λ (x : Account). x.balance.industrial) tx.payload.from_
              (debit tx a) a accounts found,
        ))
