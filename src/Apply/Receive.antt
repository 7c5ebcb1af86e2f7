-- ===== src/Apply/Receive.antt =====
-- The recipient's half of a transaction: the supply grows by the amount.
use the_block.Prelude.{
  ℕ, ◌+◌, ◌^◌, ◌<◌, ◌≡◌, inl, inr, refl, List, [], ◌∷◌, none, some, Text, text_dec, arith, All,
  Option-cases,
}
use the_block.Prelude.Map
use the_block.Prelude.Map.{HashMap, values, total}
use the_block.Transaction.{SignedTransaction}
use the_block.Ledger.{Account, new_account}
use the_block.Mempool.Reserve.{total_c, total_i, of_sender, one, IsReserved, AllReserved}
use the_block.Apply.{credit, receive}
use the_block.Apply.Funded.{supply_c, supply_i, IsPayable}

-- Who has no account has sent nothing.
absent-total :
    (f : SignedTransaction → ℕ) (a : Text) (accounts : HashMap Text Account)
    (txs : List SignedTransaction)
    → Map.get text_dec a accounts ≡ none
    → All (IsPayable accounts) txs
    → total (of_sender f a) txs ≡ 0
absent-total f a accounts [] e h = refl
absent-total f a accounts (tx ∷ txs) e h = elim (text_dec a tx.payload.from_) [
  | yes p ↦ absurd (h.0.known (rw (← p) e))
  | no p ↦ ground (arith, absent-total f a accounts txs e h.1)
]

-- The recipient is credited.
module _ (tx : SignedTransaction) (txs : List SignedTransaction) (accounts : HashMap Text Account)
    (reserved : AllReserved accounts txs) (payable : All (IsPayable accounts) txs)
    (fits_c : supply_c accounts + tx.payload.amount_consumer < 2 ^ 64)
    (fits_i : supply_i accounts + tx.payload.amount_industrial < 2 ^ 64) where
  abbrev pub fresh : Account
  fresh = new_account tx.payload.to 0 0

  abbrev r : Account
  r = Map.entry_or text_dec tx.payload.to fresh accounts

  pub supply_c-receive :
      supply_c (receive tx accounts) ≡ supply_c accounts + tx.payload.amount_consumer
  unfolding receive
  supply_c-receive = elim (Option-cases (Map.get text_dec tx.payload.to accounts)) [
    | inl new ↦ ground (
      arith,
      Map.entry_or-none text_dec tx.payload.to fresh accounts new,
      Map.total-insert_new text_dec (λ (x : Account). x.balance.consumer) tx.payload.to
          (credit tx r) accounts new,
    )
    | inr (b, old) ↦ ground (
      arith,
      Map.entry_or-some text_dec tx.payload.to fresh b accounts old,
      Map.le-total text_dec (λ (x : Account). x.balance.consumer) tx.payload.to b accounts old,
      Map.total-insert text_dec (λ (x : Account). x.balance.consumer) tx.payload.to (credit tx r) b
          accounts old,
    )
  ]

  pub supply_i-receive :
      supply_i (receive tx accounts) ≡ supply_i accounts + tx.payload.amount_industrial
  unfolding receive
  supply_i-receive = elim (Option-cases (Map.get text_dec tx.payload.to accounts)) [
    | inl new ↦ ground (
      arith,
      Map.entry_or-none text_dec tx.payload.to fresh accounts new,
      Map.total-insert_new text_dec (λ (x : Account). x.balance.industrial) tx.payload.to
          (credit tx r) accounts new,
    )
    | inr (b, old) ↦ ground (
      arith,
      Map.entry_or-some text_dec tx.payload.to fresh b accounts old,
      Map.le-total text_dec (λ (x : Account). x.balance.industrial) tx.payload.to b accounts old,
      Map.total-insert text_dec (λ (x : Account). x.balance.industrial) tx.payload.to (credit tx r)
          b accounts old,
    )
  ]

  fresh-IsReserved :
      Map.get text_dec tx.payload.to accounts ≡ none → IsReserved txs tx.payload.to (credit tx r)
  fresh-IsReserved new =
      let same = Map.entry_or-none text_dec tx.payload.to fresh accounts new in
      record {
        nonce = ground (arith, same, absent-total one tx.payload.to accounts txs new payable);
        consumer =
            ground (arith, same, absent-total total_c tx.payload.to accounts txs new payable);
        industrial =
            ground (arith, same, absent-total total_i tx.payload.to accounts txs new payable);
        covered_consumer = ground (arith, same);
        covered_industrial = ground (arith, same);
        range_consumer = ground arith;
        range_industrial = ground arith;
      }

  old-IsReserved :
      (b : Account)
      → Map.get text_dec tx.payload.to accounts ≡ some b
      → IsReserved txs tx.payload.to (credit tx r)
  old-IsReserved b old =
      let same = Map.entry_or-some text_dec tx.payload.to fresh b accounts old in
      let before = reserved tx.payload.to b old in
      let lc =
        Map.le-total text_dec (λ (x : Account). x.balance.consumer) tx.payload.to b accounts old in
      let li =
        Map.le-total text_dec (λ (x : Account). x.balance.industrial) tx.payload.to b accounts
          old in
      record {
        nonce = ground (arith, same, before.nonce);
        consumer = ground (arith, same, before.consumer);
        industrial = ground (arith, same, before.industrial);
        covered_consumer = ground (arith, same, before.covered_consumer, lc);
        covered_industrial = ground (arith, same, before.covered_industrial, li);
        range_consumer = ground arith;
        range_industrial = ground arith;
      }

  pub receive-AllReserved : AllReserved (receive tx accounts) txs
  unfolding receive
  receive-AllReserved a acc e =
      elim (Map.get-insert_inv text_dec a tx.payload.to (credit tx r) acc accounts e) [
        | inl (p, q) ↦
            rw (p, ← q)
              (elim (Option-cases (Map.get text_dec tx.payload.to accounts)) [
                | inl new ↦ fresh-IsReserved new
                | inr (b, old) ↦ old-IsReserved b old
              ])
        | inr (ne, old) ↦ reserved a acc old
      ]
