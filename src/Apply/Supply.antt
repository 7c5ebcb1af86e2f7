-- ===== src/Apply/Supply.antt =====
-- Mining transactions moves money and burns the fees, and the reservations of the transactions
-- that are left stay right.
use the_block.Prelude.{
  ◌+◌, ◌^◌, ◌<◌, ◌≡◌, ◌≢◌, inl, inr, List, [], ◌∷◌, none, Text, text_dec, arith, All, Option-cases,
}
use the_block.Prelude.Map
use the_block.Prelude.Map.{HashMap, values, total}
use the_block.Transaction.{SignedTransaction}
use the_block.Ledger.{Account}
use the_block.Rewards.Laws.{fee_c, fee_i}
use the_block.Apply.{debit, pay, receive, apply_txs}
use the_block.Apply.Funded.{supply_c, supply_i, IsPayable, IsFunded}
use the_block.Apply.Pay.{pay-AllReserved, supply_c-pay, supply_i-pay}
use the_block.Apply.Receive.{receive-AllReserved, supply_c-receive, supply_i-receive}

known-pay :
    (tx : SignedTransaction) (a : Text) (accounts : HashMap Text Account)
    → Map.get text_dec a accounts ≢ none
    → Map.get text_dec a (pay tx accounts) ≢ none
unfolding pay
known-pay tx a accounts h = elim (Option-cases (Map.get text_dec tx.payload.from_ accounts)) [
  | inl missing ↦ ground arith
  | inr (s, found) ↦
      ground (arith, Map.get-insert-ne-none text_dec a tx.payload.from_ (debit tx s) accounts h)
]

IsPayable-pay :
    (tx : SignedTransaction) (accounts : HashMap Text Account) (txs : List SignedTransaction)
    → All (IsPayable accounts) txs
    → All (IsPayable (pay tx accounts)) txs
IsPayable-pay tx accounts [] h = tt
IsPayable-pay tx accounts (t ∷ txs) h = (
  record {
    known = known-pay tx t.payload.from_ accounts h.0.known;
    ordinary = h.0.ordinary;
    no_wrap_c = h.0.no_wrap_c;
    no_wrap_i = h.0.no_wrap_i;
  },
  IsPayable-pay tx accounts txs h.1,
)

IsPayable-receive :
    (tx : SignedTransaction) (accounts : HashMap Text Account) (txs : List SignedTransaction)
    → All (IsPayable accounts) txs
    → All (IsPayable (receive tx accounts)) txs
unfolding receive
IsPayable-receive tx accounts [] h = tt
IsPayable-receive tx accounts (t ∷ txs) h = (
  record {
    known = Map.get-insert-ne-none text_dec t.payload.from_ tx.payload.to _ accounts h.0.known;
    ordinary = h.0.ordinary;
    no_wrap_c = h.0.no_wrap_c;
    no_wrap_i = h.0.no_wrap_i;
  },
  IsPayable-receive tx accounts txs h.1,
)

-- One transaction, mined.
record IsStep (tx : SignedTransaction) (txs : List SignedTransaction)
    (before after : HashMap Text Account) : Type 0 where
  burns_c : supply_c after + fee_c tx ≡ supply_c before
  burns_i : supply_i after + fee_i tx ≡ supply_i before
  funded : IsFunded after txs
  payable : All (IsPayable after) txs

step :
    (tx : SignedTransaction) (txs : List SignedTransaction) (accounts : HashMap Text Account)
    → All (IsPayable accounts) (tx ∷ txs)
    → IsFunded accounts (tx ∷ txs)
    → IsStep tx txs accounts (receive tx (pay tx accounts))
step tx txs accounts h f = elim (Option-cases (Map.get text_dec tx.payload.from_ accounts)) [
  | inl missing ↦ absurd (h.0.known missing)
  | inr (a, found) ↦
      let mid = pay tx accounts in
      let ok_mid = IsPayable-pay tx accounts txs h.1 in
      let res = pay-AllReserved tx txs accounts h.0 f a found in
      let c = supply_c-pay tx txs accounts h.0 f a found in
      let i = supply_i-pay tx txs accounts h.0 f a found in
      let fc : supply_c mid + tx.payload.amount_consumer < 2 ^ 64 =
        omega (arith, c, h.0.no_wrap_c, f.range_c) in
      let fi : supply_i mid + tx.payload.amount_industrial < 2 ^ 64 =
        omega (arith, i, h.0.no_wrap_i, f.range_i) in
      let c' = supply_c-receive tx txs mid res ok_mid fc fi in
      let i' = supply_i-receive tx txs mid res ok_mid fc fi in
      record {
        burns_c = omega (arith, c, c', h.0.no_wrap_c);
        burns_i = omega (arith, i, i', h.0.no_wrap_i);
        funded = record {
          reserved = receive-AllReserved tx txs mid res ok_mid fc fi;
          range_c = rw c' fc;
          range_i = rw i' fi;
        };
        payable = IsPayable-receive tx mid txs ok_mid;
      }
]

-- The transactions of a block are mined one after the other, from accounts that reserve for them
-- and are in range (`IsFunded`), where each sender has an account, is not the zero address, and
-- amounts and fees do not wrap (`IsPayable`): what all accounts hold together falls by the sum of
-- the fees in each token, and the accounts that are left reserve for nothing.
pub apply_txs_burns_fees :
    (txs : List SignedTransaction) (accounts : HashMap Text Account)
    → All (IsPayable accounts) txs
    → IsFunded accounts txs
    → (supply_c (apply_txs txs accounts) + total fee_c txs ≡ supply_c accounts)
      × (supply_i (apply_txs txs accounts) + total fee_i txs ≡ supply_i accounts)
      × IsFunded (apply_txs txs accounts) []
unfolding apply_txs
apply_txs_burns_fees [] accounts h f = (omega arith, omega arith, f)
apply_txs_burns_fees (tx ∷ txs) accounts h f =
    let st = step tx txs accounts h f in
    let (c, i, last) =
      apply_txs_burns_fees txs (receive tx (pay tx accounts)) st.payable st.funded in
    (omega (arith, c, st.burns_c), omega (arith, i, st.burns_i), last)
