-- ===== src/Mempool/Limits.antt =====
-- What the admission of `submit_transaction` does not look at: who holds the key, and whether the
-- amount and the fee fit in 64 bits.
use the_block.Prelude.{
  ℕ, ◌+◌, ◌-◌, ◌^◌, ◌≤◌, ◌<◌, ◌≡◌, inl, inr, none, some, Bytes, text_dec, key_dec, arith, true,
  false, ltb,
}
use the_block.Prelude.Result.{ok}
use the_block.Prelude.Map
use the_block.Fee.{decompose}
use the_block.Transaction.{Crypto, SignedTransaction, sign_tx, to_array_32, verify_signed_tx}
use the_block.Transaction.Signing.{SignsCorrectly, verify-sign}
use the_block.Ledger.{Account, Blockchain}
use the_block.Mempool.{key, reserve, insufficient, next_nonce, submit_transaction}
use the_block.Mempool.Reserve.{fees, total_c, total_i}
use the_block.Mempool.Submit.{submit_outcome}

selector_valid :
    (selector fee : ℕ) {r : ℕ × ℕ} → decompose selector fee ≡ ok r → ltb 2 selector ≡ false
unfolding decompose
selector_valid selector fee h = ground arith

-- What is not the signature: a state admits the payload of a transaction.
admits :
    (crypto : Crypto) (tx : SignedTransaction) (s : Blockchain) (sender : Account)
    → Map.get key_dec (key tx) s.mempool ≡ none
    → Map.get text_dec tx.payload.from_ s.accounts ≡ some sender
    → decompose tx.payload.fee_selector tx.payload.fee ≡ ok (fees tx)
    → insufficient sender (total_c tx) (total_i tx) ≡ false
    → tx.payload.nonce ≡ next_nonce sender
    → verify_signed_tx crypto tx ≡ true
    → (submit_transaction crypto tx s).0 ≡ ok tt
unfolding submit_transaction
admits crypto tx s sender fresh found split rich nonce signed =
    ground (arith, selector_valid tx.payload.fee_selector tx.payload.fee split)

poor :
    (a : Account) (c i : ℕ)
    → c ≤ a.balance.consumer - a.pending_consumer
    → i ≤ a.balance.industrial - a.pending_industrial
    → insufficient a c i ≡ false
poor a c i hc hi = ground arith

-- With a signature scheme that signs correctly: if a transaction is admitted, then a transaction
-- with the same payload that any other key of 32 bytes has signed is admitted in its place.
pub submit_any_key :
    (crypto : Crypto)
    → SignsCorrectly crypto
    → (tx other : SignedTransaction) (sk : Bytes) (s : Blockchain)
    → (submit_transaction crypto tx s).0 ≡ ok tt
    → sign_tx crypto sk tx.payload ≡ some other
    → (submit_transaction crypto other s).0 ≡ ok tt
unfolding sign_tx to_array_32 fees
submit_any_key crypto laws tx other sk s done e = elim (submit_outcome crypto tx s) [
  | inl (refused, _) ↦ absurd (refused done)
  | inr (_, adm) ↦
      let p : other.payload ≡ tx.payload = ground (arith, e) in
      admits crypto other s adm.sender (rw p adm.fresh) (rw p adm.found) (rw p adm.decomposes)
        (rw p (poor adm.sender (total_c tx) (total_i tx) adm.funded_c adm.funded_i))
        (rw p adm.nonce) (verify-sign crypto laws sk tx.payload e)
]

-- The amount and the fee of a transaction in the consumer token add up to 2 ^ 64. If its cost in
-- the other token is covered, its key is free, its sender has an account with less than 2 ^ 64
-- reserved, and fee, nonce and signature are right, then it is admitted, whatever the consumer
-- balance is, and what is reserved in that token stays the same.
pub submit_wraps :
    (crypto : Crypto) (tx : SignedTransaction) (s : Blockchain) (sender : Account)
    → tx.payload.amount_consumer + (fees tx).0 ≡ 2 ^ 64
    → total_i tx ≤ sender.balance.industrial - sender.pending_industrial
    → sender.pending_consumer < 2 ^ 64
    → Map.get key_dec (key tx) s.mempool ≡ none
    → Map.get text_dec tx.payload.from_ s.accounts ≡ some sender
    → decompose tx.payload.fee_selector tx.payload.fee ≡ ok (fees tx)
    → tx.payload.nonce ≡ next_nonce sender
    → verify_signed_tx crypto tx ≡ true
    → ((submit_transaction crypto tx s).0 ≡ ok tt)
      × ((after : Account) × (Map.get text_dec tx.payload.from_
              (submit_transaction crypto tx s).1.accounts
            ≡ some after)
          × (after.pending_consumer ≡ sender.pending_consumer))
submit_wraps crypto tx s sender wraps rich_i range fresh found split nonce signed =
    let done =
      admits crypto tx s sender fresh found split
        (poor sender (total_c tx) (total_i tx) (omega arith) rich_i) nonce signed in
    elim (submit_outcome crypto tx s) [
      | inl (refused, _) ↦ absurd (refused done)
      | inr (_, adm) ↦
          let e : sender ≡ adm.sender = ground (arith, found, adm.found) in
          (
            done,
            (
              reserve (total_c tx) (total_i tx) adm.sender,
              rw adm.after (Map.get-insert_self text_dec tx.payload.from_ _ s.accounts),
              rw (← e) (omega arith),
            ),
          )
    ]
