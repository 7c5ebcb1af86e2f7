-- ===== src/Mempool.antt =====
-- The mempool, `submit_transaction` and `drop_transaction` of src/lib.rs. The `DashMap` is a map:
-- `&mut self` excludes another caller during a method.
pub mod Reserve
pub mod Submit
pub mod Drop
pub mod RoundTrip
pub mod Limits
pub mod Run
use the_block.Prelude.{
  ℕ, ◌+◌, ◌≡◌, Option, none, some, Bool, true, false, ◌||◌, not, Text, text_dec, key_dec, ltb, ◌==◌,
  if◌then◌else◌,
}
use the_block.Prelude.Word.{add64, saturating_sub}
use the_block.Prelude.Result.{Result, ok, err}
use the_block.Prelude.Map
use the_block.Prelude.Map.{HashMap}
use the_block.Fee.{FeeError, decompose}
use the_block.Transaction.{Crypto, SignedTransaction, verify_signed_tx}
use the_block.Ledger.{Account, Blockchain}
use the_block.Ledger.Accounts.{is_some}
use the_block.Ledger.Action.{
  Action, PyError, duplicate_transaction, invalid_fee_selector, sender_not_found,
  insufficient_balance, bad_nonce, signature_failed, transaction_not_found, gets, or_raise,
  raise_if, modify, raise, or_fee_error, pure, ◌>>=◌, ◌>>◌,
}

-- The key of a transaction in the mempool.
abbrev pub key : SignedTransaction → Text × ℕ
key tx = (tx.payload.from_, tx.payload.nonce)

-- `sender.pending_* +=`.
abbrev pub reserve : ℕ → ℕ → Account → Account
reserve total_c total_i a = record a {
  pending_consumer = add64 a.pending_consumer total_c;
  pending_industrial = add64 a.pending_industrial total_i;
  pending_nonce = add64 a.pending_nonce 1;
}

-- `acc.pending_* = acc.pending_*.saturating_sub(..)`.
abbrev pub release : ℕ → ℕ → Account → Account
release total_c total_i a = record a {
  pending_consumer = saturating_sub a.pending_consumer total_c;
  pending_industrial = saturating_sub a.pending_industrial total_i;
  pending_nonce = saturating_sub a.pending_nonce 1;
}

-- The balance test of `submit_transaction`.
abbrev pub insufficient : Account → ℕ → ℕ → Bool
insufficient a total_c total_i =
    ltb (saturating_sub a.balance.consumer a.pending_consumer) total_c
    || ltb (saturating_sub a.balance.industrial a.pending_industrial) total_i

-- The nonce that the sender must use next.
abbrev pub next_nonce : Account → ℕ
next_nonce a = add64 (add64 a.nonce a.pending_nonce) 1

unfoldable pub submit_transaction : Crypto → SignedTransaction → Action (Unit {0})
submit_transaction crypto tx = do
  raise_if (is_some (← gets (λ s. Map.get key_dec (key tx) s.mempool))) duplicate_transaction
  raise_if (ltb 2 tx.payload.fee_selector) invalid_fee_selector
  sender ← or_raise (← gets (λ s. Map.get text_dec tx.payload.from_ s.accounts)) sender_not_found
  fees ← or_fee_error (decompose tx.payload.fee_selector tx.payload.fee)
  let total_c = add64 tx.payload.amount_consumer fees.0
  let total_i = add64 tx.payload.amount_industrial fees.1
  raise_if (insufficient sender total_c total_i) insufficient_balance
  raise_if (not (tx.payload.nonce == next_nonce sender)) bad_nonce
  raise_if (not (verify_signed_tx crypto tx)) signature_failed
  modify (λ s. record s {
    accounts = Map.insert text_dec tx.payload.from_ (reserve total_c total_i sender) s.accounts;
    mempool = Map.insert key_dec (key tx) tx s.mempool;
  })

-- `if let Some(acc) = self.accounts.get_mut(sender)` and the release under it.
abbrev pub release_in : Text → SignedTransaction → HashMap Text Account → HashMap Text Account
release_in sender tx accounts = elim (Map.get text_dec sender accounts) [
  | none ↦ accounts
  | some a ↦ elim (decompose tx.payload.fee_selector tx.payload.fee) [
    | err e ↦ accounts
    | ok fees ↦
        Map.insert text_dec sender
          (release (add64 tx.payload.amount_consumer fees.0)
            (add64 tx.payload.amount_industrial fees.1) a)
          accounts
  ]
]

unfoldable pub drop_transaction : Text → ℕ → Action (Unit {0})
drop_transaction sender nonce = do
  tx ← or_raise (← gets (λ s. Map.get key_dec (sender, nonce) s.mempool)) transaction_not_found
  modify (λ s. record s {
    accounts = release_in sender tx s.accounts;
    mempool = Map.remove key_dec (sender, nonce) s.mempool;
  })
