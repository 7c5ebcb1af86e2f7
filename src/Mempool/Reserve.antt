-- ===== src/Mempool/Reserve.antt =====
-- The reservations (docs/ledger_invariants.md): what an account has pending is what the mempool
-- holds of it, and is covered by its balance.
use the_block.Prelude.{
  ℕ, ◌^◌, ◌≤◌, ◌<◌, ◌≡◌, ◌≢◌, List, [], ◌∷◌, none, some, Text, text_dec, key_dec, ite, arith,
  length,
}
use the_block.Prelude.Word.{add64}
use the_block.Prelude.Result.{ok, err}
use the_block.Prelude.Map
use the_block.Prelude.Map.{HashMap, values, total, IsUnique}
use the_block.Fee.{decompose}
use the_block.Transaction.{SignedTransaction}
use the_block.Ledger.{Account, Blockchain}
use the_block.Mempool.{key}

-- `decompose(..).unwrap_or((0, 0))`.
unfoldable pub fees : SignedTransaction → ℕ × ℕ
fees tx = elim (decompose tx.payload.fee_selector tx.payload.fee) [ ok r ↦ r | err e ↦ (0, 0) ]

-- What a transaction takes from its sender.
abbrev pub total_c : SignedTransaction → ℕ
total_c tx = add64 tx.payload.amount_consumer (fees tx).0

abbrev pub total_i : SignedTransaction → ℕ
total_i tx = add64 tx.payload.amount_industrial (fees tx).1

-- The share of one sender in sums over transactions.
abbrev pub of_sender : (SignedTransaction → ℕ) → Text → SignedTransaction → ℕ
of_sender f a tx = ite (text_dec a tx.payload.from_) (f tx) 0

abbrev pub one : SignedTransaction → ℕ
one tx = 1

-- An account against the transactions that wait.
pub record IsReserved (txs : List SignedTransaction) (a : Text) (acc : Account) : Type 0 where
  pub nonce : acc.pending_nonce ≡ total (of_sender one a) txs
  pub consumer : acc.pending_consumer ≡ total (of_sender total_c a) txs
  pub industrial : acc.pending_industrial ≡ total (of_sender total_i a) txs
  pub covered_consumer : acc.pending_consumer ≤ acc.balance.consumer
  pub covered_industrial : acc.pending_industrial ≤ acc.balance.industrial
  pub range_consumer : acc.balance.consumer < 2 ^ 64
  pub range_industrial : acc.balance.industrial < 2 ^ 64

abbrev pub AllReserved : HashMap Text Account → List SignedTransaction → Type 0
AllReserved accounts txs =
    (a : Text) (acc : Account) → Map.get text_dec a accounts ≡ some acc → IsReserved txs a acc

-- The mempool: no key twice, every transaction under its own key, its sender
-- with an account and its fee valid.
pub record IsMempool (s : Blockchain) : Type 0 where
  pub unique : IsUnique key_dec s.mempool
  pub keyed :
      (k : Text × ℕ) (tx : SignedTransaction) → Map.get key_dec k s.mempool ≡ some tx → k ≡ key tx
  pub known :
      (k : Text × ℕ) (tx : SignedTransaction)
      → Map.get key_dec k s.mempool ≡ some tx
      → Map.get text_dec tx.payload.from_ s.accounts ≢ none
  pub decomposes :
      (k : Text × ℕ) (tx : SignedTransaction)
      → Map.get key_dec k s.mempool ≡ some tx
      → decompose tx.payload.fee_selector tx.payload.fee ≡ ok (fees tx)

pub record IsConsistent (s : Blockchain) : Type 0 where
  pub mempool : IsMempool s
  pub reserved : AllReserved s.accounts (values s.mempool)

-- A sender has no more transactions than there are.
pub total-one-le :
    (a : Text) (m : HashMap (Text × ℕ) SignedTransaction)
    → total (of_sender one a) (values m) ≤ length m
total-one-le a [] = omega arith
total-one-le a (e ∷ m) = ground (arith, total-one-le a m)
