-- ===== src/Node/Typed.antt =====
-- The numbers of the state are those of their types in src/lib.rs and src/transaction.rs: `u64`, and
-- `u8` for the selector of a fee.
pub mod Draft
pub mod Credit
pub mod Mine
use the_block.Prelude.{
  ℕ, ◌+◌, ◌-◌, ◌%◌, ◌^◌, ◌≤◌, ◌<◌, ◌≡◌, List, [], ◌∷◌, none, some, Text, text_dec, key_dec, arith,
  All, inl, inr, Option-cases, if_pos, if_neg,
}
use the_block.Prelude.Result.{ok, err, Result-cases}
use the_block.Prelude.Map
use the_block.Prelude.Map.{HashMap, values}
use the_block.Fee.{decompose}
use the_block.Transaction.{Crypto, SignedTransaction}
use the_block.Ledger.{Account, Block, Blockchain, new_account}
use the_block.Ledger.Accounts.{add_account}
use the_block.Mempool.{key, reserve, release, release_in, submit_transaction, drop_transaction}
use the_block.Mempool.Reserve.{total_c, total_i}
use the_block.Mempool.Submit.{submit_outcome}
use the_block.Mempool.Drop.{drop_outcome}
use the_block.Mempool.Run.{add_account-cases}
use the_block.Apply.{zero_address, debit, credit, pay, receive, apply_txs}

pub record IsAccount (a : Account) : Type 0 where
  pub consumer : a.balance.consumer < 2 ^ 64
  pub industrial : a.balance.industrial < 2 ^ 64
  pub nonce : a.nonce < 2 ^ 64
  pub pending_consumer : a.pending_consumer < 2 ^ 64
  pub pending_industrial : a.pending_industrial < 2 ^ 64
  pub pending_nonce : a.pending_nonce < 2 ^ 64

pub record IsTransaction (tx : SignedTransaction) : Type 0 where
  pub amount_consumer : tx.payload.amount_consumer < 2 ^ 64
  pub amount_industrial : tx.payload.amount_industrial < 2 ^ 64
  pub fee : tx.payload.fee < 2 ^ 64
  pub fee_selector : tx.payload.fee_selector < 2 ^ 8
  pub nonce : tx.payload.nonce < 2 ^ 64

pub record IsBlock (b : Block) : Type 0 where
  pub index : b.index < 2 ^ 64
  pub transactions : All IsTransaction b.transactions
  pub difficulty : b.difficulty < 2 ^ 64
  pub nonce : b.nonce < 2 ^ 64
  pub coinbase_consumer : b.coinbase_consumer < 2 ^ 64
  pub coinbase_industrial : b.coinbase_industrial < 2 ^ 64

pub record IsTyped (s : Blockchain) : Type 0 where
  pub chain : All IsBlock s.chain
  pub accounts : All IsAccount (values s.accounts)
  pub difficulty : s.difficulty < 2 ^ 64
  pub mempool : All IsTransaction (values s.mempool)
  pub emission_consumer : s.emission_consumer < 2 ^ 64
  pub emission_industrial : s.emission_industrial < 2 ^ 64
  pub block_reward_consumer : s.block_reward_consumer < 2 ^ 64
  pub block_reward_industrial : s.block_reward_industrial < 2 ^ 64
  pub block_height : s.block_height < 2 ^ 64

pub new_account-IsAccount :
    (a : Text) (c i : ℕ) → c < 2 ^ 64 → i < 2 ^ 64 → IsAccount (new_account a c i)
new_account-IsAccount a c i hc hi = record {
  consumer = hc;
  industrial = hi;
  nonce = omega arith;
  pending_consumer = omega arith;
  pending_industrial = omega arith;
  pending_nonce = omega arith;
}

debit-IsAccount :
    (tx : SignedTransaction) (a : Account) → IsTransaction tx → IsAccount a → IsAccount (debit tx a)
debit-IsAccount tx a t h = record {
  consumer = omega (arith, h.consumer);
  industrial = omega (arith, h.industrial);
  nonce = t.nonce;
  pending_consumer = omega (arith, h.pending_consumer);
  pending_industrial = omega (arith, h.pending_industrial);
  pending_nonce = omega (arith, h.pending_nonce);
}

credit-IsAccount : (tx : SignedTransaction) (a : Account) → IsAccount a → IsAccount (credit tx a)
credit-IsAccount tx a h = record {
  consumer = omega arith;
  industrial = omega arith;
  nonce = h.nonce;
  pending_consumer = h.pending_consumer;
  pending_industrial = h.pending_industrial;
  pending_nonce = h.pending_nonce;
}

-- What `entry` gives is an account too.
pub entry-IsAccount :
    (a : Text) (accounts : HashMap Text Account)
    → All IsAccount (values accounts)
    → IsAccount (Map.entry_or text_dec a (new_account a 0 0) accounts)
entry-IsAccount a accounts h = elim (Option-cases (Map.get text_dec a accounts)) [
  | inl new ↦
      rw (Map.entry_or-none text_dec a (new_account a 0 0) accounts new)
        (new_account-IsAccount a 0 0 (omega arith) (omega arith))
  | inr (acc, old) ↦
      rw (Map.entry_or-some text_dec a (new_account a 0 0) acc accounts old)
        (Map.All-get text_dec IsAccount a acc accounts old h)
]

pay_keeps :
    (tx : SignedTransaction) (accounts : HashMap Text Account)
    → IsTransaction tx
    → All IsAccount (values accounts)
    → All IsAccount (values (pay tx accounts))
unfolding pay
pay_keeps tx accounts t h = elim (text_dec tx.payload.from_ zero_address) [
  | yes z ↦ rw (if_pos (text_dec tx.payload.from_ zero_address) z) h
  | no n ↦ elim (Option-cases (Map.get text_dec tx.payload.from_ accounts)) [
    | inl missing ↦ rw (if_neg (text_dec tx.payload.from_ zero_address) n, missing) h
    | inr (acc, found) ↦
        rw (if_neg (text_dec tx.payload.from_ zero_address) n, found)
          (Map.All-insert text_dec IsAccount tx.payload.from_ (debit tx acc) accounts
            (debit-IsAccount tx acc t
              (Map.All-get text_dec IsAccount tx.payload.from_ acc accounts found h))
            h)
  ]
]

pub apply_txs_keeps :
    (txs : List SignedTransaction) (accounts : HashMap Text Account)
    → All IsTransaction txs
    → All IsAccount (values accounts)
    → All IsAccount (values (apply_txs txs accounts))
unfolding apply_txs receive
apply_txs_keeps [] accounts ts h = h
apply_txs_keeps (tx ∷ txs) accounts ts h =
    let paid = pay_keeps tx accounts ts.0 h in
    let b = tx.payload.to in
    let got = Map.entry_or text_dec b (new_account b 0 0) (pay tx accounts) in
    apply_txs_keeps txs (receive tx (pay tx accounts)) ts.1 (
      Map.All-insert text_dec IsAccount b (credit tx got) (pay tx accounts)
        (credit-IsAccount tx got (entry-IsAccount b (pay tx accounts) paid)) paid)

-- Other accounts and another mempool.
pub with_pool :
    (s : Blockchain) (accounts : HashMap Text Account)
    (mempool : HashMap (Text × ℕ) SignedTransaction)
    → IsTyped s
    → All IsAccount (values accounts)
    → All IsTransaction (values mempool)
    → IsTyped (record s { accounts = accounts; mempool = mempool })
with_pool s accounts mempool h a m = record {
  chain = h.chain;
  accounts = a;
  difficulty = h.difficulty;
  mempool = m;
  emission_consumer = h.emission_consumer;
  emission_industrial = h.emission_industrial;
  block_reward_consumer = h.block_reward_consumer;
  block_reward_industrial = h.block_reward_industrial;
  block_height = h.block_height;
}
