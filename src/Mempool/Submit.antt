-- ===== src/Mempool/Submit.antt =====
-- What `submit_transaction` promises.
use the_block.Prelude.{
  ℕ, ◌+◌, ◌-◌, ◌^◌, ◌≤◌, ◌<◌, ◌≡◌, ◌≢◌, ◌⊎◌, inl, inr, none, some, Text, text_dec, key_dec, arith,
  length, true, ltb, ◌==◌, Option-cases, Bool-cases, ◌∙◌, ap,
}
use the_block.Prelude.Result.{ok, Result-cases}
use the_block.Prelude.Map
use the_block.Prelude.Map.{HashMap, values, total, IsUnique}
use the_block.Fee.{decompose}
use the_block.Transaction.{Crypto, SignedTransaction, verify_signed_tx}
use the_block.Ledger.{Account, Blockchain}
use the_block.Mempool.{key, reserve, insufficient, next_nonce, submit_transaction}
use the_block.Mempool.Reserve.{
  fees, total_c, total_i, of_sender, one, IsReserved, IsMempool, IsConsistent, total-one-le,
}

module _ (crypto : Crypto) where
  -- What an accepted transaction has passed, and the state after it.
  pub record IsAdmitted (tx : SignedTransaction) (s s' : Blockchain) : Type 0 where
    pub sender : Account
    pub found : Map.get text_dec tx.payload.from_ s.accounts ≡ some sender
    pub fresh : Map.get key_dec (key tx) s.mempool ≡ none
    pub decomposes : decompose tx.payload.fee_selector tx.payload.fee ≡ ok (fees tx)
    pub funded_c : total_c tx ≤ sender.balance.consumer - sender.pending_consumer
    pub funded_i : total_i tx ≤ sender.balance.industrial - sender.pending_industrial
    pub nonce : tx.payload.nonce ≡ next_nonce sender
    pub signed : verify_signed_tx crypto tx ≡ true
    pub after : s' ≡ record s {
      accounts =
          Map.insert text_dec tx.payload.from_
            (reserve (total_c tx) (total_i tx) sender)
            s.accounts;
      mempool = Map.insert key_dec (key tx) tx s.mempool;
    }

  -- A submission is either refused with the state unchanged, or every check holds and exactly the
  -- reservation and the mempool entry are written.
  pub submit_outcome :
      (tx : SignedTransaction) (s : Blockchain)
      → let (r, s') = submit_transaction crypto tx s in
        ((r ≢ ok tt) × (s' ≡ s)) ⊎ ((r ≡ ok tt) × IsAdmitted tx s s')
  unfolding submit_transaction fees
  submit_outcome tx s = elim (Option-cases (Map.get key_dec (key tx) s.mempool)) [
    | inr (_, old) ↦ inl (ground arith, ground arith)
    | inl fresh ↦ elim (Option-cases (Map.get text_dec tx.payload.from_ s.accounts)) [
      | inl missing ↦ inl (ground arith, ground arith)
      | inr (sender, found) ↦
          elim (Result-cases (decompose tx.payload.fee_selector tx.payload.fee)) [
            | inr (e, failed) ↦ inl (ground arith, ground arith)
            | inl (r, split) ↦ elim (Bool-cases (verify_signed_tx crypto tx)) [
              | inr forged ↦ inl (ground arith, ground arith)
              | inl signed ↦ elim (Bool-cases (tx.payload.nonce == next_nonce sender)) [
                | inr skipped ↦ inl (ground arith, ground arith)
                | inl nonce ↦ elim (Bool-cases (insufficient sender (total_c tx) (total_i tx))) [
                  | inl poor ↦ inl (ground arith, ground arith)
                  | inr rich ↦ elim (Bool-cases (ltb 2 tx.payload.fee_selector)) [
                    | inl reserved ↦ inl (ground arith, ground arith)
                    | inr plain ↦ inr (
                      ground arith,
                      record {
                        sender = sender;
                        found = found;
                        fresh = fresh;
                        decomposes = ground arith;
                        funded_c = ground arith;
                        funded_i = ground arith;
                        nonce = ground arith;
                        signed = signed;
                        after = ground arith;
                      },
                    )
                  ]
                ]
              ]
            ]
          ]
    ]
  ]

-- The state after an accepted submission.
abbrev pub admitted : SignedTransaction → Blockchain → Account → Blockchain
admitted tx s sender = record s {
  accounts =
      Map.insert text_dec tx.payload.from_ (reserve (total_c tx) (total_i tx) sender) s.accounts;
  mempool = Map.insert key_dec (key tx) tx s.mempool;
}

module _ (tx : SignedTransaction) (s : Blockchain) (sender : Account)
    (found : Map.get text_dec tx.payload.from_ s.accounts ≡ some sender)
    (fresh : Map.get key_dec (key tx) s.mempool ≡ none)
    (split : decompose tx.payload.fee_selector tx.payload.fee ≡ ok (fees tx))
    (funded_c : total_c tx ≤ sender.balance.consumer - sender.pending_consumer)
    (funded_i : total_i tx ≤ sender.balance.industrial - sender.pending_industrial)
    (room : length s.mempool + 1 < 2 ^ 64) (before : IsConsistent s) where
  admitted-IsMempool : IsMempool (admitted tx s sender)
  admitted-IsMempool = record {
    unique = Map.insert-IsUnique key_dec (key tx) tx s.mempool before.mempool.unique;
    keyed = λ k t e. elim (Map.get-insert_inv key_dec k (key tx) tx t s.mempool e) [
      | inl (p, q) ↦ p ∙ ap key q
      | inr (_, old) ↦ before.mempool.keyed k t old
    ];
    known = λ k t e. elim (Map.get-insert_inv key_dec k (key tx) tx t s.mempool e) [
      | inl (_, q) ↦ rw (← q, Map.get-insert_self) (λ n. cc n)
      | inr (_, old) ↦
          Map.get-insert-ne-none text_dec t.payload.from_ tx.payload.from_ _ s.accounts
            (before.mempool.known k t old)
    ];
    decomposes = λ k t e. elim (Map.get-insert_inv key_dec k (key tx) tx t s.mempool e) [
      | inl (_, q) ↦ rw (← q) split
      | inr (_, old) ↦ before.mempool.decomposes k t old
    ];
  }

  total-admitted :
      (f : SignedTransaction → ℕ)
      → total f (values (admitted tx s sender).mempool) ≡ total f (values s.mempool) + f tx
  total-admitted f = Map.total-insert_new key_dec f (key tx) tx s.mempool fresh

  sender-IsReserved :
      IsReserved
        (values (admitted tx s sender).mempool)
        tx.payload.from_
        (reserve (total_c tx) (total_i tx) sender)
  sender-IsReserved =
      let a = tx.payload.from_ in
      let old = before.reserved a sender found in
      record {
        nonce =
            ground (arith, total-admitted (of_sender one a), old.nonce, total-one-le a s.mempool);
        consumer =
            ground (arith, total-admitted (of_sender total_c a), old.consumer, old.range_consumer);
        industrial =
            ground
              (arith, total-admitted (of_sender total_i a), old.industrial, old.range_industrial);
        covered_consumer = omega (arith, old.covered_consumer);
        covered_industrial = omega (arith, old.covered_industrial);
        range_consumer = old.range_consumer;
        range_industrial = old.range_industrial;
      }

  other-IsReserved :
      (a : Text) (acc : Account)
      → a ≢ tx.payload.from_
      → IsReserved (values s.mempool) a acc
      → IsReserved (values (admitted tx s sender).mempool) a acc
  other-IsReserved a acc ne old = record {
    nonce = ground (arith, total-admitted (of_sender one a));
    consumer = ground (arith, total-admitted (of_sender total_c a));
    industrial = ground (arith, total-admitted (of_sender total_i a));
    covered_consumer = old.covered_consumer;
    covered_industrial = old.covered_industrial;
    range_consumer = old.range_consumer;
    range_industrial = old.range_industrial;
  }

  pub admitted-IsConsistent : IsConsistent (admitted tx s sender)
  admitted-IsConsistent = record {
    mempool = admitted-IsMempool;
    reserved = λ a acc e. elim (Map.get-insert_inv text_dec a tx.payload.from_ _ acc s.accounts e) [
      | inl (p, q) ↦ rw (p, ← q) sender-IsReserved
      | inr (ne, old) ↦ other-IsReserved a acc ne (before.reserved a acc old)
    ];
  }

-- A submission keeps the mempool and the reservations consistent, whether it is accepted or not, as
-- long as fewer than 2 ^ 64 - 1 transactions wait.
pub submit-IsConsistent :
    (crypto : Crypto) (tx : SignedTransaction) (s : Blockchain)
    → length s.mempool + 1 < 2 ^ 64
    → IsConsistent s
    → IsConsistent (submit_transaction crypto tx s).1
submit-IsConsistent crypto tx s room h = elim (submit_outcome crypto tx s) [
  | inl (_, same) ↦ rw same h
  | inr (_, adm) ↦ rw adm.after (
      admitted-IsConsistent tx s adm.sender adm.found adm.fresh adm.decomposes adm.funded_c
        adm.funded_i room h)
]
