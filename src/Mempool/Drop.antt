-- ===== src/Mempool/Drop.antt =====
-- What `drop_transaction` promises.
use the_block.Prelude.{
  ℕ, ◌+◌, ◌≡◌, ◌≢◌, ◌⊎◌, inl, inr, none, some, Text, text_dec, key_dec, arith, Option-cases, sym,
  subst,
}
use the_block.Prelude.Result.{ok, err}
use the_block.Prelude.Map
use the_block.Prelude.Map.{HashMap, values, total}
use the_block.Fee.{decompose}
use the_block.Transaction.{SignedTransaction}
use the_block.Ledger.{Account, Blockchain}
use the_block.Ledger.Action.{transaction_not_found}
use the_block.Mempool.{key, release, release_in, drop_transaction}
use the_block.Mempool.Reserve.{
  fees, total_c, total_i, of_sender, one, IsReserved, IsMempool, IsConsistent,
}

-- `drop_transaction` either finds nothing under the sender and nonce, raises and changes nothing;
-- or it finds a transaction, succeeds, takes it out of the mempool and releases its reservation in
-- the account of the sender, and changes nothing else.
pub drop_outcome :
    (sender : Text) (nonce : ℕ) (s : Blockchain)
    → let (r, s') = drop_transaction sender nonce s in
      ((Map.get key_dec (sender, nonce) s.mempool ≡ none)
        × (r ≡ err transaction_not_found)
        × (s' ≡ s))
      ⊎ ((tx : SignedTransaction) × (Map.get key_dec (sender, nonce) s.mempool ≡ some tx)
          × (r ≡ ok tt)
          × (s' ≡ record s {
            accounts = release_in sender tx s.accounts;
            mempool = Map.remove key_dec (sender, nonce) s.mempool;
          }))
unfolding drop_transaction
drop_outcome sender nonce s = elim (Option-cases (Map.get key_dec (sender, nonce) s.mempool)) [
  | inl missing ↦ inl (missing, ground arith, ground arith)
  | inr (tx, found) ↦ inr (tx, found, ground arith, ground arith)
]

-- The state after a transaction that is there was dropped.
abbrev pub dropped : SignedTransaction → Blockchain → Account → Blockchain
dropped tx s acc = record s {
  accounts =
      Map.insert text_dec tx.payload.from_ (release (total_c tx) (total_i tx) acc) s.accounts;
  mempool = Map.remove key_dec (key tx) s.mempool;
}

pub drop-dropped :
    (tx : SignedTransaction) (s : Blockchain) (acc : Account)
    → Map.get text_dec tx.payload.from_ s.accounts ≡ some acc
    → Map.get key_dec (key tx) s.mempool ≡ some tx
    → decompose tx.payload.fee_selector tx.payload.fee ≡ ok (fees tx)
    → drop_transaction tx.payload.from_ tx.payload.nonce s ≡ (ok tt, dropped tx s acc)
unfolding drop_transaction
drop-dropped tx s acc found there split = ground arith

module _ (tx : SignedTransaction) (s : Blockchain) (acc : Account)
    (found : Map.get text_dec tx.payload.from_ s.accounts ≡ some acc)
    (there : Map.get key_dec (key tx) s.mempool ≡ some tx) (before : IsConsistent s) where
  total-dropped :
      (f : SignedTransaction → ℕ)
      → total f (values (dropped tx s acc).mempool) + f tx ≡ total f (values s.mempool)
  total-dropped f = Map.total-remove key_dec f (key tx) tx s.mempool there

  sender-IsReserved :
      IsReserved
        (values (dropped tx s acc).mempool)
        tx.payload.from_
        (release (total_c tx) (total_i tx) acc)
  sender-IsReserved =
      let a = tx.payload.from_ in
      let old = before.reserved a acc found in
      record {
        nonce = ground (arith, total-dropped (of_sender one a), old.nonce);
        consumer = ground (arith, total-dropped (of_sender total_c a), old.consumer);
        industrial = ground (arith, total-dropped (of_sender total_i a), old.industrial);
        covered_consumer = omega (arith, old.covered_consumer);
        covered_industrial = omega (arith, old.covered_industrial);
        range_consumer = old.range_consumer;
        range_industrial = old.range_industrial;
      }

  other-IsReserved :
      (a : Text) (other : Account)
      → a ≢ tx.payload.from_
      → IsReserved (values s.mempool) a other
      → IsReserved (values (dropped tx s acc).mempool) a other
  other-IsReserved a other ne old = record {
    nonce = ground (arith, total-dropped (of_sender one a));
    consumer = ground (arith, total-dropped (of_sender total_c a));
    industrial = ground (arith, total-dropped (of_sender total_i a));
    covered_consumer = old.covered_consumer;
    covered_industrial = old.covered_industrial;
    range_consumer = old.range_consumer;
    range_industrial = old.range_industrial;
  }

  dropped-IsMempool : IsMempool (dropped tx s acc)
  dropped-IsMempool = record {
    unique = Map.remove-IsUnique key_dec (key tx) s.mempool before.mempool.unique;
    keyed = λ k t e. before.mempool.keyed k t (was k t e);
    known = λ k t e.
        Map.get-insert-ne-none text_dec t.payload.from_ tx.payload.from_ _ s.accounts
          (before.mempool.known k t (was k t e));
    decomposes = λ k t e. before.mempool.decomposes k t (was k t e);
  }
    where
      was :
          (k : Text × ℕ) (t : SignedTransaction)
          → Map.get key_dec k (dropped tx s acc).mempool ≡ some t
          → Map.get key_dec k s.mempool ≡ some t
      was k t e = (Map.get-remove_inv key_dec k (key tx) t s.mempool before.mempool.unique e).1

  pub dropped-IsConsistent : IsConsistent (dropped tx s acc)
  dropped-IsConsistent = record {
    mempool = dropped-IsMempool;
    reserved = λ a other e.
        elim (Map.get-insert_inv text_dec a tx.payload.from_ _ other s.accounts e) [
          | inl (p, q) ↦ rw (p, ← q) sender-IsReserved
          | inr (ne, old) ↦ other-IsReserved a other ne (before.reserved a other old)
        ];
  }

-- Dropping a transaction keeps the mempool and the reservations consistent, also if it is not
-- there.
pub drop-IsConsistent :
    (sender : Text) (nonce : ℕ) (s : Blockchain)
    → IsConsistent s
    → IsConsistent (drop_transaction sender nonce s).1
drop-IsConsistent sender nonce s h = elim (drop_outcome sender nonce s) [
  | inl (_, _, same) ↦ rw same h
  | inr (tx, there, _, after) ↦
      let k = h.mempool.keyed (sender, nonce) tx there in
      elim (Option-cases (Map.get text_dec tx.payload.from_ s.accounts)) [
        | inl missing ↦ absurd (h.mempool.known (sender, nonce) tx there missing)
        | inr (acc, found) ↦
            let there' : Map.get key_dec (key tx) s.mempool ≡ some tx = rw k at there in
            subst (λ q. IsConsistent (drop_transaction q.0 q.1 s).1) (sym k)
              (rw (drop-dropped tx s acc found there' (h.mempool.decomposes _ tx there'))
                (dropped-IsConsistent tx s acc found there' h))
      ]
]
