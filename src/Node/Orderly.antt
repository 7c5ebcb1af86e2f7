-- ===== src/Node/Orderly.antt =====
-- Accepted transactions leave no gap between the nonces that wait, since each must use the next one.
use the_block.Prelude.{
  ℕ, ◌+◌, ◌^◌, ◌<◌, ◌≤◌, ◌≡◌, refl, inl, inr, Text, text_dec, key_dec, arith, All_mono, length,
  if_pos, if_neg,
}
use the_block.Prelude.Map
use the_block.Prelude.Map.{HashMap, values, total}
use the_block.Transaction.{Crypto, SignedTransaction}
use the_block.Ledger.{Blockchain}
use the_block.Mempool.{key, reserve, submit_transaction}
use the_block.Mempool.Reserve.{total_c, total_i, of_sender, one, IsConsistent}
use the_block.Mempool.Submit.{IsAdmitted, submit_outcome, admitted}
use the_block.Mempool.Run.{length-insert}
use the_block.Validate.Counts.{nonce_of}
use the_block.Mining.Consecutive.{HasNoGap}
use the_block.Mining.Nonces.{nonce_of-insert_same}
use the_block.Mining.Accepted.{IsOrderly}
use the_block.Node.Accounts.{length-values}

module _ (crypto : Crypto) (tx : SignedTransaction) (s s' : Blockchain)
    (adm : IsAdmitted crypto tx s s') (consistent : IsConsistent s) (o : IsOrderly s)
    (room : length s.mempool + 2 < 2 ^ 64)
    (fits : nonce_of s.accounts tx.payload.from_
        + total (of_sender one tx.payload.from_) (values s.mempool)
        + 1
      < 2 ^ 64) where
  abbrev pub after : Blockchain
  after = admitted tx s adm.sender

  sender_nonce : adm.sender.nonce ≡ nonce_of s.accounts tx.payload.from_
  sender_nonce = ground (arith, adm.found)

  same_nonce : (a : Text) → nonce_of after.accounts a ≡ nonce_of s.accounts a
  same_nonce a =
      nonce_of-insert_same a tx.payload.from_ (reserve (total_c tx) (total_i tx) adm.sender)
        s.accounts sender_nonce

  one_more :
      (a : Text)
      → total (of_sender one a) (values after.mempool)
        ≡ total (of_sender one a) (values s.mempool) + of_sender one a tx
  one_more a = Map.total-insert_new key_dec (of_sender one a) (key tx) tx s.mempool adm.fresh

  pub one_more_waits :
      (a : Text)
      → nonce_of after.accounts a + total (of_sender one a) (values after.mempool)
        ≤ nonce_of s.accounts a + total (of_sender one a) (values s.mempool) + 1
  one_more_waits a = elim (text_dec a tx.payload.from_) [
    | yes p ↦
        omega (arith, same_nonce a, one_more a, if_pos {C = ℕ} (text_dec a tx.payload.from_) p 1 0)
    | no n ↦
        omega (arith, same_nonce a, one_more a, if_neg {C = ℕ} (text_dec a tx.payload.from_) n 1 0)
  ]

  own_share : of_sender one tx.payload.from_ tx ≡ 1
  own_share = if_pos {C = ℕ} (text_dec tx.payload.from_ tx.payload.from_) refl 1 0

  pub new-HasNoGap : HasNoGap after.accounts tx (values after.mempool)
  new-HasNoGap =
      let a = tx.payload.from_ in
      let waits = (consistent.reserved a adm.sender adm.found).nonce in
      record {
        above = omega (arith, same_nonce a, sender_nonce, adm.nonce, waits, fits);
        within =
            omega
              (arith, same_nonce a, sender_nonce, adm.nonce, waits, fits, one_more a, own_share);
      }

  old-HasNoGap :
      (t : SignedTransaction)
      → HasNoGap s.accounts t (values s.mempool)
      → HasNoGap after.accounts t (values after.mempool)
  old-HasNoGap t g =
      let a = t.payload.from_ in
      record {
        above = omega (arith, g.above, same_nonce a);
        within = omega (arith, g.within, same_nonce a, one_more a);
      }

  pub admitted-IsOrderly : IsOrderly after
  admitted-IsOrderly = record {
    gaps =
        Map.All-insert key_dec (λ t. HasNoGap after.accounts t (values after.mempool)) (key tx) tx
          s.mempool new-HasNoGap
          (All_mono _ (λ t. HasNoGap after.accounts t (values after.mempool)) (values s.mempool)
            old-HasNoGap o.gaps);
    nonces = λ a nz. elim (text_dec a tx.payload.from_) [
      | yes p ↦
          rw p
            (omega (arith, same_nonce tx.payload.from_, one_more tx.payload.from_, own_share, fits))
      | no n ↦ omega (
        arith,
        same_nonce a,
        one_more a,
        if_neg {C = ℕ} (text_dec a tx.payload.from_) n 1 0,
        o.nonces a nz,
      )
    ];
    room =
        omega
          (arith, length-values after.mempool, length-insert key_dec (key tx) tx s.mempool, room);
  }

-- A submission, accepted or not, leaves no gap between the nonces that wait, if there was none, the
-- reservations are right, and neither the transactions nor the sender's nonces run out of 64 bits:
-- so the blocks of a node on which nothing is dropped can be accepted (`mined_block_accepted`).
pub submit-IsOrderly :
    (crypto : Crypto) (tx : SignedTransaction) (s : Blockchain)
    → IsConsistent s
    → IsOrderly s
    → length s.mempool + 2 < 2 ^ 64
    → nonce_of s.accounts tx.payload.from_
        + total (of_sender one tx.payload.from_) (values s.mempool)
        + 1
      < 2 ^ 64
    → IsOrderly (submit_transaction crypto tx s).1
submit-IsOrderly crypto tx s consistent o room fits = elim (submit_outcome crypto tx s) [
  | inl (_, same) ↦ rw same o
  | inr (_, adm) ↦
      rw adm.after (
        admitted-IsOrderly crypto tx s (submit_transaction crypto tx s).1 adm consistent o room
          fits)
]
