-- ===== src/Mempool/RoundTrip.antt =====
-- Submission and drop against each other.
use the_block.Prelude.{
  ℕ, ◌+◌, ◌-◌, ◌^◌, ◌≤◌, ◌<◌, ◌≡◌, ◌≢◌, inl, inr, some, none, text_dec, key_dec, arith, sym, ◌∙◌,
  ap, length,
}
use the_block.Prelude.Result.{Result, ok}
use the_block.Prelude.Map
use the_block.Fee.{decompose}
use the_block.Transaction.{Crypto, SignedTransaction}
use the_block.Ledger.{Account, Blockchain}
use the_block.Ledger.Action.{PyError}
use the_block.Mempool.{key, reserve, release, next_nonce, submit_transaction, drop_transaction}
use the_block.Mempool.Reserve.{fees, total_c, total_i, total-one-le, IsConsistent}
use the_block.Mempool.Submit.{IsAdmitted, admitted, submit_outcome}
use the_block.Mempool.Drop.{dropped, drop-dropped}

-- The reservation and its release cancel.
release-reserve :
    (tx : SignedTransaction) (s : Blockchain) (acc : Account)
    → Map.get text_dec tx.payload.from_ s.accounts ≡ some acc
    → IsConsistent s
    → length s.mempool + 1 < 2 ^ 64
    → total_c tx ≤ acc.balance.consumer - acc.pending_consumer
    → total_i tx ≤ acc.balance.industrial - acc.pending_industrial
    → release (total_c tx) (total_i tx) (reserve (total_c tx) (total_i tx) acc) ≡ acc
release-reserve tx s acc found h room fc fi =
    let old = h.reserved tx.payload.from_ acc found in
    ground (
      arith,
      old.nonce,
      old.covered_consumer,
      old.covered_industrial,
      old.range_consumer,
      old.range_industrial,
      total-one-le tx.payload.from_ s.mempool,
    )

restored :
    (tx : SignedTransaction) (s : Blockchain) (acc : Account)
    → Map.get text_dec tx.payload.from_ s.accounts ≡ some acc
    → Map.get key_dec (key tx) s.mempool ≡ none
    → IsConsistent s
    → length s.mempool + 1 < 2 ^ 64
    → total_c tx ≤ acc.balance.consumer - acc.pending_consumer
    → total_i tx ≤ acc.balance.industrial - acc.pending_industrial
    → ◌≡◌ {A = Result PyError (Unit {0}) × Blockchain}
        (ok tt, dropped tx (admitted tx s acc) (reserve (total_c tx) (total_i tx) acc))
        (ok tt, s)
restored tx s acc found fresh h room fc fi =
    let a = tx.payload.from_ in
    let same =
      Map.insert-insert_self text_dec a
        (release (total_c tx) (total_i tx) (reserve (total_c tx) (total_i tx) acc))
        (reserve (total_c tx) (total_i tx) acc) s.accounts
      ∙ ap (λ v. Map.insert text_dec a v s.accounts) (release-reserve tx s acc found h room fc fi)
      ∙ Map.insert_same text_dec a acc s.accounts found in
    let gone = Map.remove-insert_new key_dec (key tx) tx s.mempool fresh in
    λ i. (ok tt, record s { accounts = same i; mempool = gone i })

-- From a consistent state with fewer than 2 ^ 64 - 1 waiting transactions: if a transaction is
-- accepted, dropping it again succeeds and gives back exactly the state before.
pub drop-submit :
    (crypto : Crypto) (tx : SignedTransaction) (s : Blockchain)
    → length s.mempool + 1 < 2 ^ 64
    → IsConsistent s
    → (submit_transaction crypto tx s).0 ≡ ok tt
    → drop_transaction tx.payload.from_ tx.payload.nonce (submit_transaction crypto tx s).1
      ≡ (ok tt, s)
drop-submit crypto tx s room h done = elim (submit_outcome crypto tx s) [
  | inl (refused, _) ↦ absurd (refused done)
  | inr (_, adm) ↦ rw adm.after (
      drop-dropped tx (admitted tx s adm.sender) (reserve (total_c tx) (total_i tx) adm.sender)
        (Map.get-insert_self text_dec tx.payload.from_ _ s.accounts)
        (Map.get-insert_self key_dec (key tx) tx s.mempool) adm.decomposes
      ∙ restored tx s adm.sender adm.found adm.fresh h room adm.funded_c adm.funded_i)
]

next_nonce_back :
    (c d e f : ℕ) (a : Account)
    → a.pending_nonce + 2 < 2 ^ 64
    → next_nonce (release c d (reserve e f (reserve c d a))) ≡ next_nonce (reserve c d a)
next_nonce_back c d e f a h = omega arith

accepted :
    (crypto : Crypto) (tx : SignedTransaction) (s : Blockchain)
    → (submit_transaction crypto tx s).0 ≡ ok tt
    → IsAdmitted crypto tx s (submit_transaction crypto tx s).1
accepted crypto tx s done = elim (submit_outcome crypto tx s) [
  | inl (refused, _) ↦ absurd (refused done)
  | inr (_, adm) ↦ adm
]

-- After two accepted submissions and the drop of the first, the next nonce is that of the second.
module _ (t u : SignedTransaction) (s : Blockchain) (a : Account)
    (same : u.payload.from_ ≡ t.payload.from_) (room : a.pending_nonce + 2 < 2 ^ 64)
    (split : decompose t.payload.fee_selector t.payload.fee ≡ ok (fees t))
    (fresh : Map.get key_dec (key u) (admitted t s a).mempool ≡ none) (b : Account)
    (found : Map.get text_dec u.payload.from_ (admitted t s a).accounts ≡ some b)
    (next : u.payload.nonce ≡ next_nonce b) where
  abbrev after_both : Blockchain
  after_both = admitted u (admitted t s a) b

  b-reserve : reserve (total_c t) (total_i t) a ≡ b
  b-reserve = ground (
    arith,
    Map.get-insert_self text_dec t.payload.from_ (reserve (total_c t) (total_i t) a) s.accounts,
  )

  distinct : key t ≢ key u
  distinct = λ e. cc (
    fresh,
    ap (λ k. Map.get key_dec k (admitted t s a).mempool) e,
    Map.get-insert_self key_dec (key t) t s.mempool,
  )

  t_waits : Map.get key_dec (key t) after_both.mempool ≡ some t
  t_waits =
      Map.get-insert_ne key_dec (key t) (key u) u (admitted t s a).mempool distinct
      ∙ Map.get-insert_self key_dec (key t) t s.mempool

  abbrev b_after : Account
  b_after = reserve (total_c u) (total_i u) b

  b_found : Map.get text_dec t.payload.from_ after_both.accounts ≡ some b_after
  b_found =
      ap (λ q. Map.get text_dec q after_both.accounts) (sym same)
      ∙ Map.get-insert_self text_dec u.payload.from_ b_after (admitted t s a).accounts

  dropped_first :
      drop_transaction t.payload.from_ t.payload.nonce after_both
      ≡ (ok tt, dropped t after_both b_after)
  dropped_first = drop-dropped t after_both b_after b_found t_waits split

  u_waits : Map.get key_dec (key u) (dropped t after_both b_after).mempool ≡ some u
  u_waits =
      Map.get-remove_ne key_dec (key u) (key t) after_both.mempool (λ e. distinct (sym e))
      ∙ Map.get-insert_self key_dec (key u) u (admitted t s a).mempool

  blocked :
      (crypto : Crypto) (v : SignedTransaction) (s' : Blockchain)
      → v.payload.from_ ≡ t.payload.from_
      → IsAdmitted crypto v (dropped t after_both b_after) s'
      → ⊥
  blocked crypto v s' ev adm =
      let w =
        Map.get-insert_self text_dec t.payload.from_ (release (total_c t) (total_i t) b_after)
          after_both.accounts in
      let sender : release (total_c t) (total_i t) b_after ≡ adm.sender =
        ground (arith, w, adm.found) in
      let n : v.payload.nonce ≡ u.payload.nonce =
        adm.nonce
        ∙ ap next_nonce (sym sender)
        ∙ rw (← b-reserve) (next_nonce_back (total_c t) (total_i t) (total_c u) (total_i u) a room)
        ∙ ap next_nonce b-reserve
        ∙ sym next in
      let k : key v ≡ key u = λ i. ((ev ∙ sym same) i, n i) in
      cc (adm.fresh, ap (λ q. Map.get key_dec q (dropped t after_both b_after).mempool) k, u_waits)

-- Two transactions of one sender are accepted one after the other, and the first is dropped. Then
-- every further transaction of that sender is refused: the nonce that it would need is that of the
-- second, which still waits. The start is a consistent state with fewer than 2 ^ 64 - 2 waiting
-- transactions.
pub drop_first_blocks :
    (crypto : Crypto) (t u v : SignedTransaction) (s : Blockchain)
    → u.payload.from_ ≡ t.payload.from_
    → v.payload.from_ ≡ t.payload.from_
    → length s.mempool + 2 < 2 ^ 64
    → IsConsistent s
    → (submit_transaction crypto t s).0 ≡ ok tt
    → (submit_transaction crypto u (submit_transaction crypto t s).1).0 ≡ ok tt
    → (submit_transaction crypto v
        (drop_transaction t.payload.from_ t.payload.nonce
          (submit_transaction crypto u (submit_transaction crypto t s).1).1).1).0
      ≢ ok tt
drop_first_blocks crypto t u v s eu ev room h first second third =
    let ta = accepted crypto t s first in
    let a = ta.sender in
    let p : a.pending_nonce + 2 < 2 ^ 64 = omega (
      arith,
      (h.reserved t.payload.from_ a ta.found).nonce,
      total-one-le t.payload.from_ s.mempool,
    ) in
    let ua = rw ta.after at (accepted crypto u (submit_transaction crypto t s).1 second) in
    let b = ua.sender in
    let last =
      rw (ta.after, ua.after, dropped_first t u s a eu p ta.decomposes ua.fresh b ua.found ua.nonce)
        at third in
    blocked t u s a eu p ta.decomposes ua.fresh b ua.found ua.nonce crypto v _ ev
      (accepted crypto v _ last)
