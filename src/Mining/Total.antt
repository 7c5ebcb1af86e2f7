-- ===== src/Mining/Total.antt =====
-- In a ready state `mine_block` cannot fail by arithmetic: the fees, the coinbase and the credit of
-- the miner fit in 64 bits.
use the_block.Prelude.{
  ℕ, zero, suc, ◌+◌, ◌^◌, ◌≤◌, ◌<◌, ◌≡◌, ◌⊎◌, inl, inr, refl, some, Text, text_dec, arith, ap, ◌∙◌,
  Option-cases,
}
use the_block.Prelude.Result.{ok, err, Result-cases}
use the_block.Prelude.Map
use the_block.Prelude.Map.{values, total}
use the_block.Transaction.{Crypto}
use the_block.Ledger.{Block, Blockchain}
use the_block.Ledger.Action.{PyError, nonce_overflow, serialization_error, Outcome-cases}
use the_block.Store.{Codec, persist_chain, disk_of}
use the_block.Rewards.{max_supply_consumer, max_supply_industrial, decay, cap_reward, fee_loop}
use the_block.Rewards.Laws.{fee_c, fee_i, cap_reward_bounds}
use the_block.Order.{sort_pending}
use the_block.Apply.{apply_txs, credit_miner}
use the_block.Apply.Funded.{supply_c, supply_i}
use the_block.Search.{search_nonce, rounds}
use the_block.Search.Total.{search_nonce_total}
use the_block.Validate.Sound.{HexRoundTrips}
use the_block.Validate.Safe.{block_decodes}
use the_block.Mining.{Draft, prepare, commit, mine_block}
use the_block.Mining.Prepare.{IsPrepared, prepare_outcome, miner_before, applied}
use the_block.Mining.Ready.{IsReady, ready_burns}

-- What the miner has is part of what all have.
miner-le :
    (m : Text) (s : Blockchain)
    → ((miner_before m s).balance.consumer ≤ supply_c s.accounts)
      × ((miner_before m s).balance.industrial ≤ supply_i s.accounts)
unfolding Map.entry_or
miner-le m s = elim (Option-cases (Map.get text_dec m s.accounts)) [
  | inl new ↦ (ground arith, ground arith)
  | inr (a, old) ↦ (
    ground (arith, Map.le-total text_dec (λ a. a.balance.consumer) m a s.accounts old),
    ground (arith, Map.le-total text_dec (λ a. a.balance.industrial) m a s.accounts old),
  )
]

credit_miner_succeeds :
    (m : Text) (c i : ℕ) (s : Blockchain)
    → (miner_before m s).balance.consumer + c < 2 ^ 64
    → (miner_before m s).balance.industrial + i < 2 ^ 64
    → (credit_miner m c i s).0 ≡ ok tt
unfolding credit_miner
credit_miner_succeeds m c i s hc hi = ground arith

prepare_succeeds :
    (crypto : Crypto) (m : Text) (s : Blockchain)
    → (fee_loop 0 0 (sort_pending (values s.mempool))).0
        + cap_reward max_supply_consumer s.emission_consumer (decay s.block_reward_consumer)
      < 2 ^ 64
    → (fee_loop 0 0 (sort_pending (values s.mempool))).1
        + cap_reward max_supply_industrial s.emission_industrial (decay s.block_reward_industrial)
      < 2 ^ 64
    → (d : Draft) × (s1 : Blockchain) × (prepare crypto m s ≡ (ok d, s1))
unfolding prepare
prepare_succeeds crypto m s hc hi = elim (Outcome-cases (prepare crypto m s)) [
  | inl found ↦ found
  | inr (e, s1, p) ↦ absurd (ground arith)
]

search_raises :
    (crypto : Crypto) (b : Block) (fuel nonce : ℕ) {e : PyError}
    → HexRoundTrips crypto
    → search_nonce crypto b fuel nonce ≡ some (err e)
    → e ≡ nonce_overflow
unfolding search_nonce
search_raises crypto b zero nonce hex h = cc
search_raises crypto b (suc fuel) nonce {e} hex h =
    let (bytes, decoded) = block_decodes crypto hex (record b { nonce = nonce }) in
    ground (arith, decoded, search_raises crypto b fuel (nonce + 1) {e = e} hex)

module _ (crypto : Crypto) (codec : Codec) (m : Text) (s : Blockchain) (h : IsReady s)
    (more_c : supply_c s.accounts + decay s.block_reward_consumer < 2 ^ 64)
    (more_i : supply_i s.accounts + decay s.block_reward_industrial < 2 ^ 64) where
  fees_fit :
      ((fee_loop 0 0 (sort_pending (values s.mempool))).0
          + cap_reward max_supply_consumer s.emission_consumer (decay s.block_reward_consumer)
        < 2 ^ 64)
      × ((fee_loop 0 0 (sort_pending (values s.mempool))).1
            + cap_reward max_supply_industrial s.emission_industrial
                (decay s.block_reward_industrial)
          < 2 ^ 64)
  fees_fit =
      let (sums, bc, bi) = ready_burns s h in
      let cc_ =
        (cap_reward_bounds max_supply_consumer s.emission_consumer (decay s.block_reward_consumer)
          h.emitted_c h.reward_c).1 in
      let ci_ =
        (cap_reward_bounds max_supply_industrial s.emission_industrial
          (decay s.block_reward_industrial) h.emitted_i h.reward_i).1 in
      rw sums (omega arith, omega arith)

  module _ (d : Draft) (s1 : Blockchain) (p : IsPrepared m s s1 d) (nonce : ℕ) (digest : Text) where
    credit_fits :
        ((miner_before m (applied d nonce digest s1)).balance.consumer + d.block.coinbase_consumer
          < 2 ^ 64)
        × ((miner_before m (applied d nonce digest s1)).balance.industrial
              + d.block.coinbase_industrial
            < 2 ^ 64)
    credit_fits =
        let txs = sort_pending (values s.mempool) in
        let mid = applied d nonce digest s1 in
        let (sums, bc, bi) = ready_burns s h in
        let e : mid.accounts ≡ apply_txs txs s.accounts = rw (p.after, p.pending) refl in
        let le = miner-le m mid in
        let sc : supply_c mid.accounts ≡ supply_c (apply_txs txs s.accounts) = ap supply_c e in
        let si : supply_i mid.accounts ≡ supply_i (apply_txs txs s.accounts) = ap supply_i e in
        let loop : fee_loop 0 0 d.pending ≡ (total fee_c txs, total fee_i txs) =
          rw p.pending sums in
        let fc : d.block.coinbase_consumer ≡ d.reward_c + total fee_c txs =
          p.coinbase_c ∙ ap (λ q. d.reward_c + q.0) loop in
        let fi : d.block.coinbase_industrial ≡ d.reward_i + total fee_i txs =
          p.coinbase_i ∙ ap (λ q. d.reward_i + q.1) loop in
        let rc =
          cap_reward_bounds max_supply_consumer s.emission_consumer (decay s.block_reward_consumer)
            h.emitted_c h.reward_c in
        let ri =
          cap_reward_bounds max_supply_industrial s.emission_industrial
            (decay s.block_reward_industrial) h.emitted_i h.reward_i in
        (
          omega (arith, le.0, sc, fc, bc, rc, p.reward_c),
          omega (arith, le.1, si, fi, bi, ri, p.reward_i),
        )

    commit_succeeds :
        (b : Block) × (s2 : Blockchain) × (commit crypto m d nonce digest s1 ≡ (ok b, s2))
    unfolding commit
    commit_succeeds = elim (Outcome-cases (commit crypto m d nonce digest s1)) [
      | inl found ↦ found
      | inr (e, s2, q) ↦ absurd (
          ground (
            arith,
            credit_miner_succeeds m d.block.coinbase_consumer d.block.coinbase_industrial
                (applied d nonce digest s1) credit_fits.0 credit_fits.1,
          ))
    ]

-- In a ready state, if all balances and the next rewards together stay below 2 ^ 64 and hex decoding
-- reads what hex encoding writes, then `mine_block` returns a block, or raises for one of two reasons:
-- no nonce of 64 bits meets the difficulty, or the state cannot be serialized. It does not panic.
pub mine_block_total :
    (crypto : Crypto) (codec : Codec) (miner_addr : Text) (s : Blockchain)
    → IsReady s
    → supply_c s.accounts + decay s.block_reward_consumer < 2 ^ 64
    → supply_i s.accounts + decay s.block_reward_industrial < 2 ^ 64
    → HexRoundTrips crypto
    → ((b : Block) × ((mine_block crypto codec miner_addr s).0 ≡ ok b))
      ⊎ (((mine_block crypto codec miner_addr s).0 ≡ err nonce_overflow)
          ⊎ ((mine_block crypto codec miner_addr s).0 ≡ err serialization_error))
unfolding mine_block persist_chain
mine_block_total crypto codec miner_addr s h more_c more_i hex =
    let fit = fees_fit crypto codec miner_addr s h more_c more_i in
    let (d, s1, p) = prepare_succeeds crypto miner_addr s fit.0 fit.1 in
    let (found, q) = search_nonce_total crypto d.block in
    elim (Result-cases found) [
      | inr (e, bad) ↦
          let why = search_raises crypto d.block rounds 0 {e = e} hex (q ∙ ap (λ r. some r) bad) in
          inr (inl (ground (arith, why)))
      | inl (won, good) ↦
          let (b, s2, c) =
            commit_succeeds crypto codec miner_addr s h more_c more_i d s1
              (prepare_outcome crypto miner_addr s p) won.0 won.1 in
          elim (Option-cases (codec.serialize_disk (disk_of s2))) [
            | inl broken ↦ inr (inr (ground arith))
            | inr (bytes, fine) ↦ inl (b, ground arith)
          ]
    ]
