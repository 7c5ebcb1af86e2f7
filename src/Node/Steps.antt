-- ===== src/Node/Steps.antt =====
-- Each call of a run keeps what is kept.
use the_block.Prelude.{
  ℕ, suc, ◌+◌, ◌^◌, ◌<◌, ◌≡◌, refl, ap, ◌∙◌, inl, inr, Option-cases, sym, Text, text_dec, key_dec,
  arith, length,
}
use the_block.Prelude.Result.{ok}
use the_block.Prelude.Map
use the_block.Prelude.Map.{HashMap, values, total}
use the_block.Transaction.{Crypto, SignedTransaction}
use the_block.Ledger.{Account, Block, Blockchain, new_account}
use the_block.Ledger.Accounts.{add_account}
use the_block.Mempool.{key, reserve, submit_transaction, drop_transaction}
use the_block.Mempool.Reserve.{total_c, total_i}
use the_block.Mempool.Submit.{submit_outcome, submit-IsConsistent}
use the_block.Mempool.Drop.{drop_outcome, drop-IsConsistent}
use the_block.Mempool.Run.{add_account-IsConsistent, length-insert, length-remove}
use the_block.Store.{Codec}
use the_block.Rewards.{decay}
use the_block.Rewards.Laws.{decay_falls}
use the_block.Mining.{mine_block}
use the_block.Mining.Ready.{IsReady}
use the_block.Mining.Supply.{mine_block-IsNeutral}
use the_block.Node.{IsPlain}
use the_block.Node.Accounts.{supply_c-same, supply_i-same, release_in-IsReleased, stays-IsPayable}
use the_block.Node.Kept.{IsBounded, IsKept, kept-IsReady, mined_rewards, fewer}

module _ (start : Blockchain) (h : IsReady start) where
  module _ (n c i : ℕ) (s : Blockchain) (k : IsKept start n c i s) where
    pub added-IsKept :
        (address : Text) (consumer industrial : ℕ) {s' : Blockchain}
        → IsBounded start (suc n) (c + consumer) (i + industrial)
        → add_account address consumer industrial s ≡ (ok tt, s')
        → IsKept start (suc n) (c + consumer) (i + industrial) s'
    unfolding add_account
    added-IsKept address consumer industrial {s'} b e =
        elim (Option-cases (Map.get text_dec address s.accounts)) [
          | inr (acc, old) ↦ absurd (ground arith)
          | inl new ↦
              let fresh = new_account address consumer industrial in
              let after : s'
                  ≡ record s { accounts = Map.insert text_dec address fresh s.accounts } =
                ground arith in
              let fits : (consumer < 2 ^ 64) × (industrial < 2 ^ 64) =
                (omega (arith, b.money_c, h.emitted_c), omega (arith, b.money_i, h.emitted_i)) in
              let kept =
                add_account-IsConsistent address consumer industrial s fits.0 fits.1 k.consistent in
              rw after (record {
                consistent = rw (ap (λ r. r.1) e ∙ after) at kept;
                payable =
                    stays-IsPayable s.accounts _ (values s.mempool)
                      (λ a q. Map.get-insert-ne-none text_dec a address fresh s.accounts q)
                      k.payable;
                money_c = omega (
                  arith,
                  Map.total-insert_new text_dec (λ (x : Account). x.balance.consumer) address fresh
                      s.accounts new,
                  k.money_c,
                );
                money_i = omega (
                  arith,
                  Map.total-insert_new text_dec (λ (x : Account). x.balance.industrial) address
                      fresh s.accounts new,
                  k.money_i,
                );
                cap_c = k.cap_c;
                cap_i = k.cap_i;
                reward_c = k.reward_c;
                reward_i = k.reward_i;
                few = omega (arith, k.few);
              })
        ]

    pub submitted-IsKept :
        (crypto : Crypto) (tx : SignedTransaction) {s' : Blockchain}
        → IsBounded start (suc n) c i
        → IsPlain tx
        → submit_transaction crypto tx s ≡ (ok tt, s')
        → IsKept start (suc n) c i s'
    submitted-IsKept crypto tx {s'} b plain e = elim (submit_outcome crypto tx s) [
      | inl (refused, _) ↦ absurd (refused (ap (λ r. r.0) e))
      | inr (_, adm) ↦
          let a = tx.payload.from_ in
          let more = reserve (total_c tx) (total_i tx) adm.sender in
          let after = sym (ap (λ r. r.1) e) ∙ adm.after in
          let room : length s.mempool + 1 < 2 ^ 64 = omega (arith, k.few, b.room) in
          let kept = submit-IsConsistent crypto tx s room k.consistent in
          rw after (record {
            consistent = rw adm.after at kept;
            payable =
                Map.All-insert key_dec _ (key tx) tx s.mempool
                  (record {
                    known = λ q. ground (arith, q, Map.get-insert_self text_dec a more s.accounts);
                    ordinary = plain.ordinary;
                    no_wrap_c = plain.no_wrap_c;
                    no_wrap_i = plain.no_wrap_i;
                  })
                  (stays-IsPayable s.accounts _ (values s.mempool)
                    (λ x q. Map.get-insert-ne-none text_dec x a more s.accounts q) k.payable);
            money_c =
                omega (arith, supply_c-same a more adm.sender s.accounts adm.found refl, k.money_c);
            money_i =
                omega (arith, supply_i-same a more adm.sender s.accounts adm.found refl, k.money_i);
            cap_c = k.cap_c;
            cap_i = k.cap_i;
            reward_c = k.reward_c;
            reward_i = k.reward_i;
            few = omega (arith, length-insert key_dec (key tx) tx s.mempool, k.few);
          })
    ]

    pub dropped-IsKept :
        (sender : Text) (nonce : ℕ) {s' : Blockchain}
        → drop_transaction sender nonce s ≡ (ok tt, s')
        → IsKept start (suc n) c i s'
    dropped-IsKept sender nonce {s'} e = elim (drop_outcome sender nonce s) [
      | inl (_, refused, _) ↦ absurd (cc (ap (λ r. r.0) e, refused))
      | inr (tx, _, _, is) ↦
          let after = sym (ap (λ r. r.1) e) ∙ is in
          let less = release_in-IsReleased sender tx s.accounts in
          rw after (record {
            consistent = rw is at (drop-IsConsistent sender nonce s k.consistent);
            payable =
                Map.All-remove key_dec _ (sender, nonce) s.mempool
                  (stays-IsPayable s.accounts _ (values s.mempool) less.known k.payable);
            money_c = omega (arith, less.supply_consumer, k.money_c);
            money_i = omega (arith, less.supply_industrial, k.money_i);
            cap_c = k.cap_c;
            cap_i = k.cap_i;
            reward_c = k.reward_c;
            reward_i = k.reward_i;
            few = omega (arith, length-remove key_dec (sender, nonce) s.mempool, k.few);
          })
    ]

    pub mined-IsKept :
        (crypto : Crypto) (codec : Codec) (miner_addr : Text) (block : Block) {s' : Blockchain}
        → IsBounded start (suc n) c i
        → mine_block crypto codec miner_addr s ≡ (ok block, s')
        → IsKept start (suc n) c i s'
    mined-IsKept crypto codec miner_addr block {s'} b e =
        let ready = kept-IsReady start h n c i s k (fewer start n c i b) in
        let (neutral, consistent, empty, _) =
          mine_block-IsNeutral crypto codec miner_addr s s' block ready e in
        let (reward_c, reward_i) = mined_rewards crypto codec miner_addr s block e in
        record {
          consistent = consistent;
          payable = rw empty tt;
          money_c = omega (arith, neutral.supply_consumer, k.money_c);
          money_i = omega (arith, neutral.supply_industrial, k.money_i);
          cap_c = neutral.cap_c;
          cap_i = neutral.cap_i;
          reward_c = omega (
            arith,
            k.reward_c,
            reward_c,
            decay_falls (decay s.block_reward_consumer) (omega (arith, ready.reward_c)),
          );
          reward_i = omega (
            arith,
            k.reward_i,
            reward_i,
            decay_falls (decay s.block_reward_industrial) (omega (arith, ready.reward_i)),
          );
          few = rw empty (omega arith);
        }
