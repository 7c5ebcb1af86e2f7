-- ===== src/Node/Served.antt =====
-- What a node keeps on which nothing is dropped: a valid chain, and waiting transactions that can
-- follow it. Each call of `add_account`, `submit_transaction` and `mine_block` keeps it.
use the_block.Prelude.{
  ℕ, suc, ◌+◌, ◌^◌, ◌<◌, ◌≤◌, ◌≡◌, ◌≢◌, ap, ◌∙◌, sym, inl, inr, Option-cases, ◌∷◌, true, Text,
  text_dec, key_dec, arith, All, All_mono, length,
}
use the_block.Prelude.Result.{ok}
use the_block.Prelude.Map
use the_block.Prelude.Map.{HashMap, values, total}
use the_block.Transaction.{Crypto, SignedTransaction}
use the_block.Ledger.{Block, Blockchain, new_account}
use the_block.Ledger.Accounts.{add_account}
use the_block.Mempool.{key, submit_transaction}
use the_block.Mempool.Reserve.{of_sender, one}
use the_block.Mempool.Submit.{submit_outcome}
use the_block.Store.{Codec}
use the_block.Apply.{zero_address}
use the_block.Validate.Counts.{nonce_of}
use the_block.Validate.Distinct.{AllDistinct}
use the_block.ValidChain.{is_valid_chain}
use the_block.ValidChain.Sound.{IsSigned}
use the_block.ValidChain.Equivalent.{IsInRange}
use the_block.Mining.{coinbase, mine_block}
use the_block.Mining.Ready.{IsReady}
use the_block.Mining.Steps.{mine_steps}
use the_block.Mining.Supply.{mine_block-IsNeutral}
use the_block.Mining.Consecutive.{HasNoGap}
use the_block.Mining.Nonces.{nonce_of-insert_same}
use the_block.Mining.Accepted.{IsOrderly}
use the_block.Mining.Accepted
use the_block.Node.{IsPlain}
use the_block.Node.Orderly.{new-HasNoGap, admitted-IsOrderly, one_more_waits}
use the_block.Node.Extends.{extended-IsInRange, mined_chain_valid}

-- A state whose chain is valid, and whose waiting transactions can follow it: they are signed, leave
-- no gap, and no nonce used or waiting is above `top`.
pub record IsServed (crypto : Crypto) (top : ℕ) (s : Blockchain) : Type 0 where
  pub orderly : IsOrderly s
  pub nonces :
      (a : Text)
      → a ≢ zero_address
      → nonce_of s.accounts a + total (of_sender one a) (values s.mempool) ≤ top
  pub signed : All (IsSigned crypto) (values s.mempool)
  pub below : All (λ t. t.payload.nonce + 1 < 2 ^ 64) (values s.mempool)
  pub in_range : All IsInRange s.chain
  pub valid : is_valid_chain crypto s.chain s.difficulty ≡ ok true

module _ (crypto : Crypto) (top : ℕ) (s : Blockchain) (v : IsServed crypto top s) where
  pub added-IsServed :
      (address : Text) (consumer industrial : ℕ) {s' : Blockchain}
      → add_account address consumer industrial s ≡ (ok tt, s')
      → IsServed crypto (suc top) s'
  unfolding add_account
  added-IsServed address consumer industrial {s'} e =
      elim (Option-cases (Map.get text_dec address s.accounts)) [
        | inr (acc, old) ↦ absurd (ground arith)
        | inl new ↦
            let fresh = new_account address consumer industrial in
            let accounts = Map.insert text_dec address fresh s.accounts in
            let after : s' ≡ record s { accounts = accounts } = ground arith in
            let same : (a : Text) → nonce_of accounts a ≡ nonce_of s.accounts a =
              λ a. nonce_of-insert_same a address fresh s.accounts (ground arith) in
            rw after (record {
              orderly = record {
                gaps =
                    All_mono (λ t. HasNoGap s.accounts t (values s.mempool))
                      (λ t. HasNoGap accounts t (values s.mempool)) (values s.mempool)
                      (λ t g. record {
                        above = omega (arith, g.above, same t.payload.from_);
                        within = omega (arith, g.within, same t.payload.from_);
                      })
                      v.orderly.gaps;
                nonces = λ a nz. omega (arith, same a, v.orderly.nonces a nz);
                room = v.orderly.room;
              };
              nonces = λ a nz. omega (arith, same a, v.nonces a nz);
              signed = v.signed;
              below = v.below;
              in_range = v.in_range;
              valid = v.valid;
            })
      ]

  pub submitted-IsServed :
      (tx : SignedTransaction) {s' : Blockchain}
      → IsReady s
      → IsPlain tx
      → length s.mempool + 2 < 2 ^ 64
      → top + 2 < 2 ^ 64
      → submit_transaction crypto tx s ≡ (ok tt, s')
      → IsServed crypto (suc top) s'
  submitted-IsServed tx {s'} ready plain room fits e = elim (submit_outcome crypto tx s) [
    | inl (refused, _) ↦ absurd (refused (ap (λ r. r.0) e))
    | inr (_, adm) ↦
        let t = (submit_transaction crypto tx s).1 in
        let a = tx.payload.from_ in
        let used = v.nonces a plain.ordinary in
        let now : nonce_of s.accounts a + total (of_sender one a) (values s.mempool) + 1 < 2 ^ 64 =
          omega (arith, used, fits) in
        let orderly = admitted-IsOrderly crypto tx s t adm ready.consistent v.orderly room now in
        let next = new-HasNoGap crypto tx s t adm ready.consistent v.orderly room now in
        let more = one_more_waits crypto tx s t adm ready.consistent v.orderly room now in
        rw (sym (ap (λ r. r.1) e) ∙ adm.after) (record {
          orderly = orderly;
          nonces = λ b nz. omega (arith, v.nonces b nz, more b);
          signed =
              Map.All-insert key_dec (IsSigned crypto) (key tx) tx s.mempool (inr adm.signed)
                v.signed;
          below =
              Map.All-insert key_dec _ (key tx) tx s.mempool
                (omega (arith, next.within, more a, used, fits)) v.below;
          in_range = v.in_range;
          valid = v.valid;
        })
  ]

  pub mined-IsServed :
      (codec : Codec) (miner_addr : Text) (block : Block) {s' : Blockchain}
      → IsReady s
      → AllDistinct crypto
          (coinbase miner_addr block.coinbase_consumer block.coinbase_industrial ∷ values s.mempool)
      → top < 2 ^ 64
      → mine_block crypto codec miner_addr s ≡ (ok block, s')
      → IsServed crypto (suc top) s'
  mined-IsServed codec miner_addr block {s'} ready apart fits e =
      let m = mine_steps crypto codec miner_addr s e in
      let (_, _, empty, _) = mine_block-IsNeutral crypto codec miner_addr s s' block ready e in
      let chain = Accepted.chain_is crypto codec miner_addr s s' block ready v.orderly m in
      let nonce : (a : Text) → a ≢ zero_address → nonce_of s'.accounts a ≤ top = λ a nz. omega (
        arith,
        v.nonces a nz,
        Accepted.mined_nonce crypto codec miner_addr s s' block ready v.orderly m a nz,
      ) in
      record {
        orderly = record {
          gaps = rw empty tt;
          nonces = λ a nz. rw empty (omega (arith, nonce a nz, fits));
          room = rw empty (omega arith);
        };
        nonces = λ a nz. rw empty (omega (arith, nonce a nz));
        signed = rw empty tt;
        below = rw empty tt;
        in_range = rw chain (
            extended-IsInRange crypto codec miner_addr s s' block ready v.orderly v.below v.in_range
              e);
        valid =
            mined_chain_valid crypto codec miner_addr s s' block ready v.orderly apart v.signed
              v.below v.in_range v.valid e;
      }
