-- ===== src/Node/Typed/Credit.antt =====
-- The credit of the miner keeps every number within its type, also where it panics.
use the_block.Prelude.{ℕ, ◌^◌, ◌<◌, ◌≡◌, some, Text, text_dec, arith, All, inl, inr, Option-cases}
use the_block.Prelude.Map
use the_block.Prelude.Map.{HashMap, values}
use the_block.Prelude.Word.{checked_add}
use the_block.Ledger.{Account, Blockchain}
use the_block.Apply.{credit_miner}
use the_block.Mining.Prepare.{miner_before}
use the_block.Node.Typed.{IsAccount, IsTyped, entry-IsAccount, with_pool}

checked_add_lt : (a b : ℕ) {x : ℕ} → checked_add a b ≡ some x → x < 2 ^ 64
checked_add_lt a b e = ground arith

module _ (m : Text) (c i : ℕ) (s : Blockchain) (h : IsTyped s) where
  abbrev before : Account
  before = miner_before m s

  before-IsAccount : IsAccount before
  before-IsAccount = entry-IsAccount m s.accounts h.accounts

  abbrev paid : ℕ → Account
  paid x = record before { balance = record before.balance { consumer = x } }

  paid-IsAccount : (x : ℕ) → x < 2 ^ 64 → IsAccount (paid x)
  paid-IsAccount x lt = record {
    consumer = lt;
    industrial = before-IsAccount.industrial;
    nonce = before-IsAccount.nonce;
    pending_consumer = before-IsAccount.pending_consumer;
    pending_industrial = before-IsAccount.pending_industrial;
    pending_nonce = before-IsAccount.pending_nonce;
  }

  abbrev both : ℕ → ℕ → Account
  both x y = record (paid x) { balance = record { consumer = x; industrial = y } }

  both-IsAccount : (x y : ℕ) → x < 2 ^ 64 → y < 2 ^ 64 → IsAccount (both x y)
  both-IsAccount x y lx ly = record {
    consumer = lx;
    industrial = ly;
    nonce = before-IsAccount.nonce;
    pending_consumer = before-IsAccount.pending_consumer;
    pending_industrial = before-IsAccount.pending_industrial;
    pending_nonce = before-IsAccount.pending_nonce;
  }

  insert_keeps :
      (a : Account) (accounts : HashMap Text Account)
      → IsAccount a
      → All IsAccount (values accounts)
      → All IsAccount (values (Map.insert text_dec m a accounts))
  insert_keeps a accounts p k = Map.All-insert text_dec IsAccount m a accounts p k

  pub credit_miner_keeps : IsTyped (credit_miner m c i s).1
  unfolding credit_miner
  credit_miner_keeps =
      let a1 = Map.insert text_dec m before s.accounts in
      let k1 = insert_keeps before s.accounts before-IsAccount h.accounts in
      elim (Option-cases (checked_add before.balance.consumer c)) [
        | inl over ↦
            let after : (credit_miner m c i s).1 ≡ record s { accounts = a1 } = ground arith in
            rw after (with_pool s a1 s.mempool h k1 h.mempool)
        | inr (x, fx) ↦
            let lx = checked_add_lt before.balance.consumer c fx in
            let a2 = Map.insert text_dec m (paid x) a1 in
            let k2 = insert_keeps (paid x) a1 (paid-IsAccount x lx) k1 in
            elim (Option-cases (checked_add before.balance.industrial i)) [
              | inl over ↦
                  let after : (credit_miner m c i s).1 ≡ record s { accounts = a2 } =
                    ground arith in
                  rw after (with_pool s a2 s.mempool h k2 h.mempool)
              | inr (y, fy) ↦
                  let a3 = Map.insert text_dec m (both x y) a2 in
                  let k3 =
                    insert_keeps (both x y) a2
                      (both-IsAccount x y lx (checked_add_lt before.balance.industrial i fy)) k2 in
                  let after : (credit_miner m c i s).1 ≡ record s { accounts = a3 } =
                    ground arith in
                  rw after (with_pool s a3 s.mempool h k3 h.mempool)
            ]
      ]
