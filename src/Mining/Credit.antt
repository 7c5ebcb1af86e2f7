-- ===== src/Mining/Credit.antt =====
-- The credit of the miner in sums, and what is left of the mempool.
use the_block.Prelude.{
  ℕ, ◌+◌, ◌^◌, ◌<◌, ◌≡◌, refl, List, [], ◌∷◌, Text, text_dec, arith, Option-cases, inl, inr,
}
use the_block.Prelude.Map
use the_block.Prelude.Map.{values, total}
use the_block.Transaction.{SignedTransaction}
use the_block.Ledger.{Account, Blockchain, new_account}
use the_block.Mempool.Reserve.{IsReserved, AllReserved}
use the_block.Apply.{remove_txs}
use the_block.Apply.Funded.{supply_c, supply_i}
use the_block.Mining.Prepare.{miner_before, miner_after}

pub remove_txs-empty : (txs : List SignedTransaction) → remove_txs txs [] ≡ []
unfolding remove_txs Map.remove
remove_txs-empty [] = refl
remove_txs-empty (tx ∷ txs) = remove_txs-empty txs

module _ (m : Text) (c i : ℕ) (s : Blockchain) where
  abbrev a : Account
  a = new_account m 0 0

  pub supply_c-credit :
      supply_c (Map.insert text_dec m (miner_after m c i s) s.accounts) ≡ supply_c s.accounts + c
  supply_c-credit = elim (Option-cases (Map.get text_dec m s.accounts)) [
    | inl new ↦ ground (
      arith,
      Map.entry_or-none text_dec m a s.accounts new,
      Map.total-insert_new text_dec (λ (x : Account). x.balance.consumer) m (miner_after m c i s)
          s.accounts new,
    )
    | inr (b, old) ↦ ground (
      arith,
      Map.entry_or-some text_dec m a b s.accounts old,
      Map.total-insert text_dec (λ (x : Account). x.balance.consumer) m (miner_after m c i s) b
          s.accounts old,
    )
  ]

  pub supply_i-credit :
      supply_i (Map.insert text_dec m (miner_after m c i s) s.accounts) ≡ supply_i s.accounts + i
  supply_i-credit = elim (Option-cases (Map.get text_dec m s.accounts)) [
    | inl new ↦ ground (
      arith,
      Map.entry_or-none text_dec m a s.accounts new,
      Map.total-insert_new text_dec (λ (x : Account). x.balance.industrial) m (miner_after m c i s)
          s.accounts new,
    )
    | inr (b, old) ↦ ground (
      arith,
      Map.entry_or-some text_dec m a b s.accounts old,
      Map.total-insert text_dec (λ (x : Account). x.balance.industrial) m (miner_after m c i s) b
          s.accounts old,
    )
  ]

  miner-IsReserved :
      AllReserved s.accounts []
      → (miner_before m s).balance.consumer + c < 2 ^ 64
      → (miner_before m s).balance.industrial + i < 2 ^ 64
      → IsReserved [] m (miner_after m c i s)
  miner-IsReserved reserved fc fi = elim (Option-cases (Map.get text_dec m s.accounts)) [
    | inl new ↦
        let same = Map.entry_or-none text_dec m a s.accounts new in
        record {
          nonce = ground (arith, same);
          consumer = ground (arith, same);
          industrial = ground (arith, same);
          covered_consumer = ground (arith, same);
          covered_industrial = ground (arith, same);
          range_consumer = fc;
          range_industrial = fi;
        }
    | inr (b, old) ↦
        let same = Map.entry_or-some text_dec m a b s.accounts old in
        let before = reserved m b old in
        record {
          nonce = ground (arith, same, before.nonce);
          consumer = ground (arith, same, before.consumer);
          industrial = ground (arith, same, before.industrial);
          covered_consumer = ground (arith, same, before.consumer);
          covered_industrial = ground (arith, same, before.industrial);
          range_consumer = fc;
          range_industrial = fi;
        }
  ]

  pub credit-AllReserved :
      AllReserved s.accounts []
      → (miner_before m s).balance.consumer + c < 2 ^ 64
      → (miner_before m s).balance.industrial + i < 2 ^ 64
      → AllReserved (Map.insert text_dec m (miner_after m c i s) s.accounts) []
  credit-AllReserved reserved fc fi b acc e =
      elim (Map.get-insert_inv text_dec b m (miner_after m c i s) acc s.accounts e) [
        | inl (p, q) ↦ rw (p, ← q) (miner-IsReserved reserved fc fi)
        | inr (ne, old) ↦ reserved b acc old
      ]
