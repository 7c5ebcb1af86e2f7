-- ===== src/Order/Apart.antt =====
-- Sorting keeps what is apart apart: by any key, the sorted transactions are as distinct as the
-- unsorted ones.
use the_block.Prelude.{◌≢◌, sym, List, [], ◌∷◌, All, AllApart, inl, inr}
use the_block.Transaction.{SignedTransaction}
use the_block.Order.{compare_tx, insert_sorted, sort_pending}
use the_block.Order.Perm.{Ordering-cases, All-insert_sorted, All-sort_pending}

module _ {κ} {K : Type κ} (f : SignedTransaction → K) where
  insert_sorted-AllApart :
      (a : SignedTransaction) (txs : List SignedTransaction)
      → All (λ t. f t ≢ f a) txs
      → AllApart f txs
      → AllApart f (insert_sorted a txs)
  unfolding insert_sorted
  insert_sorted-AllApart a [] n h = (tt, tt)
  insert_sorted-AllApart a (b ∷ txs) n h = elim (Ordering-cases (compare_tx a b)) [
    | inl e ↦
        rw (e, insert_sorted)
          (
            All-insert_sorted (λ t. f t ≢ f b) a txs (λ p. n.0 (sym p)) h.0,
            insert_sorted-AllApart a txs n.1 h.1,
          )
    | inr (inl e) ↦ rw (e, insert_sorted) (n, h)
    | inr (inr e) ↦ rw (e, insert_sorted) (n, h)
  ]

  pub sort_pending-AllApart :
      (txs : List SignedTransaction) → AllApart f txs → AllApart f (sort_pending txs)
  unfolding sort_pending
  sort_pending-AllApart [] h = tt
  sort_pending-AllApart (a ∷ txs) h =
      insert_sorted-AllApart a (sort_pending txs) (All-sort_pending (λ t. f t ≢ f a) txs h.0)
        (sort_pending-AllApart txs h.1)
