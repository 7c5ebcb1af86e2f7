-- ===== src/Order/Perm.antt =====
-- Sorting keeps the transactions: sums and properties of all of them are those of the mempool.
use the_block.Prelude.{ℕ, ◌+◌, ◌≡◌, refl, List, [], ◌∷◌, arith, All, Ordering, ◌⊎◌, inl, inr}
use the_block.Prelude.Map.{total}
use the_block.Transaction.{SignedTransaction}
use the_block.Order.{compare_tx, insert_sorted, sort_pending}

total-insert_sorted :
    (f : SignedTransaction → ℕ) (a : SignedTransaction) (txs : List SignedTransaction)
    → total f (insert_sorted a txs) ≡ f a + total f txs
unfolding insert_sorted
total-insert_sorted f a [] = refl
total-insert_sorted f a (b ∷ txs) = ground (arith, total-insert_sorted f a txs)

-- A sum over the sorted transactions is the sum over the unsorted ones.
pub total-sort_pending :
    (f : SignedTransaction → ℕ) (txs : List SignedTransaction)
    → total f (sort_pending txs) ≡ total f txs
unfolding sort_pending
total-sort_pending f [] = refl
total-sort_pending f (a ∷ txs) =
    ground (arith, total-insert_sorted f a (sort_pending txs), total-sort_pending f txs)

pub Ordering-cases : (o : Ordering) → (o ≡ Ordering.gt) ⊎ ((o ≡ Ordering.lt) ⊎ (o ≡ Ordering.eq))
Ordering-cases Ordering.gt = inl refl
Ordering-cases Ordering.lt = inr (inl refl)
Ordering-cases Ordering.eq = inr (inr refl)

pub All-insert_sorted {κ} :
    (P : SignedTransaction → Type κ) (a : SignedTransaction) (txs : List SignedTransaction)
    → P a
    → All P txs
    → All P (insert_sorted a txs)
unfolding insert_sorted
All-insert_sorted P a [] p h = (p, tt)
All-insert_sorted P a (b ∷ txs) p h = elim (Ordering-cases (compare_tx a b)) [
  | inl e ↦ rw (e, insert_sorted) (h.0, All-insert_sorted P a txs p h.1)
  | inr (inl e) ↦ rw (e, insert_sorted) (p, h)
  | inr (inr e) ↦ rw (e, insert_sorted) (p, h)
]

pub All-sort_pending {κ} :
    (P : SignedTransaction → Type κ) (txs : List SignedTransaction)
    → All P txs
    → All P (sort_pending txs)
unfolding sort_pending
All-sort_pending P [] h = h
All-sort_pending P (a ∷ txs) h =
    All-insert_sorted P a (sort_pending txs) h.0 (All-sort_pending P txs h.1)
