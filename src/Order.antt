-- ===== src/Order.antt =====
-- The order of the pending transactions in a block: the comparison and the sort of `mine_block`.
pub mod Perm
pub mod Flip
pub mod Apart
pub mod Strict
pub mod Agreement
pub mod Lexicographic
use the_block.Prelude.{List, [], ◌∷◌, Text, compare, Ordering}
use the_block.Transaction.{SignedTransaction}

-- `a.cmp(&b)` of strings: byte by byte.
unfoldable pub compare_text : Text → Text → Ordering
compare_text [] [] = Ordering.eq
compare_text [] (y ∷ ys) = Ordering.lt
compare_text (x ∷ xs) [] = Ordering.gt
compare_text (x ∷ xs) (y ∷ ys) = elim (compare x y) [
  | Ordering.lt ↦ Ordering.lt
  | Ordering.eq ↦ compare_text xs ys
  | Ordering.gt ↦ Ordering.gt
]

-- The comparison of `sort_unstable_by`: by sender, then by nonce.
unfoldable pub compare_tx : SignedTransaction → SignedTransaction → Ordering
unfolding compare_text
compare_tx a b = elim (compare_text a.payload.from_ b.payload.from_) [
  | Ordering.lt ↦ Ordering.lt
  | Ordering.eq ↦ compare a.payload.nonce b.payload.nonce
  | Ordering.gt ↦ Ordering.gt
]

unfoldable pub insert_sorted : SignedTransaction → List SignedTransaction → List SignedTransaction
insert_sorted a [] = a ∷ []
insert_sorted a (b ∷ txs) =
    let rest = b ∷ insert_sorted a txs in
    elim (compare_tx a b) [ Ordering.gt ↦ rest | _ ↦ a ∷ b ∷ txs ]

-- `pending.sort_unstable_by(..)`, as an insertion sort.
unfoldable pub sort_pending : List SignedTransaction → List SignedTransaction
unfolding insert_sorted compare_tx
sort_pending [] = []
sort_pending (a ∷ txs) = insert_sorted a (sort_pending txs)
