-- ===== src/Order/Flip.antt =====
-- The comparison of `mine_block` turned round: what comes after another transaction does not come
-- before it.
use the_block.Prelude.{ℕ, ◌≡◌, ◌≢◌, [], ◌∷◌, Text, arith, compare, Ordering}
use the_block.Transaction.{SignedTransaction}
use the_block.Order.{compare_text, compare_tx}

compare_flip : (m n : ℕ) → compare m n ≡ Ordering.gt → compare n m ≢ Ordering.gt
compare_flip m n h = ground arith

compare_text_flip : (a b : Text) → compare_text a b ≡ Ordering.gt → compare_text b a ≢ Ordering.gt
unfolding compare_text
compare_text_flip [] [] h = cc
compare_text_flip [] (y ∷ ys) h = cc
compare_text_flip (x ∷ xs) [] h = cc
compare_text_flip (x ∷ xs) (y ∷ ys) h = ground (arith, compare_text_flip xs ys)

compare_text_eq : (a b : Text) → compare_text a b ≡ Ordering.eq → compare_text b a ≢ Ordering.gt
unfolding compare_text
compare_text_eq [] [] h = cc
compare_text_eq [] (y ∷ ys) h = cc
compare_text_eq (x ∷ xs) [] h = cc
compare_text_eq (x ∷ xs) (y ∷ ys) h = ground (arith, compare_text_eq xs ys)

pub compare_tx_flip :
    (a b : SignedTransaction) → compare_tx a b ≡ Ordering.gt → compare_tx b a ≢ Ordering.gt
unfolding compare_tx
compare_tx_flip a b h = ground (
  arith,
  compare_text_flip a.payload.from_ b.payload.from_,
  compare_text_flip b.payload.from_ a.payload.from_,
  compare_text_eq a.payload.from_ b.payload.from_,
  compare_text_eq b.payload.from_ a.payload.from_,
  compare_flip a.payload.nonce b.payload.nonce,
)
