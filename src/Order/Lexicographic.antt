-- ===== src/Order/Lexicographic.antt =====
-- The order of the transactions in a block, described without the comparison that sorts them, and
-- what the sort does to a list in which no two transactions have the same key.
use the_block.Prelude.{
  ℕ, ◌<◌, ◌≡◌, ◌≢◌, refl, List, [], ◌∷◌, ◌++◌, Text, arith, All, AllApart, compare, Ordering, inl,
  inr, ◌⊎◌,
}
use mathlib.Core.List.{Perm}
use mathlib.Core.List.Perm
use the_block.Transaction.{SignedTransaction}
use the_block.Mempool.{key}
use the_block.Order.{compare_text, compare_tx, insert_sorted, sort_pending}
use the_block.Order.Perm.{Ordering-cases}
use the_block.Order.Apart.{sort_pending-AllApart}
use the_block.Order.Strict.{IsOrdered, compare_text_same, same_sender_lt, sort_pending-IsOrdered}

-- A text comes before another if that goes on where it ends, or if, after the same beginning, its
-- next byte is the smaller one.
abbrev pub IsBefore : Text → Text → Type 0
IsBefore a b =
    ((y : ℕ) × (ys : Text) × (b ≡ a ++ y ∷ ys))
    ⊎ ((p : Text) × (x : ℕ) × (y : ℕ) × (xs : Text) × (ys : Text) × (a ≡ p ++ x ∷ xs)
        × (b ≡ p ++ y ∷ ys)
        × (x < y))

-- The sender comes before, or is the same and the nonce is lower.
abbrev pub IsEarlier : SignedTransaction → SignedTransaction → Type 0
IsEarlier a b =
    IsBefore a.payload.from_ b.payload.from_
    ⊎ ((a.payload.from_ ≡ b.payload.from_) × (a.payload.nonce < b.payload.nonce))

-- Each transaction is earlier than all later ones.
abbrev pub IsInOrder : List SignedTransaction → Type 0
IsInOrder [] = Unit
IsInOrder (a ∷ txs) = All (IsEarlier a) txs × IsInOrder txs

cons-IsBefore : (x y : ℕ) (a b : Text) → x ≡ y → IsBefore a b → IsBefore (x ∷ a) (y ∷ b)
cons-IsBefore x y a b e (inl (z, zs, f)) = inl (z, zs, cc f)
cons-IsBefore x y a b e (inr (p, u, v, us, vs, f, g, lt)) =
    inr (y ∷ p, u, v, us, vs, cc (e, f), cc (e, g), lt)

compare_text-IsBefore : (a b : Text) → compare_text a b ≡ Ordering.lt → IsBefore a b
unfolding compare_text
compare_text-IsBefore [] [] h = cc
compare_text-IsBefore [] (y ∷ ys) h = inl (y, ys, refl)
compare_text-IsBefore (x ∷ xs) [] h = cc
compare_text-IsBefore (x ∷ xs) (y ∷ ys) h = elim (Ordering-cases (compare x y)) [
  | inl e ↦ absurd (ground arith)
  | inr (inl e) ↦ inr ([], x, y, xs, ys, refl, refl, ground arith)
  | inr (inr e) ↦
      cons-IsBefore x y xs ys (ground arith) (compare_text-IsBefore xs ys (ground (arith, e)))
]

earlier : (a t : SignedTransaction) → compare_tx a t ≢ Ordering.gt → key t ≢ key a → IsEarlier a t
unfolding compare_tx
earlier a t h n = elim (Ordering-cases (compare_text a.payload.from_ t.payload.from_)) [
  | inl e ↦ absurd (ground (arith, e))
  | inr (inl e) ↦ inl (compare_text-IsBefore a.payload.from_ t.payload.from_ e)
  | inr (inr e) ↦
      let same = compare_text_same a.payload.from_ t.payload.from_ e in
      inr (same, same_sender_lt a t same h n)
]

all-IsEarlier :
    (a : SignedTransaction) (txs : List SignedTransaction)
    → All (λ t. compare_tx a t ≢ Ordering.gt) txs
    → All (λ t. key t ≢ key a) txs
    → All (IsEarlier a) txs
all-IsEarlier a [] h n = tt
all-IsEarlier a (t ∷ txs) h n = (earlier a t h.0 n.0, all-IsEarlier a txs h.1 n.1)

ordered-IsInOrder :
    (txs : List SignedTransaction) → IsOrdered txs → AllApart key txs → IsInOrder txs
ordered-IsInOrder [] h n = tt
ordered-IsInOrder (a ∷ txs) h n = (all-IsEarlier a txs h.0 n.0, ordered-IsInOrder txs h.1 n.1)

pub sort_pending-IsInOrder :
    (txs : List SignedTransaction) → AllApart key txs → IsInOrder (sort_pending txs)
sort_pending-IsInOrder txs n =
    ordered-IsInOrder (sort_pending txs) (sort_pending-IsOrdered txs)
      (sort_pending-AllApart key txs n)

insert_sorted-perm :
    (a : SignedTransaction) (txs : List SignedTransaction) → Perm (insert_sorted a txs) (a ∷ txs)
unfolding insert_sorted
insert_sorted-perm a [] = Perm.refl (a ∷ [])
insert_sorted-perm a (b ∷ txs) = elim (Ordering-cases (compare_tx a b)) [
  | inl e ↦
      rw (e, insert_sorted)
        (Perm.trans (Perm.cons b (insert_sorted-perm a txs)) (Perm.swap a b txs))
  | inr (inl e) ↦ rw (e, insert_sorted) (Perm.refl (a ∷ b ∷ txs))
  | inr (inr e) ↦ rw (e, insert_sorted) (Perm.refl (a ∷ b ∷ txs))
]

pub sort_pending-perm : (txs : List SignedTransaction) → Perm (sort_pending txs) txs
unfolding sort_pending
sort_pending-perm [] = Perm.refl []
sort_pending-perm (a ∷ txs) =
    Perm.trans (insert_sorted-perm a (sort_pending txs)) (Perm.cons a (sort_pending-perm txs))
