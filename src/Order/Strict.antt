-- ===== src/Order/Strict.antt =====
-- The order of `sort_unstable_by` is transitive, so in a sorted list every transaction comes before
-- all later ones, and the nonces of one sender go up.
use the_block.Prelude.{
  ℕ, ◌<◌, ◌≡◌, ◌≢◌, refl, List, [], ◌∷◌, Text, text_dec, arith, All, AllApart, Ordering, inl, inr,
  if_pos, if_neg, ap, sym, ◌∙◌,
}
use the_block.Transaction.{SignedTransaction}
use the_block.Mempool.{key}
use the_block.Order.{compare_text, compare_tx, insert_sorted, sort_pending}
use the_block.Order.Perm.{Ordering-cases, All-insert_sorted}
use the_block.Order.Flip.{compare_tx_flip}
use the_block.Validate.Distinct.{nonces_of}

pub compare_text_refl : (a : Text) → compare_text a a ≡ Ordering.eq
unfolding compare_text
compare_text_refl [] = refl
compare_text_refl (x ∷ xs) = ground (arith, compare_text_refl xs)

pub compare_text_same : (a b : Text) → compare_text a b ≡ Ordering.eq → a ≡ b
unfolding compare_text
compare_text_same [] [] h = refl
compare_text_same [] (y ∷ ys) h = cc
compare_text_same (x ∷ xs) [] h = cc
compare_text_same (x ∷ xs) (y ∷ ys) h = ground (arith, compare_text_same xs ys)

compare_text_lt :
    (a b c : Text)
    → compare_text a b ≡ Ordering.lt
    → compare_text b c ≡ Ordering.lt
    → compare_text a c ≡ Ordering.lt
unfolding compare_text
compare_text_lt [] [] c h k = cc
compare_text_lt [] (y ∷ ys) [] h k = cc
compare_text_lt [] (y ∷ ys) (z ∷ zs) h k = refl
compare_text_lt (x ∷ xs) [] c h k = cc
compare_text_lt (x ∷ xs) (y ∷ ys) [] h k = cc
compare_text_lt (x ∷ xs) (y ∷ ys) (z ∷ zs) h k = ground (arith, compare_text_lt xs ys zs)

pub compare_tx_trans :
    (a b c : SignedTransaction)
    → compare_tx a b ≢ Ordering.gt
    → compare_tx b c ≢ Ordering.gt
    → compare_tx a c ≢ Ordering.gt
unfolding compare_tx
compare_tx_trans a b c h k =
    let x = a.payload.from_ in
    let y = b.payload.from_ in
    let z = c.payload.from_ in
    elim (Ordering-cases (compare_text x y)) [
      | inl e ↦ absurd (ground arith)
      | inr (inl e) ↦ elim (Ordering-cases (compare_text y z)) [
        | inl f ↦ absurd (ground arith)
        | inr (inl f) ↦ ground (arith, compare_text_lt x y z e f)
        | inr (inr f) ↦
            let p : compare_text x z ≡ Ordering.lt = rw (← compare_text_same y z f) e in
            ground arith
      ]
      | inr (inr e) ↦
          let p : compare_text x z ≡ compare_text y z =
            ap (λ t. compare_text t z) (compare_text_same x y e) in
          ground arith
    ]

-- Each transaction comes before all later ones, or is equal to them in the order.
abbrev pub IsOrdered : List SignedTransaction → Type 0
IsOrdered [] = Unit
IsOrdered (a ∷ txs) = All (λ t. compare_tx a t ≢ Ordering.gt) txs × IsOrdered txs

after_all :
    (a b : SignedTransaction) (txs : List SignedTransaction)
    → compare_tx a b ≢ Ordering.gt
    → All (λ t. compare_tx b t ≢ Ordering.gt) txs
    → All (λ t. compare_tx a t ≢ Ordering.gt) txs
after_all a b [] h k = tt
after_all a b (t ∷ txs) h k = (compare_tx_trans a b t h k.0, after_all a b txs h k.1)

insert_sorted-IsOrdered :
    (a : SignedTransaction) (txs : List SignedTransaction)
    → IsOrdered txs
    → IsOrdered (insert_sorted a txs)
unfolding insert_sorted
insert_sorted-IsOrdered a [] h = (tt, tt)
insert_sorted-IsOrdered a (b ∷ txs) h = elim (Ordering-cases (compare_tx a b)) [
  | inl e ↦
      rw (e, insert_sorted)
        (
          All-insert_sorted (λ t. compare_tx b t ≢ Ordering.gt) a txs (compare_tx_flip a b e) h.0,
          insert_sorted-IsOrdered a txs h.1,
        )
  | inr (inl e) ↦
      let le : compare_tx a b ≢ Ordering.gt = λ g. cc (e, g) in
      rw (e, insert_sorted) ((le, after_all a b txs le h.0), h)
  | inr (inr e) ↦
      let le : compare_tx a b ≢ Ordering.gt = λ g. cc (e, g) in
      rw (e, insert_sorted) ((le, after_all a b txs le h.0), h)
]

pub sort_pending-IsOrdered : (txs : List SignedTransaction) → IsOrdered (sort_pending txs)
unfolding sort_pending
sort_pending-IsOrdered [] = tt
sort_pending-IsOrdered (a ∷ txs) =
    insert_sorted-IsOrdered a (sort_pending txs) (sort_pending-IsOrdered txs)

-- Numbers that go up.
abbrev pub IsIncreasing : List ℕ → Type 0
IsIncreasing [] = Unit
IsIncreasing (x ∷ xs) = All (λ y. x < y) xs × IsIncreasing xs

pub same_sender_lt :
    (a t : SignedTransaction)
    → a.payload.from_ ≡ t.payload.from_
    → compare_tx a t ≢ Ordering.gt
    → key t ≢ key a
    → a.payload.nonce < t.payload.nonce
unfolding compare_tx
same_sender_lt a t e h n =
    let r : compare_text a.payload.from_ t.payload.from_ ≡ Ordering.eq =
      rw (← e) (compare_text_refl a.payload.from_) in
    let d : a.payload.nonce ≢ t.payload.nonce = λ p. n (λ i. (sym e i, sym p i)) in
    ground (arith, r)

later_nonces :
    (s : Text) (a : SignedTransaction) (txs : List SignedTransaction)
    → s ≡ a.payload.from_
    → All (λ t. compare_tx a t ≢ Ordering.gt) txs
    → All (λ t. key t ≢ key a) txs
    → All (λ y. a.payload.nonce < y) (nonces_of s txs)
later_nonces s a [] e h n = tt
later_nonces s a (t ∷ txs) e h n = elim (text_dec s t.payload.from_) [
  | yes p ↦
      rw (if_pos (text_dec s t.payload.from_) p)
        (same_sender_lt a t (sym e ∙ p) h.0 n.0, later_nonces s a txs e h.1 n.1)
  | no p ↦ rw (if_neg (text_dec s t.payload.from_) p) (later_nonces s a txs e h.1 n.1)
]

-- In an ordered list without equal keys, the nonces of each sender go up.
pub nonces_of-IsIncreasing :
    (s : Text) (txs : List SignedTransaction)
    → IsOrdered txs
    → AllApart key txs
    → IsIncreasing (nonces_of s txs)
nonces_of-IsIncreasing s [] h n = tt
nonces_of-IsIncreasing s (a ∷ txs) h n =
    let rest = nonces_of-IsIncreasing s txs h.1 n.1 in
    elim (text_dec s a.payload.from_) [
      | yes p ↦ rw (if_pos (text_dec s a.payload.from_) p) (later_nonces s a txs p h.0 n.0, rest)
      | no p ↦ rw (if_neg (text_dec s a.payload.from_) p) rest
    ]
