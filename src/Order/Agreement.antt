-- ===== src/Order/Agreement.antt =====
-- The order in which the mempool is walked does not matter: a `DashMap` gives its entries in any
-- order, and `sort_unstable_by` gives the same block for all of them.
use the_block.Prelude.{
  ◌≡◌, ◌≢◌, refl, sym, ap, ◌∙◌, List, [], ◌∷◌, arith, All, AllApart, Ordering, inl, inr, ◌⊎◌, Text,
  ap₂, subst,
}
use mathlib.Core.List.{Permᴰ, Perm}
use mathlib.Core.Logic.{∥∥₁_elim}
use the_block.Transaction.{SignedTransaction}
use the_block.Mempool.{key}
use the_block.Order.{compare_text, compare_tx, insert_sorted, sort_pending}
use the_block.Order.Perm.{Ordering-cases}
use the_block.Order.Flip.{compare_tx_flip}
use the_block.Order.Strict.{compare_text_same, compare_text_refl, compare_tx_trans}

-- `a` comes after `b`.
abbrev IsAfter : SignedTransaction → SignedTransaction → Type 0
IsAfter a b = compare_tx a b ≡ Ordering.gt

IsAfter-or_not : (a b : SignedTransaction) → IsAfter a b ⊎ (compare_tx a b ≢ Ordering.gt)
IsAfter-or_not a b = elim (Ordering-cases (compare_tx a b)) [
  | inl e ↦ inl e
  | inr (inl e) ↦ inr (λ g. cc (e, g))
  | inr (inr e) ↦ inr (λ g. cc (e, g))
]

insert_after :
    (a b : SignedTransaction) (txs : List SignedTransaction)
    → IsAfter a b
    → insert_sorted a (b ∷ txs) ≡ b ∷ insert_sorted a txs
unfolding insert_sorted
insert_after a b txs e = ground (arith, e)

insert_before :
    (a b : SignedTransaction) (txs : List SignedTransaction)
    → compare_tx a b ≢ Ordering.gt
    → insert_sorted a (b ∷ txs) ≡ a ∷ b ∷ txs
unfolding insert_sorted
insert_before a b txs n = elim (Ordering-cases (compare_tx a b)) [
  | inl e ↦ absurd (n e)
  | inr (inl e) ↦ ground (arith, e)
  | inr (inr e) ↦ ground (arith, e)
]

compare_text_swap : (a b : Text) → compare_text a b ≡ Ordering.lt → compare_text b a ≡ Ordering.gt
unfolding compare_text
compare_text_swap [] [] h = cc
compare_text_swap [] (y ∷ ys) h = refl
compare_text_swap (x ∷ xs) [] h = cc
compare_text_swap (x ∷ xs) (y ∷ ys) h = ground (arith, compare_text_swap xs ys)

-- Of two transactions with different keys one comes after the other.
one-IsAfter : (a b : SignedTransaction) → key a ≢ key b → compare_tx a b ≢ Ordering.gt → IsAfter b a
unfolding compare_tx
one-IsAfter a b n h =
    let x = a.payload.from_ in
    let y = b.payload.from_ in
    elim (Ordering-cases (compare_text x y)) [
      | inl e ↦ absurd (ground arith)
      | inr (inl e) ↦ ground (arith, compare_text_swap x y e)
      | inr (inr e) ↦
          let p = compare_text_same x y e in
          let d : a.payload.nonce ≢ b.payload.nonce = λ q. n (λ i. (p i, q i)) in
          let r : compare_text y x ≡ Ordering.eq = rw p (compare_text_refl y) in ground arith
    ]

-- Two insertions commute.
abbrev Commutes : SignedTransaction → SignedTransaction → List SignedTransaction → Type 0
Commutes a b txs = insert_sorted a (insert_sorted b txs) ≡ insert_sorted b (insert_sorted a txs)

module _ (a b c : SignedTransaction) (txs : List SignedTransaction) where
  both_after : IsAfter a c → IsAfter b c → Commutes a b txs → Commutes a b (c ∷ txs)
  both_after ea eb rest =
      ap (insert_sorted a) (insert_after b c txs eb)
      ∙ insert_after a c (insert_sorted b txs) ea
      ∙ ap (λ q. c ∷ q) rest
      ∙ sym (insert_after b c (insert_sorted a txs) eb)
      ∙ sym (ap (insert_sorted b) (insert_after a c txs ea))

  around : IsAfter a c → compare_tx b c ≢ Ordering.gt → Commutes a b (c ∷ txs)
  around ea nb =
      let eab : IsAfter a b = elim (IsAfter-or_not a b) [
        | inl e ↦ e
        | inr n ↦ absurd (compare_tx_trans a b c n nb ea)
      ] in
      ap (insert_sorted a) (insert_before b c txs nb)
      ∙ insert_after a b (c ∷ txs) eab
      ∙ ap (λ q. b ∷ q) (insert_after a c txs ea)
      ∙ sym (insert_before b c (insert_sorted a txs) nb)
      ∙ sym (ap (insert_sorted b) (insert_after a c txs ea))

  both_before :
      IsAfter a b
      → compare_tx a c ≢ Ordering.gt
      → compare_tx b c ≢ Ordering.gt
      → Commutes a b (c ∷ txs)
  both_before e na nb =
      ap (insert_sorted a) (insert_before b c txs nb)
      ∙ insert_after a b (c ∷ txs) e
      ∙ ap (λ q. b ∷ q) (insert_before a c txs na)
      ∙ sym (insert_before b a (c ∷ txs) (compare_tx_flip a b e))
      ∙ sym (ap (insert_sorted b) (insert_before a c txs na))

insert_sorted_comm :
    (a b : SignedTransaction) (txs : List SignedTransaction) → key a ≢ key b → Commutes a b txs
unfolding insert_sorted
insert_sorted_comm a b [] n = elim (IsAfter-or_not a b) [
  | inl e ↦ insert_after a b [] e ∙ sym (insert_before b a [] (compare_tx_flip a b e))
  | inr h ↦ insert_before a b [] h ∙ sym (insert_after b a [] (one-IsAfter a b n h))
]
insert_sorted_comm a b (c ∷ txs) n = elim (IsAfter-or_not a c) [
  | inl ea ↦ elim (IsAfter-or_not b c) [
    | inl eb ↦ both_after a b c txs ea eb (insert_sorted_comm a b txs n)
    | inr nb ↦ around a b c txs ea nb
  ]
  | inr na ↦ elim (IsAfter-or_not b c) [
    | inl eb ↦ sym (around b a c txs eb na)
    | inr nb ↦ elim (IsAfter-or_not a b) [
      | inl e ↦ both_before a b c txs e na nb
      | inr h ↦ sym (both_before b a c txs (one-IsAfter a b n h) nb na)
    ]
  ]
]

All-perm {κ} :
    (P : SignedTransaction → Type κ) {xs ys : List SignedTransaction}
    → Permᴰ xs ys
    → All P xs
    → All P ys
All-perm P Permᴰ.nil h = h
All-perm P (Permᴰ.cons e d) h = (rw (← e) h.0, All-perm P d h.1)
All-perm P (Permᴰ.swap e f) h = (rw (← f) h.1.0, (rw (← e) h.0, h.1.1))
All-perm P (Permᴰ.trans d d') h = All-perm P d' (All-perm P d h)

AllApart-perm : {xs ys : List SignedTransaction} → Permᴰ xs ys → AllApart key xs → AllApart key ys
AllApart-perm Permᴰ.nil h = h
AllApart-perm (Permᴰ.cons e d) h = (rw (← e) (All-perm _ d h.0), AllApart-perm d h.1)
AllApart-perm (Permᴰ.swap {l = l} e f) h = (
  (
    (λ p. h.0.0 (ap key f ∙ sym p ∙ ap key (sym e))),
    subst (λ z. All (λ y. key y ≢ key z) l) f h.1.0,
  ),
  (subst (λ z. All (λ y. key y ≢ key z) l) e h.0.1, h.1.1),
)
AllApart-perm (Permᴰ.trans d d') h = AllApart-perm d' (AllApart-perm d h)

same_sort :
    {xs ys : List SignedTransaction}
    → Permᴰ xs ys
    → AllApart key xs
    → sort_pending xs ≡ sort_pending ys
unfolding sort_pending
same_sort Permᴰ.nil h = refl
same_sort (Permᴰ.cons e d) h = ap₂ insert_sorted e (same_sort d h.1)
same_sort (Permᴰ.swap {a} {b} {l = l} e f) h =
    rw (← e, ← f) (insert_sorted_comm a b (sort_pending l) (λ p. h.0.0 (sym p)))
same_sort (Permᴰ.trans d d') h = same_sort d h ∙ same_sort d' (AllApart-perm d h)

transactions_set : IsSet (List SignedTransaction)
transactions_set = hlevel

-- The transactions of a block do not depend on the order in which the mempool is walked: as long as
-- no two of them have the same sender and nonce, any two orders of the same transactions sort to
-- the same list.
pub sort_pending_agrees :
    (xs ys : List SignedTransaction)
    → Perm xs ys
    → AllApart key xs
    → sort_pending xs ≡ sort_pending ys
sort_pending_agrees xs ys p h =
    ∥∥₁_elim p (transactions_set (sort_pending xs) (sort_pending ys)) (λ d. same_sort d h)
