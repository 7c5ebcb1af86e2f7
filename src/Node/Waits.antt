-- ===== src/Node/Waits.antt =====
-- Consecutive numbers have no gap, and what waits is what stands in a block.
use the_block.Prelude.{
  ℕ, zero, suc, ◌+◌, ◌^◌, ◌≤◌, ◌<◌, ◌≡◌, ◌≢◌, ◌⊎◌, refl, sym, ap, ◌∙◌, List, [], ◌∷◌, none, some,
  Text, text_dec, key_dec, arith, All, inl, inr, if_pos, if_neg, dec_lt,
}
use the_block.Prelude.Word.{add64}
use the_block.Prelude.Map
use the_block.Prelude.Map.{HashMap, values}
use the_block.Transaction.{SignedTransaction}
use the_block.Ledger.{Blockchain}
use the_block.Mempool.{key}
use the_block.Mempool.Reserve.{IsConsistent}
use the_block.Order.{compare_tx, insert_sorted, sort_pending}
use the_block.Order.Perm.{Ordering-cases, All-sort_pending}
use the_block.Validate.Distinct.{nonces_of, count_up}
use the_block.Mining.Consecutive.{All-nonces_of}

next_is : (start k : ℕ) → start + suc k < 2 ^ 64 → add64 start 1 ≡ start + 1
next_is start k fits = omega (arith, fits)

outside :
    (k start v : ℕ)
    → start + k < 2 ^ 64
    → (v ≤ start) ⊎ (start + k < v)
    → All (λ x. x ≢ v) (count_up k start)
outside zero start v fits h = tt
outside (suc k) start v fits (inl low) = rw (next_is start k fits) (
  (λ e. absurd (omega (arith, e, low))),
  outside k (start + 1) v (omega (arith, fits)) (inl (omega (arith, low))),
)
outside (suc k) start v fits (inr high) = rw (next_is start k fits) (
  (λ e. absurd (omega (arith, e, high))),
  outside k (start + 1) v (omega (arith, fits)) (inr (omega (arith, high))),
)

inside :
    (k start v : ℕ)
    → start + k < 2 ^ 64
    → start < v
    → v ≤ start + k
    → All (λ x. x ≢ v) (count_up k start)
    → ⊥
inside zero start v fits lo hi h = omega arith
inside (suc k) start v fits lo hi h =
    let g = rw (next_is start k fits) at h in
    elim (dec_lt (start + 1) v) [
      | yes more ↦ inside k (start + 1) v (omega (arith, fits)) more (omega (arith, hi)) g.1
      | no same ↦ g.0 (omega (arith, same, lo))
    ]

-- A list of consecutive numbers has no gap.
pub no_gap :
    (k start n m : ℕ)
    → start + k < 2 ^ 64
    → n < m
    → All (λ x. x ≢ n + 1) (count_up k start)
    → (All (λ x. x ≢ n) (count_up k start) → ⊥)
    → (All (λ x. x ≢ m) (count_up k start) → ⊥)
    → ⊥
no_gap k start n m fits lt gap has_n has_m = elim (dec_lt start n) [
  | no low ↦ has_n (outside k start n fits (inl (omega (arith, low))))
  | yes above ↦ elim (dec_lt (start + k) m) [
    | yes high ↦ has_m (outside k start m fits (inr high))
    | no within ↦ inside k start (n + 1) fits (omega (arith, above)) (omega (arith, within, lt)) gap
  ]
]

All_inserted :
    (P : SignedTransaction → Type 0) (a : SignedTransaction) (txs : List SignedTransaction)
    → All P (insert_sorted a txs)
    → P a × All P txs
unfolding insert_sorted
All_inserted P a [] h = h
All_inserted P a (b ∷ txs) h = elim (Ordering-cases (compare_tx a b)) [
  | inl e ↦
      let g = rw (e, insert_sorted) at h in
      let (p, rest) = All_inserted P a txs g.1 in (p, (g.0, rest))
  | inr (inl e) ↦ rw (e, insert_sorted) at h
  | inr (inr e) ↦ rw (e, insert_sorted) at h
]

All_sorted :
    (P : SignedTransaction → Type 0) (txs : List SignedTransaction)
    → All P (sort_pending txs)
    → All P txs
unfolding sort_pending
All_sorted P [] h = h
All_sorted P (a ∷ txs) h =
    let (p, rest) = All_inserted P a (sort_pending txs) h in (p, All_sorted P txs rest)

All_of_nonces :
    (P : ℕ → Type 0) (a : Text) (txs : List SignedTransaction)
    → All P (nonces_of a txs)
    → All (λ t. a ≡ t.payload.from_ → P t.payload.nonce) txs
All_of_nonces P a [] h = tt
All_of_nonces P a (tx ∷ txs) h = elim (text_dec a tx.payload.from_) [
  | yes p ↦
      let g = rw (if_pos (text_dec a tx.payload.from_) p) at h in
      ((λ q. g.0), All_of_nonces P a txs g.1)
  | no n ↦
      let g = rw (if_neg (text_dec a tx.payload.from_) n) at h in
      ((λ q. absurd (n q)), All_of_nonces P a txs g)
]

-- A transaction that waits has its nonce among those of the block.
pub waits_in :
    (t : SignedTransaction) (mempool : HashMap (Text × ℕ) SignedTransaction)
    → Map.get key_dec (key t) mempool ≡ some t
    → All (λ x. x ≢ t.payload.nonce) (nonces_of t.payload.from_ (sort_pending (values mempool)))
    → ⊥
waits_in t mempool found h =
    let all = All_sorted _ (values mempool) (
      All_of_nonces (λ x. x ≢ t.payload.nonce) t.payload.from_ (sort_pending (values mempool)) h) in
    Map.All-get key_dec (λ u. t.payload.from_ ≡ u.payload.from_ → u.payload.nonce ≢ t.payload.nonce)
      (key t) t mempool found all refl refl

-- A key that is not in the mempool is no nonce of the block.
pub missing_in :
    (a : Text) (n : ℕ) (s : Blockchain)
    → IsConsistent s
    → Map.get key_dec (a, n) s.mempool ≡ none
    → All (λ x. x ≢ n) (nonces_of a (sort_pending (values s.mempool)))
missing_in a n s h none_ =
    All-nonces_of (λ x. x ≢ n) a (sort_pending (values s.mempool))
      (All-sort_pending (λ t. a ≡ t.payload.from_ → t.payload.nonce ≢ n) (values s.mempool)
        (Map.All-values key_dec (λ t. a ≡ t.payload.from_ → t.payload.nonce ≢ n) s.mempool
          h.mempool.unique
          (λ k t g p q.
            let e : k ≡ (a, n) = h.mempool.keyed k t g ∙ (λ i. (sym p i, q i)) in
            cc (g, ap (λ r. Map.get key_dec r s.mempool) e, none_))))
