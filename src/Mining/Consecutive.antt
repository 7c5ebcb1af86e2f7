-- ===== src/Mining/Consecutive.antt =====
-- Nonces without a gap: what waits of each sender are the nonces right after that of its account,
-- and so the nonces in a mined block.
use the_block.Prelude.{
  ℕ, suc, ◌+◌, ◌-◌, ◌^◌, ◌≤◌, ◌<◌, ◌≡◌, refl, ap, ◌∙◌, List, [], ◌∷◌, Text, text_dec, arith, All,
  All_mono, AllApart, length, if_pos, if_neg, ap₂,
}
use the_block.Prelude.Word.{add64}
use the_block.Prelude.Map.{HashMap, total}
use the_block.Transaction.{SignedTransaction}
use the_block.Ledger.{Account}
use the_block.Mempool.{key}
use the_block.Mempool.Reserve.{of_sender, one}
use the_block.Order.{sort_pending}
use the_block.Order.Perm.{total-sort_pending, All-sort_pending}
use the_block.Order.Apart.{sort_pending-AllApart}
use the_block.Order.Strict.{IsIncreasing, sort_pending-IsOrdered, nonces_of-IsIncreasing}
use the_block.Validate.Distinct.{nonces_of, count_up}
use the_block.Validate.Counts.{nonce_of, count_of, count_of_self, count_of_other}

-- Numbers that go up from below `m + 1` to at most `m + j` are at most `j`.
few :
    (xs : List ℕ) (m j : ℕ)
    → IsIncreasing xs
    → All (λ x. m < x) xs
    → All (λ x. x ≤ m + j) xs
    → length xs ≤ j
few [] m j h lo hi = omega arith
few (x ∷ xs) m j h lo hi =
    let rest = few xs x (m + j - x) h.1 h.0 (raise_bound xs hi.1) in omega (arith, rest, lo.0, hi.0)
  where
    raise_bound : (ys : List ℕ) → All (λ y. y ≤ m + j) ys → All (λ y. y ≤ x + (m + j - x)) ys
    raise_bound [] k = tt
    raise_bound (y ∷ ys) k = (omega (arith, k.0), raise_bound ys k.1)

rebound : (xs : List ℕ) (m n : ℕ) → m ≡ n → All (λ x. x ≤ m) xs → All (λ x. x ≤ n) xs
rebound xs m n e h = rw (← e) h

-- As many numbers as fit, going up: they are consecutive.
pub consecutive :
    (xs : List ℕ) (n : ℕ)
    → IsIncreasing xs
    → All (λ x. n < x) xs
    → All (λ x. x ≤ n + length xs) xs
    → n + length xs < 2 ^ 64
    → xs ≡ count_up (length xs) n
consecutive [] n h lo hi fits = refl
consecutive (x ∷ xs) n h lo hi fits =
    let left = few xs x (n + suc (length xs) - x) h.1 h.0 (
      rebound xs (n + suc (length xs)) (x + (n + suc (length xs) - x)) (omega (arith, hi.0))
        hi.1) in
    let first : x ≡ n + 1 = omega (arith, left, lo.0, hi.0) in
    let rest =
      consecutive xs x h.1 h.0
        (rebound xs (n + suc (length xs)) (x + length xs) (omega (arith, first)) hi.1)
        (omega (arith, fits, first)) in
    let next : x ≡ add64 n 1 = omega (arith, first, fits) in
    ap₂ (λ y ys. y ∷ ys) next (rest ∙ ap (count_up (length xs)) next)

-- Every transaction that waits has a nonce right after that of its sender's account: above it, by no more than
-- the number of transactions that wait of this sender.
pub record HasNoGap (accounts : HashMap Text Account) (tx : SignedTransaction)
    (txs : List SignedTransaction) : Type 0 where
  pub above : nonce_of accounts tx.payload.from_ < tx.payload.nonce
  pub within :
      tx.payload.nonce
      ≤ nonce_of accounts tx.payload.from_ + total (of_sender one tx.payload.from_) txs

abbrev pub NoGaps : HashMap Text Account → List SignedTransaction → Type 0
NoGaps accounts txs = All (λ tx. HasNoGap accounts tx txs) txs

pub count_is_total :
    (a : Text) (txs : List SignedTransaction) → count_of a txs ≡ total (of_sender one a) txs
count_is_total a [] = refl
count_is_total a (tx ∷ txs) = elim (text_dec a tx.payload.from_) [
  | yes p ↦ omega (
    arith,
    count_of_self a tx txs p,
    count_is_total a txs,
    if_pos {C = ℕ} (text_dec a tx.payload.from_) p 1 0,
  )
  | no p ↦ omega (
    arith,
    count_of_other a tx txs p,
    count_is_total a txs,
    if_neg {C = ℕ} (text_dec a tx.payload.from_) p 1 0,
  )
]

-- A predicate of the transactions of one sender, on its nonces.
pub All-nonces_of :
    (P : ℕ → Type 0) (a : Text) (txs : List SignedTransaction)
    → All (λ t. a ≡ t.payload.from_ → P t.payload.nonce) txs
    → All P (nonces_of a txs)
All-nonces_of P a [] h = tt
All-nonces_of P a (tx ∷ txs) h = elim (text_dec a tx.payload.from_) [
  | yes p ↦ rw (if_pos (text_dec a tx.payload.from_) p) (h.0 p, All-nonces_of P a txs h.1)
  | no p ↦ rw (if_neg (text_dec a tx.payload.from_) p) (All-nonces_of P a txs h.1)
]

-- The sorted transactions of each sender carry on from the nonce of its account.
pub sorted_counts_up :
    (accounts : HashMap Text Account) (txs : List SignedTransaction) (a : Text)
    → AllApart key txs
    → NoGaps accounts txs
    → nonce_of accounts a + total (of_sender one a) txs < 2 ^ 64
    → nonces_of a (sort_pending txs)
      ≡ count_up (count_of a (sort_pending txs)) (nonce_of accounts a)
sorted_counts_up accounts txs a apart gaps fits =
    let ps = sort_pending txs in
    let k : count_of a ps ≡ total (of_sender one a) txs =
      count_is_total a ps ∙ total-sort_pending (of_sender one a) txs in
    let sorted_gaps = All-sort_pending (λ tx. HasNoGap accounts tx txs) txs gaps in
    let up =
      nonces_of-IsIncreasing a ps (sort_pending-IsOrdered txs)
        (sort_pending-AllApart key txs apart) in
    let lo =
      All-nonces_of (λ n. nonce_of accounts a < n) a ps
        (All_mono (λ tx. HasNoGap accounts tx txs) _ ps (λ t g p. rw p g.above) sorted_gaps) in
    let hi =
      All-nonces_of (λ n. n ≤ nonce_of accounts a + count_of a ps) a ps
        (All_mono (λ tx. HasNoGap accounts tx txs) _ ps (λ t g p. rw (k, p) g.within)
          sorted_gaps) in
    consecutive (nonces_of a ps) (nonce_of accounts a) up lo hi (omega (arith, k, fits))
