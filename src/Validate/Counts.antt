-- ===== src/Validate/Counts.antt =====
-- What the first two loops of `validate_block` compute: how many transactions each sender has, and
-- the nonce from which each sender counts.
use the_block.Prelude.{
  ℕ, suc, ◌+◌, ◌^◌, ◌<◌, ◌≤◌, ◌≡◌, ◌≢◌, refl, List, [], ◌∷◌, none, some, Text, arith, inl, inr,
  text_dec, All, length, if_pos, if_neg, ◌∙◌,
}
use the_block.Prelude.Word.{add64, add128, saturating_sub}
use the_block.Prelude.Result.{ok, Result-cases}
use the_block.Prelude.Map
use the_block.Prelude.Map.{HashMap, IsUnique}
use the_block.Transaction.{SignedTransaction}
use the_block.Fee.{decompose}
use the_block.Ledger.{Account}
use the_block.Mempool.Reserve.{fees}
use the_block.Apply.{zero_address}
use the_block.Validate.{counted, count_loop, expect_loop}
use the_block.Validate.Sound.{HasFee}
use the_block.Validate.Distinct.{nonces_of}

-- The nonce of an account, or 0.
abbrev pub nonce_of : HashMap Text Account → Text → ℕ
nonce_of accounts a = elim (Map.get text_dec a accounts) [ none ↦ 0 | some acc ↦ acc.nonce ]

-- How many transactions a sender has.
abbrev pub count_of : Text → List SignedTransaction → ℕ
count_of a txs = length (nonces_of a txs)

pub count_of-le : (a : Text) (txs : List SignedTransaction) → count_of a txs ≤ length txs
count_of-le a [] = omega arith
count_of-le a (tx ∷ txs) = elim (text_dec a tx.payload.from_) [
  | yes p ↦ rw (if_pos (text_dec a tx.payload.from_) p) (omega (arith, count_of-le a txs))
  | no p ↦ rw (if_neg (text_dec a tx.payload.from_) p) (omega (arith, count_of-le a txs))
]

counted_zero :
    (counts : HashMap Text ℕ) (tx : SignedTransaction)
    → tx.payload.from_ ≡ zero_address
    → counted counts tx ≡ counts
counted_zero counts tx z = ground arith

counted_own :
    (counts : HashMap Text ℕ) (tx : SignedTransaction)
    → tx.payload.from_ ≢ zero_address
    → counted counts tx
      ≡ Map.insert text_dec tx.payload.from_
          (add64 (Map.entry_or text_dec tx.payload.from_ 0 counts) 1)
          counts
counted_own counts tx z = ground arith

counted-IsUnique :
    (counts : HashMap Text ℕ) (tx : SignedTransaction)
    → IsUnique text_dec counts
    → IsUnique text_dec (counted counts tx)
counted-IsUnique counts tx h = elim (text_dec tx.payload.from_ zero_address) [
  | yes z ↦ rw (counted_zero counts tx z) h
  | no z ↦ rw (counted_own counts tx z) (
      Map.insert-IsUnique text_dec tx.payload.from_
        (add64 (Map.entry_or text_dec tx.payload.from_ 0 counts) 1) counts h)
]

pub count_of_self :
    (a : Text) (tx : SignedTransaction) (txs : List SignedTransaction)
    → a ≡ tx.payload.from_
    → count_of a (tx ∷ txs) ≡ suc (count_of a txs)
count_of_self a tx txs p = rw (if_pos (text_dec a tx.payload.from_) p) refl

pub count_of_other :
    (a : Text) (tx : SignedTransaction) (txs : List SignedTransaction)
    → a ≢ tx.payload.from_
    → count_of a (tx ∷ txs) ≡ count_of a txs
count_of_other a tx txs p = rw (if_neg (text_dec a tx.payload.from_) p) refl

-- One more for its sender, and for no other.
counted_entry :
    (a : Text) (tx : SignedTransaction) (txs : List SignedTransaction) (counts : HashMap Text ℕ)
    → a ≢ zero_address
    → Map.entry_or text_dec a 0 counts + count_of a (tx ∷ txs) < 2 ^ 64
    → Map.entry_or text_dec a 0 (counted counts tx) + count_of a txs
      ≡ Map.entry_or text_dec a 0 counts + count_of a (tx ∷ txs)
counted_entry a tx txs counts z fits =
    let b = tx.payload.from_ in
    let more = add64 (Map.entry_or text_dec b 0 counts) 1 in
    elim (text_dec a b) [
      | yes p ↦
          let own = counted_own counts tx (λ q. z (p ∙ q)) in
          let now : Map.entry_or text_dec a 0 (counted counts tx)
              ≡ add64 (Map.entry_or text_dec a 0 counts) 1 =
            rw (own, p) (Map.entry_or-insert_self text_dec b 0 more counts) in
          omega (arith, now, count_of_self a tx txs p, fits)
      | no n ↦ elim (text_dec b zero_address) [
        | yes q ↦ rw (counted_zero counts tx q) (omega (arith, count_of_other a tx txs n))
        | no q ↦ rw (counted_own counts tx q) (
            omega (
              arith,
              Map.entry_or-insert_ne text_dec a b 0 more counts n,
              count_of_other a tx txs n,
            ))
      ]
    ]

pub record IsCounted (txs : List SignedTransaction) (counts after : HashMap Text ℕ) : Type 0 where
  pub unique : IsUnique text_dec counts → IsUnique text_dec after
  pub entry :
      (a : Text)
      → a ≢ zero_address
      → Map.entry_or text_dec a 0 counts + count_of a txs < 2 ^ 64
      → Map.entry_or text_dec a 0 after ≡ Map.entry_or text_dec a 0 counts + count_of a txs

pub count_loop-IsCounted :
    (txs : List SignedTransaction) (counts : HashMap Text ℕ) (c i : ℕ) {r : HashMap Text ℕ × ℕ × ℕ}
    → count_loop counts c i txs ≡ ok r
    → IsCounted txs counts r.0
unfolding count_loop
count_loop-IsCounted [] counts c i {r} h =
    let e : r.0 ≡ counts = ground arith in
    record { unique = λ u. rw e u; entry = λ a z fits. rw e (omega arith) }
count_loop-IsCounted (tx ∷ txs) counts c i {r} h =
    elim (Result-cases (decompose tx.payload.fee_selector tx.payload.fee)) [
      | inr (e, bad) ↦ absurd (ground arith)
      | inl (f, good) ↦
          let rest =
            count_loop-IsCounted txs (counted counts tx) (add128 c f.0) (add128 i f.1) {r = r}
              (ground arith) in
          record {
            unique = λ u. rest.unique (counted-IsUnique counts tx u);
            entry = λ a z fits.
                let e = counted_entry a tx txs counts z fits in
                rest.entry a z (omega (arith, e, fits)) ∙ e;
          }
    ]

-- The first loop goes through when all fees are valid.
pub count_loop_total :
    (txs : List SignedTransaction) (counts : HashMap Text ℕ) (c i : ℕ)
    → All HasFee txs
    → (r : HashMap Text ℕ × ℕ × ℕ) × (count_loop counts c i txs ≡ ok r)
unfolding count_loop
count_loop_total [] counts c i h = (_, refl)
count_loop_total (tx ∷ txs) counts c i h =
    let f = fees tx in
    let (r, e) = count_loop_total txs (counted counts tx) (add128 c f.0) (add128 i f.1) h.1 in
    (r, ground (arith, h.0))

pub expect_loop-none :
    (a : Text) (accounts : HashMap Text Account) (counts expected : HashMap Text ℕ)
    → Map.get text_dec a counts ≡ none
    → Map.entry_or text_dec a 0 (expect_loop accounts counts expected)
      ≡ Map.entry_or text_dec a 0 expected
unfolding expect_loop Map.get
expect_loop-none a accounts [] expected h = refl
expect_loop-none a accounts ((b, k) ∷ counts) expected h = elim (text_dec a b) [
  | yes p ↦ absurd (ground arith)
  | no n ↦
      let next = saturating_sub (nonce_of accounts b) k in
      expect_loop-none a accounts counts (Map.insert text_dec b next expected) (ground arith)
      ∙ Map.entry_or-insert_ne text_dec a b 0 next expected n
]

-- Each sender counts from its nonce less the number of its transactions.
pub expect_loop_entry :
    (a : Text) (k : ℕ) (accounts : HashMap Text Account) (counts expected : HashMap Text ℕ)
    → IsUnique text_dec counts
    → Map.get text_dec a counts ≡ some k
    → Map.entry_or text_dec a 0 (expect_loop accounts counts expected)
      ≡ saturating_sub (nonce_of accounts a) k
unfolding expect_loop Map.get
expect_loop_entry a k accounts [] expected u h = absurd (ground arith)
expect_loop_entry a k accounts ((b, j) ∷ counts) expected u h =
    let next = saturating_sub (nonce_of accounts b) j in
    elim (text_dec a b) [
      | yes p ↦
          let e : j ≡ k = ground arith in
          let now : Map.entry_or text_dec b 0
                (expect_loop accounts counts (Map.insert text_dec b next expected))
              ≡ next =
            expect_loop-none b accounts counts (Map.insert text_dec b next expected) u.0
            ∙ Map.entry_or-insert_self text_dec b 0 next expected in
          rw (p, ← e) now
      | no n ↦
          expect_loop_entry a k accounts counts (Map.insert text_dec b next expected) u.1
            (ground arith)
    ]
