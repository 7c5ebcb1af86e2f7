-- ===== src/Validate/Complete.antt =====
-- The second loop of `validate_block` accepts whatever counts up and has distinct ids.
use the_block.Prelude.{
  ℕ, suc, ◌+◌, ◌^◌, ◌<◌, ◌≡◌, ◌≢◌, refl, List, [], ◌∷◌, none, Text, Bytes, arith, key_dec, text_dec,
  All, if_pos, if_neg, ◌∙◌, ap,
}
use the_block.Prelude.Word.{add64}
use the_block.Prelude.Result.{ok}
use the_block.Prelude.Map
use the_block.Prelude.Map.{HashMap}
use the_block.Transaction.{Crypto, SignedTransaction, id}
use the_block.Mempool.{key}
use the_block.Apply.{zero_address}
use the_block.Check.{insert_new, HashSet}
use the_block.Validate.{nonce_loop}
use the_block.Validate.Distinct.{nonces_of, count_up, AllDistinct}
use the_block.Validate.Counts.{count_of, count_of_self, count_of_other}

-- The nonces of every sender but the zero address go up by one from what is expected.
pub record CountsUp (expected : HashMap Text ℕ) (txs : List SignedTransaction) : Type 0 where
  pub steps :
      (a : Text)
      → a ≢ zero_address
      → nonces_of a txs ≡ count_up (count_of a txs) (Map.entry_or text_dec a 0 expected)
  pub fits :
      (a : Text) → a ≢ zero_address → Map.entry_or text_dec a 0 expected + count_of a txs < 2 ^ 64

-- No nonce above the expected one is in the set.
abbrev pub IsFresh : HashMap Text ℕ → HashSet (Text × ℕ) → Type 0
IsFresh expected keys =
    (a : Text) (n : ℕ)
    → a ≢ zero_address
    → Map.entry_or text_dec a 0 expected < n
    → Map.get key_dec (a, n) keys ≡ none

abbrev next_nonce : HashMap Text ℕ → SignedTransaction → ℕ
next_nonce expected tx = add64 (Map.entry_or text_dec tx.payload.from_ 0 expected) 1

abbrev advanced : HashMap Text ℕ → SignedTransaction → HashMap Text ℕ
advanced expected tx = Map.insert text_dec tx.payload.from_ (next_nonce expected tx) expected

module _ (expected : HashMap Text ℕ) (tx : SignedTransaction) (txs : List SignedTransaction)
    (h : CountsUp expected (tx ∷ txs)) where
  -- The zero address is not counted.
  skipped-CountsUp : tx.payload.from_ ≡ zero_address → CountsUp expected txs
  skipped-CountsUp z = record {
    steps = λ a n.
        let m : a ≢ tx.payload.from_ = λ p. n (p ∙ z) in
        rw (if_neg (text_dec a tx.payload.from_) m) at (h.steps a n);
    fits = λ a n.
        let m : a ≢ tx.payload.from_ = λ p. n (p ∙ z) in
        omega (arith, h.fits a n, count_of_other a tx txs m);
  }

  module _ (nz : tx.payload.from_ ≢ zero_address) where
    abbrev a : Text
    a = tx.payload.from_

    own_step :
        (tx.payload.nonce ≡ next_nonce expected tx)
        × (nonces_of a txs ≡ count_up (count_of a txs) (next_nonce expected tx))
    own_step =
        let e = rw (if_pos (text_dec a a) refl) at (h.steps a nz) in
        (ground (arith, e), ground (arith, e))

    own_fits : Map.entry_or text_dec a 0 expected + suc (count_of a txs) < 2 ^ 64
    own_fits = omega (arith, h.fits a nz, count_of_self a tx txs refl)

    moved : Map.entry_or text_dec a 0 (advanced expected tx) ≡ next_nonce expected tx
    moved = Map.entry_or-insert_self text_dec a 0 (next_nonce expected tx) expected

    kept :
        (b : Text)
        → b ≢ a
        → Map.entry_or text_dec b 0 (advanced expected tx) ≡ Map.entry_or text_dec b 0 expected
    kept b m = Map.entry_or-insert_ne text_dec b a 0 (next_nonce expected tx) expected m

    advanced-CountsUp : CountsUp (advanced expected tx) txs
    advanced-CountsUp = record {
      steps = λ b n. elim (text_dec b a) [
        | yes p ↦ rw (p, moved) own_step.1
        | no m ↦ rw (kept b m) (rw (if_neg (text_dec b a) m) at (h.steps b n))
      ];
      fits = λ b n. elim (text_dec b a) [
        | yes p ↦ rw p (omega (arith, moved, own_fits))
        | no m ↦ omega (arith, h.fits b n, count_of_other b tx txs m, kept b m)
      ];
    }

    advanced-IsFresh :
        (keys : HashSet (Text × ℕ))
        → IsFresh expected keys
        → IsFresh (advanced expected tx) (Map.insert key_dec (key tx) tt keys)
    advanced-IsFresh keys fresh b k n lt =
        let e : (b, k) ≢ key tx = λ q.
          let p : b ≡ a = ap (λ r. r.0) q in
          let j : k ≡ tx.payload.nonce = ap (λ r. r.1) q in
          absurd (omega (arith, rw p at lt, moved, j, own_step.0)) in
        Map.get-insert_ne key_dec (b, k) (key tx) tt keys e
        ∙ fresh b k n (elim (text_dec b a) [
          | yes p ↦ rw p (omega (arith, rw p at lt, moved, own_fits))
          | no m ↦ omega (arith, lt, kept b m)
        ])

    own-IsFresh :
        (keys : HashSet (Text × ℕ)) → IsFresh expected keys → Map.get key_dec (key tx) keys ≡ none
    own-IsFresh keys fresh = fresh a tx.payload.nonce nz (omega (arith, own_step.0, own_fits))

module _ (crypto : Crypto) where
  -- Ids that are new stay new after another id is added.
  pub unseen :
      (tx : SignedTransaction) (ids : HashSet Bytes) (txs : List SignedTransaction)
      → All (λ t. id crypto t ≢ id crypto tx) txs
      → All (λ t. Map.get text_dec (id crypto t) ids ≡ none) txs
      → All
          (λ t. Map.get text_dec (id crypto t) (Map.insert text_dec (id crypto tx) tt ids) ≡ none)
          txs
  unseen tx ids [] n h = tt
  unseen tx ids (t ∷ txs) n h = (
    Map.get-insert_ne text_dec (id crypto t) (id crypto tx) tt ids n.0 ∙ h.0,
    unseen tx ids txs n.1 h.1,
  )

  pub nonce_loop_accepts :
      (txs : List SignedTransaction) (expected : HashMap Text ℕ) (keys : HashSet (Text × ℕ))
      (ids : HashSet Bytes)
      → CountsUp expected txs
      → IsFresh expected keys
      → AllDistinct crypto txs
      → All (λ t. Map.get text_dec (id crypto t) ids ≡ none) txs
      → nonce_loop crypto expected keys ids txs ≡ ok tt
  unfolding nonce_loop insert_new
  nonce_loop_accepts [] expected keys ids h fresh d u = refl
  nonce_loop_accepts (tx ∷ txs) expected keys ids h fresh d u =
      let later = unseen tx ids txs d.0 u.1 in
      elim (text_dec tx.payload.from_ zero_address) [
        | yes z ↦
            let rest =
              nonce_loop_accepts txs expected keys (Map.insert text_dec (id crypto tx) tt ids)
                (skipped-CountsUp expected tx txs h z) fresh d.1 later in
            ground (arith, u.0)
        | no z ↦
            let rest =
              nonce_loop_accepts txs (advanced expected tx) (Map.insert key_dec (key tx) tt keys)
                (Map.insert text_dec (id crypto tx) tt ids) (advanced-CountsUp expected tx txs h z)
                (advanced-IsFresh expected tx txs h z keys fresh) d.1 later in
            let now = (own_step expected tx txs h z).0 in
            ground (arith, u.0, own-IsFresh expected tx txs h z keys fresh)
      ]
