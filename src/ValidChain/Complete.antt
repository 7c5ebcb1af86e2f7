-- ===== src/ValidChain/Complete.antt =====
-- The loop over the transactions of a block in `is_valid_chain_rust` accepts whatever is signed, has
-- valid fees and distinct ids, and counts up for each sender from its first nonce.
use the_block.Prelude.{
  ℕ, zero, suc, ◌+◌, ◌^◌, ◌<◌, ◌≤◌, ◌≡◌, ◌≢◌, refl, sym, ap, ◌∙◌, List, [], ◌∷◌, Option, none, some,
  true, Text, Bytes, arith, inl, inr, key_dec, text_dec, All, length, if_pos, if_neg, Option-cases,
}
use the_block.Prelude.Word.{add64, add128}
use the_block.Prelude.Result.{ok}
use the_block.Prelude.Map
use the_block.Prelude.Map.{HashMap}
use the_block.Transaction.{Crypto, SignedTransaction, id, verify_signed_tx}
use the_block.Mempool.{key}
use the_block.Mempool.Reserve.{fees}
use the_block.Rewards.{fee_loop}
use the_block.Apply.{zero_address}
use the_block.Check.{insert_new, HashSet}
use the_block.Validate.Sound.{HasFee}
use the_block.Validate.Distinct.{nonces_of, count_up, AllDistinct}
use the_block.Validate.Complete.{unseen}
use the_block.ValidChain.{tx_loop}
use the_block.ValidChain.Sound.{IsSigned}

-- `n` numbers that go up by one, from `first`.
abbrev pub count_from : ℕ → ℕ → List ℕ
count_from zero first = []
count_from (suc n) first = first ∷ count_from n (add64 first 1)

pub count_up-count_from : (n start : ℕ) → count_up n start ≡ count_from n (add64 start 1)
count_up-count_from zero start = refl
count_up-count_from (suc n) start =
    ap (λ q. add64 start 1 ∷ q) (count_up-count_from n (add64 start 1))

-- Nonces that go up by one, from a given one or from any.
abbrev pub Follows : Option ℕ → List ℕ → Type 0
Follows none ns = (first : ℕ) × (ns ≡ count_from (length ns) first)
Follows (some first) ns = ns ≡ count_from (length ns) first

-- The state of the loop, for the transactions that are left.
pub record IsOpen (expected : HashMap Text ℕ) (keys : HashSet (Text × ℕ))
    (txs : List SignedTransaction) : Type 0 where
  pub follows :
      (a : Text) → a ≢ zero_address → Follows (Map.get text_dec a expected) (nonces_of a txs)
  pub unused :
      (a : Text) (n : ℕ)
      → a ≢ zero_address
      → Map.get text_dec a expected ≡ none
      → Map.get key_dec (a, n) keys ≡ none
  pub free :
      (a : Text) (n e : ℕ)
      → a ≢ zero_address
      → Map.get text_dec a expected ≡ some e
      → e ≤ n
      → Map.get key_dec (a, n) keys ≡ none

module _ (expected : HashMap Text ℕ) (keys : HashSet (Text × ℕ)) (tx : SignedTransaction)
    (txs : List SignedTransaction) (h : IsOpen expected keys (tx ∷ txs)) where
  skipped-IsOpen : tx.payload.from_ ≡ zero_address → IsOpen expected keys txs
  skipped-IsOpen z = record {
    follows = λ a n. rw (if_neg (text_dec a tx.payload.from_) (λ p. n (p ∙ z))) at (h.follows a n);
    unused = h.unused;
    free = h.free;
  }

  module _ (nz : tx.payload.from_ ≢ zero_address) (small : tx.payload.nonce + 1 < 2 ^ 64) where
    abbrev a : Text
    a = tx.payload.from_

    abbrev n : ℕ
    n = tx.payload.nonce

    -- The nonce is the expected one, and the others follow it.
    own :
        (Map.entry_or text_dec a n expected ≡ n)
        × (nonces_of a txs ≡ count_from (length (nonces_of a txs)) (add64 n 1))
    unfolding Map.entry_or
    own = elim (Option-cases (Map.get text_dec a expected)) [
      | inl fresh ↦
          let (first, e) = rw (fresh, if_pos (text_dec a a) refl) at (h.follows a nz) in
          let f : n ≡ first = ground (arith, e) in (ground arith, rw f (ground (arith, e)))
      | inr (e, seen) ↦
          let g = rw (seen, if_pos (text_dec a a) refl) at (h.follows a nz) in
          let f : n ≡ e = ground (arith, g) in (ground arith, rw f (ground (arith, g)))
    ]

    own_free : (k : ℕ) → n ≤ k → Map.get key_dec (a, k) keys ≡ none
    unfolding Map.entry_or
    own_free k le = elim (Option-cases (Map.get text_dec a expected)) [
      | inl fresh ↦ h.unused a k nz fresh
      | inr (e, seen) ↦ h.free a k e nz seen (ground (arith, own.0))
    ]

    abbrev after : HashMap Text ℕ
    after = Map.insert text_dec a (add64 (Map.entry_or text_dec a n expected) 1) expected

    after_self : Map.get text_dec a after ≡ some (n + 1)
    after_self =
        Map.get-insert_self text_dec a (add64 (Map.entry_or text_dec a n expected) 1) expected
        ∙ ap some (omega (arith, own.0, small))

    after_other : (b : Text) → b ≢ a → Map.get text_dec b after ≡ Map.get text_dec b expected
    after_other b m =
        Map.get-insert_ne text_dec b a (add64 (Map.entry_or text_dec a n expected) 1) expected m

    other_keys :
        (b : Text) (k : ℕ)
        → (b, k) ≢ key tx
        → Map.get key_dec (b, k) (Map.insert key_dec (key tx) tt keys) ≡ Map.get key_dec (b, k) keys
    other_keys b k m = Map.get-insert_ne key_dec (b, k) (key tx) tt keys m

    next-IsOpen : IsOpen after (Map.insert key_dec (key tx) tt keys) txs
    next-IsOpen = record {
      follows = λ b z. elim (text_dec b a) [
        | yes p ↦
            rw (p, after_self)
              (own.1 ∙ ap (count_from (length (nonces_of a txs))) (omega (arith, small)))
        | no m ↦ rw (after_other b m) (rw (if_neg (text_dec b a) m) at (h.follows b z))
      ];
      unused = λ b k z g. elim (text_dec b a) [
        | yes p ↦ absurd (cc (g, ap (λ q. Map.get text_dec q after) p, after_self))
        | no m ↦
            other_keys b k (λ q. m (ap (λ r. r.0) q)) ∙ h.unused b k z (sym (after_other b m) ∙ g)
      ];
      free = λ b k e z g le. elim (text_dec b a) [
        | yes p ↦
            let same : e ≡ n + 1 =
              ground (arith, g, ap (λ q. Map.get text_dec q after) p, after_self) in
            let m : (b, k) ≢ key tx = λ q. absurd (omega (arith, ap (λ r. r.1) q, same, le)) in
            other_keys b k m ∙ rw p (own_free k (omega (arith, same, le)))
        | no m ↦
            other_keys b k (λ q. m (ap (λ r. r.0) q))
            ∙ h.free b k e z (sym (after_other b m) ∙ g) le
      ];
    }

module _ (crypto : Crypto) where
  pub tx_loop_accepts :
      (txs : List SignedTransaction) (expected : HashMap Text ℕ) (keys : HashSet (Text × ℕ))
      (ids : HashSet Bytes) (c i : ℕ)
      → IsOpen expected keys txs
      → All (λ t. t.payload.nonce + 1 < 2 ^ 64) txs
      → All (IsSigned crypto) txs
      → All HasFee txs
      → AllDistinct crypto txs
      → All (λ t. Map.get text_dec (id crypto t) ids ≡ none) txs
      → tx_loop crypto expected keys ids c i txs ≡ ok (fee_loop c i txs)
  unfolding tx_loop fee_loop insert_new
  tx_loop_accepts [] expected keys ids c i h small signed fine d u = refl
  tx_loop_accepts (tx ∷ txs) expected keys ids c i h small signed fine d u =
      let later = unseen crypto tx ids txs d.0 u.1 in
      let ids' = Map.insert text_dec (id crypto tx) tt ids in
      let c' = add128 c (fees tx).0 in
      let i' = add128 i (fees tx).1 in
      elim (text_dec tx.payload.from_ zero_address) [
        | yes z ↦
            let rest =
              tx_loop_accepts txs expected keys ids' c' i' (skipped-IsOpen expected keys tx txs h z)
                small.1 signed.1 fine.1 d.1 later in
            ground (arith, u.0, fine.0)
        | no z ↦
            let rest =
              tx_loop_accepts txs (after expected keys tx txs h z small.0)
                (Map.insert key_dec (key tx) tt keys) ids' c' i'
                (next-IsOpen expected keys tx txs h z small.0) small.1 signed.1 fine.1 d.1 later in
            let now = (own expected keys tx txs h z small.0).0 in
            let free = own_free expected keys tx txs h z small.0 tx.payload.nonce (omega arith) in
            let genuine : verify_signed_tx crypto tx ≡ true = elim (signed.0) [
              | inl y ↦ absurd (z y)
              | inr s ↦ s
            ] in
            ground (arith, u.0, fine.0)
      ]
