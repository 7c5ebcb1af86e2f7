-- ===== src/Validate/Distinct.antt =====
-- What the second loop of `validate_block` guarantees: no transaction comes twice, and the nonces of
-- each sender go up by one.
use the_block.Prelude.{
  ℕ, zero, suc, ◌≡◌, ◌≢◌, refl, List, [], ◌∷◌, none, Text, Bytes, arith, key_dec, text_dec, All,
  AllApart, length, ite, if_pos, if_neg, sym, ◌∙◌, ap, ap₂,
}
use the_block.Prelude.Word.{add64}
use the_block.Prelude.Result.{ok}
use the_block.Prelude.Map
use the_block.Prelude.Map.{HashMap}
use the_block.Transaction.{Crypto, SignedTransaction, id}
use the_block.Mempool.{key}
use the_block.Apply.{zero_address}
use the_block.Check.{insert_new, HashSet}
use the_block.Validate.{nonce_loop}

-- The nonces of one sender, in their order in the block.
abbrev pub nonces_of : Text → List SignedTransaction → List ℕ
nonces_of a [] = []
nonces_of a (tx ∷ txs) =
    ite (text_dec a tx.payload.from_) (tx.payload.nonce ∷ nonces_of a txs) (nonces_of a txs)

-- `n` numbers that go up by one, after `start`.
abbrev pub count_up : ℕ → ℕ → List ℕ
count_up zero start = []
count_up (suc n) start = add64 start 1 ∷ count_up n (add64 start 1)

module _ (crypto : Crypto) where
  -- No two transactions have the same id.
  abbrev pub AllDistinct : List SignedTransaction → Type 0
  AllDistinct = AllApart (id crypto)

  -- One round of the loop that goes on.
  record IsRound (expected : HashMap Text ℕ) (ids : HashSet Bytes) (tx : SignedTransaction)
      (txs : List SignedTransaction) : Type 0 where
    fresh : Map.get text_dec (id crypto tx) ids ≡ none
    after : HashMap Text ℕ
    keys : HashSet (Text × ℕ)
    others :
        (a : Text)
        → a ≢ zero_address
        → a ≢ tx.payload.from_
        → Map.entry_or text_dec a 0 after ≡ Map.entry_or text_dec a 0 expected
    own :
        tx.payload.from_ ≢ zero_address
        → (tx.payload.nonce ≡ add64 (Map.entry_or text_dec tx.payload.from_ 0 expected) 1)
          × (Map.entry_or text_dec tx.payload.from_ 0 after ≡ tx.payload.nonce)
    rest : nonce_loop crypto after keys (Map.insert text_dec (id crypto tx) tt ids) txs ≡ ok tt

  nonce-IsRound :
      (expected : HashMap Text ℕ) (keys : HashSet (Text × ℕ)) (ids : HashSet Bytes)
      (tx : SignedTransaction) (txs : List SignedTransaction)
      → nonce_loop crypto expected keys ids (tx ∷ txs) ≡ ok tt
      → IsRound expected ids tx txs
  unfolding nonce_loop insert_new
  nonce-IsRound expected keys ids tx txs h = elim (text_dec tx.payload.from_ zero_address) [
    | yes z ↦ record {
      fresh = ground arith;
      after = expected;
      keys = keys;
      others = λ a n m. refl;
      own = λ n. absurd (n z);
      rest = ground arith;
    }
    | no z ↦
        let next = add64 (Map.entry_or text_dec tx.payload.from_ 0 expected) 1 in
        record {
          fresh = ground arith;
          after = Map.insert text_dec tx.payload.from_ next expected;
          keys = Map.insert key_dec (key tx) tt keys;
          others = λ a n m. Map.entry_or-insert_ne text_dec a tx.payload.from_ 0 next expected m;
          own = λ n. (
            ground arith,
            Map.entry_or-insert_self text_dec tx.payload.from_ 0 next expected ∙ ground arith,
          );
          rest = ground arith;
        }
  ]

  -- Ids that a larger set does not have differ from the one that was added.
  pub apart :
      (tx : SignedTransaction) (ids : HashSet Bytes) (txs : List SignedTransaction)
      → All
          (λ t. Map.get text_dec (id crypto t) (Map.insert text_dec (id crypto tx) tt ids) ≡ none)
          txs
      → All (λ t. id crypto t ≢ id crypto tx) txs
        × All (λ t. Map.get text_dec (id crypto t) ids ≡ none) txs
  apart tx ids [] h = (tt, tt)
  apart tx ids (t ∷ txs) h =
      let (ne, old) = apart tx ids txs h.1 in
      let n : id crypto t ≢ id crypto tx = λ p. cc (
        h.0,
        ap (λ q. Map.get text_dec q (Map.insert text_dec (id crypto tx) tt ids)) p,
        Map.get-insert_self text_dec (id crypto tx) tt ids,
      ) in
      ((n, ne), (sym (Map.get-insert_ne text_dec (id crypto t) (id crypto tx) tt ids n) ∙ h.0, old))

  pub ids_apart :
      (txs : List SignedTransaction) (expected : HashMap Text ℕ) (keys : HashSet (Text × ℕ))
      (ids : HashSet Bytes)
      → nonce_loop crypto expected keys ids txs ≡ ok tt
      → AllDistinct txs × All (λ t. Map.get text_dec (id crypto t) ids ≡ none) txs
  ids_apart [] expected keys ids h = (tt, tt)
  ids_apart (tx ∷ txs) expected keys ids h =
      let o = nonce-IsRound expected keys ids tx txs h in
      let (rest, later) =
        ids_apart txs o.after o.keys (Map.insert text_dec (id crypto tx) tt ids) o.rest in
      let (ne, old) = apart tx ids txs later in ((ne, rest), (o.fresh, old))

  pub nonces_count :
      (a : Text) (txs : List SignedTransaction) (expected : HashMap Text ℕ)
      (keys : HashSet (Text × ℕ)) (ids : HashSet Bytes)
      → a ≢ zero_address
      → nonce_loop crypto expected keys ids txs ≡ ok tt
      → nonces_of a txs ≡ count_up (length (nonces_of a txs)) (Map.entry_or text_dec a 0 expected)
  nonces_count a [] expected keys ids n h = refl
  nonces_count a (tx ∷ txs) expected keys ids n h =
      let o = nonce-IsRound expected keys ids tx txs h in
      let rest =
        nonces_count a txs o.after o.keys (Map.insert text_dec (id crypto tx) tt ids) n o.rest in
      elim (text_dec a tx.payload.from_) [
        | yes p ↦
            let (now, then) = o.own (λ z. n (p ∙ z)) in
            let moved : Map.entry_or text_dec a 0 o.after
                ≡ add64 (Map.entry_or text_dec a 0 expected) 1 =
              ap (λ q. Map.entry_or text_dec q 0 o.after) p
              ∙ then
              ∙ now
              ∙ ap (λ q. add64 (Map.entry_or text_dec q 0 expected) 1) (sym p) in
            let here : tx.payload.nonce ≡ add64 (Map.entry_or text_dec a 0 expected) 1 =
              now ∙ ap (λ q. add64 (Map.entry_or text_dec q 0 expected) 1) (sym p) in
            rw (if_pos (text_dec a tx.payload.from_) p)
              (ap₂ (λ x xs. x ∷ xs) here (rest ∙ ap (count_up (length (nonces_of a txs))) moved))
        | no m ↦ rw (if_neg (text_dec a tx.payload.from_) m, ← o.others a n m) rest
      ]
