-- ===== src/ValidChain/Loop.antt =====
-- What the loop over the transactions of a block in `is_valid_chain_rust` guarantees about ids and
-- nonces.
use the_block.Prelude.{
  ℕ, suc, ◌≡◌, ◌≢◌, refl, sym, ap, ◌∙◌, List, [], ◌∷◌, none, some, Text, Bytes, arith, inl, inr,
  key_dec, text_dec, All, length, if_pos, if_neg, Option-cases,
}
use the_block.Prelude.Word.{add64, add128}
use the_block.Prelude.Result.{ok, Result-cases}
use the_block.Prelude.Map
use the_block.Prelude.Map.{HashMap}
use the_block.Fee.{decompose}
use the_block.Transaction.{Crypto, SignedTransaction, id}
use the_block.Mempool.{key}
use the_block.Apply.{zero_address}
use the_block.Check.{insert_new, HashSet}
use the_block.Validate.Distinct.{nonces_of, AllDistinct, apart}
use the_block.ValidChain.{tx_loop}
use the_block.ValidChain.Complete.{count_from, Follows}

module _ (crypto : Crypto) where
  -- One round of the loop that goes on, seen from ids and nonces.
  pub record IsStep (expected : HashMap Text ℕ) (ids : HashSet Bytes) (tx : SignedTransaction)
      (txs : List SignedTransaction) (c i : ℕ) (r : ℕ × ℕ) : Type 0 where
    fresh : Map.get text_dec (id crypto tx) ids ≡ none
    after : HashMap Text ℕ
    keys : HashSet (Text × ℕ)
    sums : ℕ × ℕ
    others :
        (a : Text)
        → a ≢ zero_address
        → a ≢ tx.payload.from_
        → Map.get text_dec a after ≡ Map.get text_dec a expected
    own :
        tx.payload.from_ ≢ zero_address
        → (tx.payload.nonce ≡ Map.entry_or text_dec tx.payload.from_ tx.payload.nonce expected)
          × (Map.get text_dec tx.payload.from_ after ≡ some (add64 tx.payload.nonce 1))
    rest :
        tx_loop crypto after keys (Map.insert text_dec (id crypto tx) tt ids) sums.0 sums.1 txs
        ≡ ok r

  tx-IsStep :
      (tx : SignedTransaction) (txs : List SignedTransaction) (expected : HashMap Text ℕ)
      (keys : HashSet (Text × ℕ)) (ids : HashSet Bytes) (c i : ℕ) {r : ℕ × ℕ}
      → tx_loop crypto expected keys ids c i (tx ∷ txs) ≡ ok r
      → IsStep expected ids tx txs c i r
  unfolding tx_loop insert_new
  tx-IsStep tx txs expected keys ids c i {r} h =
      elim (Result-cases (decompose tx.payload.fee_selector tx.payload.fee)) [
        | inr (e, bad) ↦ absurd (ground arith)
        | inl (f, good) ↦ elim (Option-cases (Map.get text_dec (id crypto tx) ids)) [
          | inr (e, old) ↦ absurd (ground arith)
          | inl new ↦ elim (text_dec tx.payload.from_ zero_address) [
            | yes z ↦ record {
              fresh = new;
              after = expected;
              keys = keys;
              sums = (add128 c f.0, add128 i f.1);
              others = λ a n m. refl;
              own = λ n. absurd (n z);
              rest = ground arith;
            }
            | no n ↦ elim (Option-cases (Map.get key_dec (key tx) keys)) [
              | inr (e, used) ↦ absurd (ground arith)
              | inl unused ↦
                  let a = tx.payload.from_ in
                  let next = Map.entry_or text_dec a tx.payload.nonce expected in
                  let same : tx.payload.nonce ≡ next = ground arith in
                  record {
                    fresh = new;
                    after = Map.insert text_dec a (add64 next 1) expected;
                    keys = Map.insert key_dec (key tx) tt keys;
                    sums = (add128 c f.0, add128 i f.1);
                    others = λ b z m. Map.get-insert_ne text_dec b a (add64 next 1) expected m;
                    own = λ z. (
                      same,
                      Map.get-insert_self text_dec a (add64 next 1) expected
                          ∙ ap (λ q. some (add64 q 1)) (sym same),
                    );
                    rest = ground arith;
                  }
            ]
          ]
        ]
      ]

  pub loop_apart :
      (txs : List SignedTransaction) (expected : HashMap Text ℕ) (keys : HashSet (Text × ℕ))
      (ids : HashSet Bytes) (c i : ℕ) {r : ℕ × ℕ}
      → tx_loop crypto expected keys ids c i txs ≡ ok r
      → AllDistinct crypto txs × All (λ t. Map.get text_dec (id crypto t) ids ≡ none) txs
  loop_apart [] expected keys ids c i h = (tt, tt)
  loop_apart (tx ∷ txs) expected keys ids c i h =
      let o = tx-IsStep tx txs expected keys ids c i h in
      let (rest, later) =
        loop_apart txs o.after o.keys (Map.insert text_dec (id crypto tx) tt ids) o.sums.0 o.sums.1
          o.rest in
      let (ne, old) = apart crypto tx ids txs later in ((ne, rest), (o.fresh, old))

  pub loop-Follows :
      (a : Text) (txs : List SignedTransaction) (expected : HashMap Text ℕ)
      (keys : HashSet (Text × ℕ)) (ids : HashSet Bytes) (c i : ℕ) {r : ℕ × ℕ}
      → a ≢ zero_address
      → tx_loop crypto expected keys ids c i txs ≡ ok r
      → Follows (Map.get text_dec a expected) (nonces_of a txs)
  unfolding Map.entry_or
  loop-Follows a [] expected keys ids c i nz h = elim (Option-cases (Map.get text_dec a expected)) [
    | inl e ↦ rw e (0, refl)
    | inr (first, e) ↦ rw e refl
  ]
  loop-Follows a (tx ∷ txs) expected keys ids c i nz h =
      let o = tx-IsStep tx txs expected keys ids c i h in
      let rest =
        loop-Follows a txs o.after o.keys (Map.insert text_dec (id crypto tx) tt ids) o.sums.0
          o.sums.1 nz o.rest in
      elim (text_dec a tx.payload.from_) [
        | no m ↦ rw (if_neg (text_dec a tx.payload.from_) m, ← o.others a nz m) rest
        | yes p ↦
            let (now, then) = o.own (λ z. nz (p ∙ z)) in
            let g = rw (ap (λ q. Map.get text_dec q o.after) p ∙ then) at rest in
            let all : tx.payload.nonce ∷ nonces_of a txs
                ≡ count_from (suc (length (nonces_of a txs))) tx.payload.nonce =
              ap (λ q. tx.payload.nonce ∷ q) g in
            elim (Option-cases (Map.get text_dec a expected)) [
              | inl e ↦ rw (e, if_pos (text_dec a tx.payload.from_) p) (tx.payload.nonce, all)
              | inr (first, e) ↦
                  let f : tx.payload.nonce ≡ first =
                    ground (arith, e, ap (λ q. Map.get text_dec q expected) p) in
                  rw (e, if_pos (text_dec a tx.payload.from_) p, ← f) all
            ]
      ]
