-- ===== src/Hashlayout/Injective.antt =====
-- The preimage determines the header: two headers with the same preimage are equal.
use the_block.Prelude.{
  ℕ, zero, suc, ◌/◌, ◌^◌, ◌<◌, ◌≡◌, refl, ap, List, [], ◌∷◌, ◌++◌, Bytes, length, arith,
  length-append, All, sym, ◌∙◌, ap₂,
}
use native.Mathlib.Nat.{pow-suc}
use the_block.Transaction.{Crypto, le_bytes}
use the_block.Hashlayout.{
  BlockEncoder, encode, concat, calculate_genesis_hash_runtime, build_genesis_digest,
}

-- What build.rs hashes is what the runtime helper hashes.
pub genesis_digest_agrees :
    (crypto : Crypto) → build_genesis_digest crypto ≡ calculate_genesis_hash_runtime crypto
unfolding build_genesis_digest calculate_genesis_hash_runtime
genesis_digest_agrees crypto = refl

append-injective {ℓ} :
    {A : Type ℓ} (xs ys us vs : List A)
    → length xs ≡ length ys
    → xs ++ us ≡ ys ++ vs
    → (xs ≡ ys) × (us ≡ vs)
append-injective [] [] us vs h e = (refl, e)
append-injective [] (y ∷ ys) us vs h e = absurd (omega arith)
append-injective (x ∷ xs) [] us vs h e = absurd (omega arith)
append-injective (x ∷ xs) (y ∷ ys) us vs h e = ground (arith, append-injective xs ys us vs)

length-le_bytes : (k n : ℕ) → length (le_bytes k n) ≡ k
unfolding le_bytes
length-le_bytes zero n = refl
length-le_bytes (suc k) n = ap suc (length-le_bytes k (n / 256))

-- The bytes of two integers are equal only if the integers are.
le_bytes-injective : (k m n : ℕ) → m < 256 ^ k → n < 256 ^ k → le_bytes k m ≡ le_bytes k n → m ≡ n
unfolding le_bytes
le_bytes-injective zero m n hm hn e = omega arith
le_bytes-injective (suc k) m n hm hn e =
    ground (arith, pow-suc 256 k, le_bytes-injective k (m / 256) (n / 256))

-- A number of eight bytes at the front of a text can be read off.
word-injective :
    (m n : ℕ) (us vs : Bytes)
    → m < 2 ^ 64
    → n < 2 ^ 64
    → le_bytes 8 m ++ us ≡ le_bytes 8 n ++ vs
    → (m ≡ n) × (us ≡ vs)
word-injective m n us vs hm hn e =
    let (p, q) =
      append-injective (le_bytes 8 m) (le_bytes 8 n) us vs
        (length-le_bytes 8 m ∙ sym (length-le_bytes 8 n)) e in
    (le_bytes-injective 8 m n hm hn p, q)

-- Ids of 32 bytes each, joined, can be taken apart.
concat-injective :
    (xs ys : List Bytes)
    → All (λ x. length x ≡ 32) xs
    → All (λ y. length y ≡ 32) ys
    → concat xs ≡ concat ys
    → xs ≡ ys
concat-injective [] [] hx hy e = refl
concat-injective [] (y ∷ ys) hx hy e =
    absurd (omega (arith, ap (length {A = ℕ}) e, length-append y (concat ys)))
concat-injective (x ∷ xs) [] hx hy e =
    absurd (omega (arith, ap (length {A = ℕ}) e, length-append x (concat xs)))
concat-injective (x ∷ xs) (y ∷ ys) hx hy e =
    let (p, q) = append-injective x y (concat xs) (concat ys) (hx.0 ∙ sym hy.0) e in
    ap₂ ◌∷◌ p (concat-injective xs ys hx.1 hy.1 q)

-- The header fields have the width of their types, the two hashes 64 characters, the ids 32 bytes.
pub record IsWellSized (e : BlockEncoder) : Type 0 where
  pub index : e.index < 2 ^ 64
  pub nonce : e.nonce < 2 ^ 64
  pub difficulty : e.difficulty < 2 ^ 64
  pub coin_c : e.coin_c < 2 ^ 64
  pub coin_i : e.coin_i < 2 ^ 64
  pub prev : length e.prev ≡ 64
  pub fee_checksum : length e.fee_checksum ≡ 64
  pub tx_ids : All (λ x. length x ≡ 32) e.tx_ids

-- Two headers with the same preimage are the same header, if their numbers fit in 64 bits, their
-- two hashes have 64 characters and their ids 32 bytes (`IsWellSized`).
pub encode-injective :
    (a b : BlockEncoder) → IsWellSized a → IsWellSized b → encode a ≡ encode b → a ≡ b
unfolding encode
encode-injective a b ha hb e =
    let (e1, r1) = word-injective a.index b.index _ _ ha.index hb.index e in
    let (e2, r2) = append-injective a.prev b.prev _ _ (ha.prev ∙ sym hb.prev) r1 in
    let (e3, r3) = word-injective a.nonce b.nonce _ _ ha.nonce hb.nonce r2 in
    let (e4, r4) = word-injective a.difficulty b.difficulty _ _ ha.difficulty hb.difficulty r3 in
    let (e5, r5) = word-injective a.coin_c b.coin_c _ _ ha.coin_c hb.coin_c r4 in
    let (e6, r6) = word-injective a.coin_i b.coin_i _ _ ha.coin_i hb.coin_i r5 in
    let (e7, r7) =
      append-injective a.fee_checksum b.fee_checksum _ _ (ha.fee_checksum ∙ sym hb.fee_checksum)
        r6 in
    let e8 = concat-injective a.tx_ids b.tx_ids ha.tx_ids hb.tx_ids r7 in
    λ i. record {
      index = e1 i;
      prev = e2 i;
      nonce = e3 i;
      difficulty = e4 i;
      coin_c = e5 i;
      coin_i = e6 i;
      fee_checksum = e7 i;
      tx_ids = e8 i;
    }
