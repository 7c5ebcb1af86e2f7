-- ===== src/Consensus/Laws.antt =====
-- The loop of the assertion compares whole texts.
use the_block.Prelude.{
  ℕ, zero, suc, ◌+◌, ◌≡◌, ◌≢◌, ◌↔◌, ◌⊎◌, inl, inr, ◌==◌, Bool-cases, refl, [], ◌∷◌, Text, length,
  arith, ap, sym,
}
use the_block.Prelude.Result.{ok, err}
use the_block.Consensus.{
  length_mismatch, hash_mismatch, out_of_bounds, compare_from, assert_same, assert_genesis_hash,
  genesis_hash, calculate_genesis_hash,
}

-- Past the first characters, the loop does on two texts what it does on their rests.
compare_shift :
    (x y : ℕ) (a b : Text) (n i : ℕ) → compare_from (x ∷ a) (y ∷ b) n (suc i) ≡ compare_from a b n i
unfolding compare_from
compare_shift x y a b zero i = ground arith
compare_shift x y a b (suc n) i =
    let e : suc i + 1 ≡ suc (i + 1) = omega arith in
    ground (arith, compare_shift x y a b n (i + 1), ap (compare_from (x ∷ a) (y ∷ b) n) e)

compare_all : (a b : Text) → length a ≡ length b → (compare_from a b (length a) 0 ≡ ok tt) ↔ (a ≡ b)
unfolding compare_from
compare_all [] [] h = ((λ k. refl), (λ k. refl))
compare_all [] (y ∷ b) h = absurd (omega arith)
compare_all (x ∷ a) [] h = absurd (omega arith)
compare_all (x ∷ a) (y ∷ b) h =
    let ih = compare_all a b (omega arith) in
    let next = compare_shift x y a b (length a) 0 in
    (
      (λ k.
          let head : x ≡ y = ground (arith, next) in
          let rest = ih.0 (ground (arith, next)) in ground arith),
      (λ k. let rest = ih.1 (ground arith) in ground (arith, next)),
    )

compare_ends :
    (a b : Text)
    → length a ≡ length b
    → (compare_from a b (length a) 0 ≡ ok tt) ⊎ (compare_from a b (length a) 0 ≡ err hash_mismatch)
unfolding compare_from
compare_ends [] [] h = inl refl
compare_ends [] (y ∷ b) h = absurd (omega arith)
compare_ends (x ∷ a) [] h = absurd (omega arith)
compare_ends (x ∷ a) (y ∷ b) h =
    let next = compare_shift x y a b (length a) 0 in
    elim (compare_ends a b (omega arith)) [
      | inl fine ↦ elim (Bool-cases (x == y)) [
        | inl same ↦ inl (ground (arith, next))
        | inr other ↦ inr (ground (arith, next))
      ]
      | inr bad ↦ inr (ground (arith, next))
    ]

assert_same_iff :
    (a b : Text)
    → ((assert_same a b ≡ ok tt) ↔ (b ≡ a))
      × ((assert_same a b ≡ err length_mismatch) ↔ (length b ≢ length a))
      × (assert_same a b ≢ err out_of_bounds)
unfolding assert_same
assert_same_iff a b = elim (Bool-cases (length a == length b)) [
  | inr off ↦ (
    ((λ k. absurd (ground arith)), (λ k. absurd (ground (arith, ap (length {A = ℕ}) k)))),
    ((λ k. ground arith), (λ k. ground arith)),
    (λ k. ground arith),
  )
  | inl even ↦
      let same : length a ≡ length b = ground arith in
      let all = compare_all a b same in
      elim (compare_ends a b same) [
        | inl fine ↦ (
          ((λ k. sym (all.0 fine)), (λ k. ground arith)),
          ((λ k. absurd (ground arith)), (λ k. absurd (k (sym same)))),
          (λ k. ground arith),
        )
        | inr bad ↦ (
          (
            (λ k. absurd (ground arith)),
            (λ k. let fine = all.1 (sym k) in absurd (cc (fine, bad))),
          ),
          ((λ k. absurd (ground arith)), (λ k. absurd (k (sym same)))),
          (λ k. ground arith),
        )
      ]
]

-- The assertion passes exactly if the file that the build wrote holds the constant of the source; if
-- not, it panics because of the length exactly if the lengths differ. It never reads out of bounds.
pub assert_genesis_hash_iff :
    (genesis_file : Text)
    → ((assert_genesis_hash genesis_file ≡ ok tt) ↔ (genesis_file ≡ genesis_hash))
      × ((assert_genesis_hash genesis_file ≡ err length_mismatch)
          ↔ (length genesis_file ≢ length genesis_hash))
      × (assert_genesis_hash genesis_file ≢ err out_of_bounds)
unfolding assert_genesis_hash calculate_genesis_hash
assert_genesis_hash_iff genesis_file = assert_same_iff genesis_hash genesis_file
