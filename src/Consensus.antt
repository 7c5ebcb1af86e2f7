-- ===== src/Consensus.antt =====
-- The genesis hash of src/consensus.rs and its comparison at compile time with that of
-- src/hashlayout.rs. The build writes the file `genesis_hash.txt`, whose content is an argument.
pub mod Laws
use the_block.Prelude.{
  ℕ, zero, suc, ◌+◌, List, [], ◌∷◌, Option, none, some, Bool, true, false, not, Text, length,
  get_elem?, ltb, ◌==◌, if◌then◌else◌,
}
use the_block.Prelude.Strings.{codes}
use the_block.Prelude.Result.{Result, ok, err}

abbrev pub fee_spec_version : ℕ
fee_spec_version = 2

abbrev pub genesis_hash : Text
genesis_hash = codes "92fc0fbacb748ac4b7bb561b677ab24bc5561e8e61d406728b90490d56754167"

-- The two panics of the assertion, and an index that is out of bounds.
pub data Panic : Type 0 where
  length_mismatch hash_mismatch out_of_bounds : Panic

-- `BlockEncoder::const_hash` and `calculate_genesis_hash`: the file of the build, whatever the
-- header is.
unfoldable pub calculate_genesis_hash : Text → Text
calculate_genesis_hash genesis_file = genesis_file

-- `while i < a.len()`, with the rounds that are left.
unfoldable pub compare_from : Text → Text → ℕ → ℕ → Result Panic (Unit {0})
compare_from a b zero i = if ltb i (length a) then err out_of_bounds else ok tt
compare_from a b (suc rounds) i =
    let next = compare_from a b rounds (i + 1) in
    elim (ltb i (length a)) [
      | false ↦ ok tt
      | true ↦ elim (get_elem? a i) [
        | none ↦ err out_of_bounds
        | some x ↦ elim (get_elem? b i) [
          | none ↦ err out_of_bounds
          | some y ↦ if x == y then next else err hash_mismatch
        ]
      ]
    ]

unfoldable pub assert_same : Text → Text → Result Panic (Unit {0})
unfolding compare_from
assert_same a b =
    if length a == length b then compare_from a b (length a) 0 else err length_mismatch

unfoldable pub assert_genesis_hash : Text → Result Panic (Unit {0})
unfolding assert_same calculate_genesis_hash
assert_genesis_hash genesis_file = assert_same genesis_hash (calculate_genesis_hash genesis_file)
