-- ===== src/Tests/Numbers.antt =====
-- Fees, hashes and signatures on sample data.
use the_block.Prelude.{
  ◌+◌, ◌-◌, ◌*◌, ◌^◌, ◌≤◌, ◌<◌, ◌≡◌, ◌↔◌, refl, [], ◌∷◌, some, Text, Bytes, text_dec, replicate,
  arith, length, false, true,
}
use the_block.Prelude.Result.{ok, err}
use the_block.Fee.{decompose, invalid_selector, overflow}
use the_block.Fee.Laws.{decompose_conserves, decompose_errors}
use the_block.Transaction.{
  sign_tx, signing_bytes, to_array_32, canonical_payload_bytes, domain_tag, le_bytes,
}
use the_block.Transaction.Signing.{SignsCorrectly}
use the_block.Hashlayout.{BlockEncoder, zero_hash}
use the_block.Hashlayout.Injective.{IsWellSized, encode-injective}
use the_block.Pow.{leading_zero_bits}
use the_block.Pow.Bits.{big_endian, leading_zero_bits_bounds}
use the_block.Tests.Samples.{toy, digest, secret, payload, tx1}

decompose_runs : decompose 2 7 ≡ ok (4, 3)
unfolding decompose
decompose_runs = refl

decompose_conserves_example : (4 + 3 ≡ 7) × (4 < 2 ^ 63) × (3 < 2 ^ 63)
decompose_conserves_example = decompose_conserves 2 7 decompose_runs

decompose_errors_example :
    ((decompose 3 7 ≡ err overflow) ↔ (2 ^ 63 ≤ 7))
    × ((decompose 3 7 ≡ err invalid_selector) ↔ ((7 < 2 ^ 63) × (2 < 3)))
decompose_errors_example = decompose_errors 3 7

abbrev three_bytes : Bytes
three_bytes = 0 ∷ 9 ∷ 77 ∷ []

leading_zero_bits_bounds_example :
    (12 ≤ leading_zero_bits three_bytes)
    ↔ (big_endian three_bytes < 2 ^ (8 * length three_bytes - 12))
leading_zero_bits_bounds_example =
    leading_zero_bits_bounds three_bytes 12 (omega arith, (omega arith, (omega arith, tt)))
      (omega arith)

abbrev header : BlockEncoder
header = record {
  index = 3;
  prev = zero_hash;
  nonce = 5;
  difficulty = 8;
  coin_c = 60_000;
  coin_i = 30_000;
  fee_checksum = zero_hash;
  tx_ids = replicate 32 1 ∷ [];
}

header-IsWellSized : IsWellSized header
header-IsWellSized = record {
  index = omega arith;
  nonce = omega arith;
  difficulty = omega arith;
  coin_c = omega arith;
  coin_i = omega arith;
  prev = refl;
  fee_checksum = refl;
  tx_ids = (refl, tt);
}

encode-injective_example : header ≡ header
encode-injective_example = encode-injective header header header-IsWellSized header-IsWellSized refl

same_self : (t : Text) → elim (text_dec t t) [ yes _ ↦ true | no _ ↦ false ] ≡ true
same_self t = ground arith

pub toy-SignsCorrectly : SignsCorrectly toy
toy-SignsCorrectly = record {
  key_length = λ sk. refl;
  signature_length = λ sk msg. refl;
  key_valid = λ sk. refl;
  verifies = λ sk msg. same_self (replicate 64 (digest msg));
}

sign_tx_runs : sign_tx toy secret (payload 1) ≡ some tx1
unfolding sign_tx to_array_32 signing_bytes canonical_payload_bytes domain_tag le_bytes
sign_tx_runs = refl
