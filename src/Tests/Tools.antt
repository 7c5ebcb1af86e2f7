-- ===== src/Tests/Tools.antt =====
-- Keys, printing, the genesis assertion and xtask on sample data.
use the_block.Prelude.{
  ◌≡◌, ◌≢◌, ◌↔◌, ◌⊎◌, refl, List, [], ◌∷◌, ◌++◌, some, none, true, Bool, All, ◌<◌, Text, Bytes,
  length,
}
use the_block.Prelude.Strings.{codes, contains, starts_with}
use the_block.Prelude.Result.{ok, err}
use the_block.Transaction.{SignedTransaction, verify_signature}
use the_block.Consensus.{genesis_hash, assert_genesis_hash, length_mismatch, out_of_bounds}
use the_block.Consensus.Laws.{assert_genesis_hash_iff}
use the_block.Xtask.{run, title_mismatch, note_line, note_lines, judge_title, from_utf8, is_utf8}
use the_block.Xtask.Laws.{Mentions, run_accepts_iff}
use the_block.Hashlayout.{build_genesis_digest, calculate_genesis_hash_runtime}
use the_block.Build.{main, is_ascii}
use the_block.Build.Laws.{build_then_assert}
use the_block.Api.{
  token_repr, to_string, digits, generate_keypair, sign_message, sign_tx_py, verify_signed_tx_py,
}
use the_block.Api.Keys.{generate_keypair_works}
use the_block.Tests.Numbers.{toy-SignsCorrectly}
use the_block.Tests.Samples.{toy, secret, payload}

token_repr_runs : token_repr 60_000 ≡ codes "60000"
unfolding token_repr to_string digits
token_repr_runs = refl

generate_keypair_works_example :
    ((signature : Bytes) × (sign_message toy (generate_keypair toy secret).0 (1 ∷ 2 ∷ [])
        ≡ ok signature)
      × (verify_signature toy (generate_keypair toy secret).1 (1 ∷ 2 ∷ []) signature ≡ true))
    × ((tx : SignedTransaction) × (sign_tx_py toy (generate_keypair toy secret).0 (payload 1)
          ≡ ok tx)
        × (tx.payload ≡ payload 1)
        × (verify_signed_tx_py toy tx ≡ true))
generate_keypair_works_example =
    generate_keypair_works toy toy-SignsCorrectly secret (1 ∷ 2 ∷ []) (payload 1) refl

abbrev toy_file : Text
toy_file = build_genesis_digest toy

abbrev always : Text → Text → Bool
always dest file = true

main_runs :
    main toy (codes "pub const") (some (codes "out")) always
    ≡ ok (codes "out/genesis_hash.txt", toy_file)
unfolding main is_ascii
main_runs = refl

build_then_assert_example :
    All (λ b. b < 128) (codes "pub const")
    × ((assert_genesis_hash toy_file ≡ ok tt) ↔ (calculate_genesis_hash_runtime toy ≡ genesis_hash))
build_then_assert_example =
    build_then_assert toy (codes "pub const") (some (codes "out")) always
      (codes "out/genesis_hash.txt") toy_file main_runs

assert_genesis_hash_iff_example :
    ((assert_genesis_hash genesis_hash ≡ ok tt) ↔ (genesis_hash ≡ genesis_hash))
    × ((assert_genesis_hash genesis_hash ≡ err length_mismatch)
        ↔ (length genesis_hash ≢ length genesis_hash))
    × (assert_genesis_hash genesis_hash ≢ err out_of_bounds)
assert_genesis_hash_iff_example = assert_genesis_hash_iff genesis_hash

abbrev core_title : Text
core_title = codes "[core] pay"

abbrev diff_lines : List Bytes
diff_lines = codes "a balance" ∷ []

run_runs : (run (some core_title) diff_lines).1 ≡ ok tt
unfolding run judge_title note_lines note_line from_utf8 is_utf8 contains starts_with
run_runs = refl

run_without_title : (run none []).1 ≡ err title_mismatch
unfolding run judge_title note_lines
run_without_title = refl

run_accepts_iff_example : ((run (some core_title) diff_lines).1 ≡ ok tt) ↔ (
    (t : Text) × (some core_title ≡ some t)
    × (((rest : Text) × (t ≡ codes "[core]" ++ rest))
        ⊎ ((¬ Mentions (codes "balance") diff_lines) × (¬ Mentions (codes "pending_") diff_lines))))
run_accepts_iff_example = run_accepts_iff (some core_title) diff_lines
