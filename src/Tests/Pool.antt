-- ===== src/Tests/Pool.antt =====
-- The mempool on sample data: src/lib.rs.
use the_block.Prelude.{
  ◌^◌, ◌+◌, ◌≤◌, length, true, ◌≡◌, ◌≢◌, refl, ◌⊎◌, inl, inr, [], none, some, Text, text_dec,
  key_dec, arith,
}
use the_block.Prelude.Result.{ok, err}
use the_block.Prelude.Map
use the_block.Prelude.Map.{values}
use the_block.Fee.{decompose}
use the_block.Transaction.{
  verify_signed_tx, verify_signature, signing_bytes, canonical_payload_bytes, domain_tag, le_bytes,
  to_array_32, to_array_64,
}
use the_block.Ledger.{Blockchain, Account}
use the_block.Mempool.{submit_transaction, drop_transaction}
use the_block.Mempool.Reserve.{IsReserved, IsConsistent, fees}
use the_block.Mempool.Submit.{IsAdmitted, submit-IsConsistent, submit_outcome}
use the_block.Mempool.Drop.{drop-IsConsistent}
use the_block.Mempool.RoundTrip.{drop-submit, drop_first_blocks}
use the_block.Transaction.{sign_tx}
use the_block.Mempool.{key}
use the_block.Mempool.Reserve.{total_i}
use the_block.Mempool.Limits.{submit_any_key, submit_wraps}
use the_block.Mempool.Run.{call, submit, drop, IsCall, Reaches, begin, next, Reaches-IsConsistent}
use the_block.Tests.Numbers.{toy-SignsCorrectly}
use the_block.Ledger.Action.{account_exists}
use the_block.Ledger.Accounts.{add_account, get_account_balance, get-add_account}
use the_block.Tests.Samples.{
  bob, other_secret, stolen, huge, toy, alice, account, start, waiting, tx1, tx2, tx3,
}

pub submit_runs : submit_transaction toy tx1 start ≡ (ok tt, waiting)
unfolding submit_transaction fees decompose Map.get Map.insert verify_signed_tx verify_signature
    signing_bytes domain_tag le_bytes to_array_32 to_array_64 canonical_payload_bytes text_dec
submit_runs = refl

two_submits_run : (submit_transaction toy tx2 (submit_transaction toy tx1 start).1).0 ≡ ok tt
unfolding submit_transaction fees decompose Map.get Map.insert verify_signed_tx verify_signature
    signing_bytes domain_tag le_bytes to_array_32 to_array_64 canonical_payload_bytes text_dec
    key_dec
two_submits_run = refl

drop_runs : drop_transaction alice 1 waiting ≡ (ok tt, start)
unfolding drop_transaction decompose Map.get Map.insert Map.remove key_dec text_dec
drop_runs = refl

-- No account but Alice's.
start-AllReserved :
    (a : Text) (acc : Account)
    → Map.get text_dec a (Map.insert text_dec alice (account alice 1_000 500 0) []) ≡ some acc
    → IsReserved [] a acc
unfolding Map.get
start-AllReserved a acc e =
    elim (Map.get-insert_inv text_dec a alice (account alice 1_000 500 0) acc [] e) [
      | inr (_, old) ↦ absurd (cc old)
      | inl (_, same) ↦ rw (← same) (record {
        nonce = refl;
        consumer = refl;
        industrial = refl;
        covered_consumer = omega arith;
        covered_industrial = omega arith;
        range_consumer = omega arith;
        range_industrial = omega arith;
      })
    ]

pub start-IsConsistent : IsConsistent start
unfolding Map.get Map.insert
start-IsConsistent = record {
  mempool = record {
    unique = tt;
    keyed = λ k tx e. absurd (cc e);
    known = λ k tx e. absurd (cc e);
    decomposes = λ k tx e. absurd (cc e);
  };
  reserved = λ a acc e. start-AllReserved a acc e;
}

pub waiting-IsConsistent : IsConsistent waiting
waiting-IsConsistent =
    rw submit_runs at (submit-IsConsistent toy tx1 start (omega arith) start-IsConsistent)

submit-IsConsistent_example : IsConsistent (submit_transaction toy tx1 start).1
submit-IsConsistent_example = submit-IsConsistent toy tx1 start (omega arith) start-IsConsistent

drop-IsConsistent_example : IsConsistent (drop_transaction alice 1 waiting).1
drop-IsConsistent_example = drop-IsConsistent alice 1 waiting waiting-IsConsistent

drop-submit_example : drop_transaction alice 1 (submit_transaction toy tx1 start).1 ≡ (ok tt, start)
drop-submit_example =
    drop-submit toy tx1 start (omega arith) start-IsConsistent (rw submit_runs refl)

drop_first_blocks_example :
    (submit_transaction toy tx3
      (drop_transaction alice 1
        (submit_transaction toy tx2 (submit_transaction toy tx1 start).1).1).1).0
    ≢ ok tt
drop_first_blocks_example =
    drop_first_blocks toy tx1 tx2 tx3 start refl refl (omega arith) start-IsConsistent
      (rw submit_runs refl) two_submits_run

submit_outcome_example :
    (((submit_transaction toy tx1 start).0 ≢ ok tt)
      × ((submit_transaction toy tx1 start).1 ≡ start))
    ⊎ (((submit_transaction toy tx1 start).0 ≡ ok tt)
        × IsAdmitted toy tx1 start (submit_transaction toy tx1 start).1)
submit_outcome_example = submit_outcome toy tx1 start

stolen_runs : sign_tx toy other_secret tx1.payload ≡ some stolen
unfolding sign_tx to_array_32 signing_bytes canonical_payload_bytes domain_tag le_bytes
stolen_runs = refl

submit_any_key_example : (submit_transaction toy stolen start).0 ≡ ok tt
submit_any_key_example =
    submit_any_key toy toy-SignsCorrectly tx1 stolen other_secret start (rw submit_runs refl)
      stolen_runs

huge_splits : decompose 2 7 ≡ ok (fees huge)
unfolding decompose fees
huge_splits = refl

huge_is_signed : verify_signed_tx toy huge ≡ true
unfolding verify_signed_tx verify_signature signing_bytes domain_tag le_bytes to_array_32
    to_array_64 canonical_payload_bytes text_dec
huge_is_signed = refl

huge_wraps : (huge.payload.amount_consumer + (fees huge).0 ≡ 2 ^ 64) × (total_i huge ≤ 500)
unfolding fees decompose
huge_wraps = (refl, omega arith)

alice_found : Map.get text_dec alice start.accounts ≡ some (account alice 1_000 500 0)
unfolding Map.get text_dec
alice_found = refl

nothing_waits : Map.get key_dec (key huge) start.mempool ≡ none
unfolding Map.get
nothing_waits = refl

submit_wraps_example :
    ((submit_transaction toy huge start).0 ≡ ok tt)
    × ((after : Account) × (Map.get text_dec alice (submit_transaction toy huge start).1.accounts
          ≡ some after)
        × (after.pending_consumer ≡ 0))
submit_wraps_example =
    submit_wraps toy huge start (account alice 1_000 500 0) huge_wraps.0 huge_wraps.1 (omega arith)
      nothing_waits alice_found huge_splits refl huge_is_signed

abbrev two_calls : Blockchain
two_calls = call toy (drop alice 1) (call toy (submit tx1) start)

two_calls_reach : Reaches toy start 2 two_calls
unfolding IsCall
two_calls_reach =
    next 1 (call toy (submit tx1) start) (drop alice 1) tt (next 0 start (submit tx1) tt begin)

Reaches-IsConsistent_example : IsConsistent two_calls × (length two_calls.mempool ≤ 2)
Reaches-IsConsistent_example =
    Reaches-IsConsistent toy start 2 two_calls start-IsConsistent (omega arith) two_calls_reach

get-add_account_example :
    let added = add_account bob 5 6 start in
    ((Map.get text_dec bob start.accounts ≢ none) × (added ≡ (err account_exists, start)))
    ⊎ ((Map.get text_dec bob start.accounts ≡ none)
        × (added.0 ≡ ok tt)
        × (get_account_balance bob added.1
            ≡ (ok (record { consumer = 5; industrial = 6 }), added.1)))
get-add_account_example = get-add_account bob 5 6 start
