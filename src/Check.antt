-- ===== src/Check.antt =====
-- What `validate_block` and `is_valid_chain_rust` of src/lib.rs share: their early exits, the fee
-- sums that refuse a bad fee, and the sets of what was seen.
use the_block.Prelude.{ℕ, Option, none, some, Bool, true, false, Text, text_dec}
use the_block.Prelude.Map
use the_block.Prelude.Map.{HashMap}
use the_block.Prelude.Result.{Result, ok, err}
use the_block.Fee.{decompose}
use the_block.Transaction.{SignedTransaction}
use the_block.Ledger.Action.{PyError}

-- A check stops by `return false` or by an error.
pub data Stop : Type 0 where
  reject : Stop
  raised : PyError → Stop

abbrev pub Check : Type 0 → Type 0
Check A = Result Stop A

abbrev pub require : Bool → Check (Unit {0})
require true = ok tt
require false = err reject

abbrev pub or_raised : {A : Type 0} → Option A → PyError → Check A
or_raised none e = err (raised e)
or_raised (some a) e = ok a

-- What the caller sees.
unfoldable pub verdict : Check (Unit {0}) → Result PyError Bool
verdict (ok u) = ok true
verdict (err reject) = ok false
verdict (err (raised e)) = err e

-- `a == b` of strings or of byte arrays.
abbrev pub same : Text → Text → Bool
same a b = elim (text_dec a b) [ yes p ↦ true | no p ↦ false ]

-- `match fee::decompose(..) { Err(_) => return false, .. }`.
abbrev pub fees_of : SignedTransaction → Check (ℕ × ℕ)
fees_of tx = elim (decompose tx.payload.fee_selector tx.payload.fee) [
  | ok r ↦ ok r
  | err e ↦ err reject
]

-- A `HashSet`.
abbrev pub HashSet : Type 0 → Type 0
HashSet K = HashMap K (Unit {0})

-- `set.insert(k)`: the new set, if `k` is new.
unfoldable pub insert_new : {K : Type 0} → Discrete K → K → HashSet K → Check (HashSet K)
insert_new dec k set = elim (Map.get dec k set) [
  | none ↦ ok (Map.insert dec k tt set)
  | some u ↦ err reject
]
