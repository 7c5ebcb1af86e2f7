-- ===== src/Node/Accounts.antt =====
-- What the calls other than mining do to balances, and who still has an account after them.
use the_block.Prelude.{
  ℕ, ◌≡◌, ◌≢◌, List, [], ◌∷◌, suc, ap, none, some, Text, text_dec, arith, All, All_mono, ◌⊎◌, inl,
  inr, Option-cases, length, refl,
}
use the_block.Prelude.Word.{add64}
use the_block.Prelude.Result.{Result-cases}
use the_block.Prelude.Map
use the_block.Prelude.Map.{HashMap, values, total}
use the_block.Fee.{decompose}
use the_block.Transaction.{SignedTransaction}
use the_block.Ledger.{Account}
use the_block.Mempool.{release, release_in}
use the_block.Apply.Funded.{supply_c, supply_i, IsPayable}

-- The same balances in another account of the same address.
module _ (a : Text) (new old : Account) (accounts : HashMap Text Account)
    (found : Map.get text_dec a accounts ≡ some old) where
  pub supply_c-same :
      new.balance.consumer ≡ old.balance.consumer
      → supply_c (Map.insert text_dec a new accounts) ≡ supply_c accounts
  supply_c-same e = ground (
    arith,
    Map.total-insert text_dec (λ (x : Account). x.balance.consumer) a new old accounts found,
  )

  pub supply_i-same :
      new.balance.industrial ≡ old.balance.industrial
      → supply_i (Map.insert text_dec a new accounts) ≡ supply_i accounts
  supply_i-same e = ground (
    arith,
    Map.total-insert text_dec (λ (x : Account). x.balance.industrial) a new old accounts found,
  )

pub record IsReleased (accounts after : HashMap Text Account) : Type 0 where
  pub supply_consumer : supply_c after ≡ supply_c accounts
  pub supply_industrial : supply_i after ≡ supply_i accounts
  pub known : (a : Text) → Map.get text_dec a accounts ≢ none → Map.get text_dec a after ≢ none

-- The release in the account of a sender: nothing, or an account with the same balances.
pub release_in-cases :
    (sender : Text) (tx : SignedTransaction) (accounts : HashMap Text Account)
    → (release_in sender tx accounts ≡ accounts)
      ⊎ ((acc : Account) × (c : ℕ) × (i : ℕ) × (Map.get text_dec sender accounts ≡ some acc)
          × (release_in sender tx accounts ≡ Map.insert text_dec sender (release c i acc) accounts))
release_in-cases sender tx accounts = elim (Option-cases (Map.get text_dec sender accounts)) [
  | inl missing ↦ inl (ground arith)
  | inr (acc, found) ↦ elim (Result-cases (decompose tx.payload.fee_selector tx.payload.fee)) [
    | inr (e, bad) ↦ inl (ground (arith, found))
    | inl (f, good) ↦ inr (
      acc,
      add64 tx.payload.amount_consumer f.0,
      add64 tx.payload.amount_industrial f.1,
      found,
      ground (arith, found),
    )
  ]
]

pub release_in-IsReleased :
    (sender : Text) (tx : SignedTransaction) (accounts : HashMap Text Account)
    → IsReleased accounts (release_in sender tx accounts)
release_in-IsReleased sender tx accounts = elim (release_in-cases sender tx accounts) [
  | inl same ↦
      rw same (record { supply_consumer = refl; supply_industrial = refl; known = λ a k. k })
  | inr (acc, c, i, found, after) ↦
      let left = release c i acc in
      rw after (record {
        supply_consumer = supply_c-same sender left acc accounts found refl;
        supply_industrial = supply_i-same sender left acc accounts found refl;
        known = λ a k. Map.get-insert-ne-none text_dec a sender left accounts k;
      })
]

-- Transactions stay payable as long as no account goes away.
pub stays-IsPayable :
    (accounts after : HashMap Text Account) (txs : List SignedTransaction)
    → ((a : Text) → Map.get text_dec a accounts ≢ none → Map.get text_dec a after ≢ none)
    → All (IsPayable accounts) txs
    → All (IsPayable after) txs
stays-IsPayable accounts after txs known h =
    All_mono (IsPayable accounts) (IsPayable after) txs
      (λ t q. record {
        known = known t.payload.from_ q.known;
        ordinary = q.ordinary;
        no_wrap_c = q.no_wrap_c;
        no_wrap_i = q.no_wrap_i;
      })
      h

pub length-values : {K V : Type 0} (m : HashMap K V) → length (values m) ≡ length m
length-values [] = refl
length-values (e ∷ m) = ap suc (length-values m)
