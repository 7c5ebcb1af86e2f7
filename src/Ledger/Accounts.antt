-- ===== src/Ledger/Accounts.antt =====
-- `add_account`, `get_account_balance`, `circulating_supply` and `current_chain_length`.
use the_block.Prelude.{
  ℕ, ◌≡◌, ◌≢◌, ◌⊎◌, inl, inr, Option, none, some, Bool, true, false, Text, text_dec, arith, length,
  Option-cases,
}
use the_block.Prelude.Result.{ok, err}
use the_block.Prelude.Map
use the_block.Ledger.{TokenBalance, Blockchain, new_account}
use the_block.Ledger.Action.{
  Action, account_exists, account_not_found, raise_if, modify, gets, or_raise, pure, ◌>>=◌, ◌>>◌,
}

-- `contains_key`.
abbrev pub is_some {ℓ} : {A : Type ℓ} → Option A → Bool
is_some none = false
is_some (some a) = true

unfoldable pub add_account : Text → ℕ → ℕ → Action (Unit {0})
add_account address consumer industrial = do
  raise_if (is_some (← gets (λ s. Map.get text_dec address s.accounts))) account_exists
  modify (λ s. record s {
    accounts = Map.insert text_dec address (new_account address consumer industrial) s.accounts;
  })

unfoldable pub get_account_balance : Text → Action TokenBalance
get_account_balance address = do
  account ← or_raise (← gets (λ s. Map.get text_dec address s.accounts)) account_not_found
  pure account.balance

abbrev pub circulating_supply : Blockchain → ℕ × ℕ
circulating_supply s = (s.emission_consumer, s.emission_industrial)

abbrev pub current_chain_length : Blockchain → ℕ
current_chain_length s = length s.chain

-- For an address with no account, `add_account` succeeds and the balance can then be read; for one
-- that has an account it is refused and changes nothing.
pub get-add_account :
    (address : Text) (consumer industrial : ℕ) (s : Blockchain)
    → let added = add_account address consumer industrial s in
      ((Map.get text_dec address s.accounts ≢ none) × (added ≡ (err account_exists, s)))
      ⊎ ((Map.get text_dec address s.accounts ≡ none)
          × (added.0 ≡ ok tt)
          × (get_account_balance address added.1
              ≡ (ok (record { consumer = consumer; industrial = industrial }), added.1)))
unfolding add_account get_account_balance
get-add_account address consumer industrial s =
    elim (Option-cases (Map.get text_dec address s.accounts)) [
      | inl new ↦ inr (
        new,
        ground arith,
        ground (
          arith,
          Map.get-insert_self text_dec address (new_account address consumer industrial) s.accounts,
        ),
      )
      | inr (a, old) ↦ inl (ground arith, ground arith)
    ]
