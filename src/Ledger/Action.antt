-- ===== src/Ledger/Action.antt =====
-- A method on `&mut self`: it returns a value or raises, and what it wrote before it raised stays
-- written. The constructors of `PyError` are the messages of the source; `panic` is an `expect` or
-- an `unwrap` that fails.
use the_block.Prelude.{◌≡◌, refl, ◌⊎◌, inl, inr, Bool, Option, none, some, if◌then◌else◌}
use the_block.Prelude.Result.{Result, ok, err}
use the_block.Fee.{FeeError}
use the_block.Ledger.{Blockchain}

pub data PyError : Type 0 where
  schema_too_new account_exists account_not_found duplicate_transaction : PyError
  invalid_fee_selector sender_not_found insufficient_balance bad_nonce : PyError
  signature_failed transaction_not_found fee_overflow nonce_overflow : PyError
  missing_previous_block chain_not_longer invalid_chain invalid_pubkey : PyError
  invalid_signature bad_tx_signature checksum_mismatch fee_mismatch : PyError
  coinbase_mismatch serialization_error panic : PyError
  fee_error : FeeError → PyError

abbrev pub Action : Type 0 → Type 0
Action A = Blockchain → Result PyError A × Blockchain

module _ {A : Type 0} where
  abbrev pub pure : A → Action A
  pure a s = (ok a, s)

  abbrev pub raise : PyError → Action A
  raise e s = (err e, s)

  abbrev pub gets : (Blockchain → A) → Action A
  gets f s = (ok (f s), s)

  -- `opt.ok_or_else(..)?`.
  abbrev pub or_raise : Option A → PyError → Action A
  or_raise none e = raise e
  or_raise (some a) e = pure a

infixl 5 ◌>>=◌ ◌>>◌
abbrev pub ◌>>=◌ : {A B : Type 0} → Action A → (A → Action B) → Action B
◌>>=◌ m f s = let (r, s') = m s in elim r [ ok a ↦ f a s' | err e ↦ raise e s' ]

abbrev pub ◌>>◌ : {B : Type 0} → Action (Unit {0}) → Action B → Action B
m >> k = m >>= λ _. k

-- `if c { return Err(e) }`.
abbrev pub raise_if : Bool → PyError → Action (Unit {0})
raise_if c e s = (if c then err e else ok tt, s)

abbrev pub modify : (Blockchain → Blockchain) → Action (Unit {0})
modify f s = (ok tt, f s)

-- `fee::decompose(..).map_err(..)?`.
abbrev pub or_fee_error : {A : Type 0} → Result FeeError A → Action A
or_fee_error (ok a) = pure a
or_fee_error (err e) = raise (fee_error e)

-- How a method ended.
pub Outcome-cases :
    {A : Type 0} (r : Result PyError A × Blockchain)
    → ((a : A) × (s : Blockchain) × (r ≡ (ok a, s)))
      ⊎ ((e : PyError) × (s : Blockchain) × (r ≡ (err e, s)))
Outcome-cases (ok a, s) = inl (a, s, refl)
Outcome-cases (err e, s) = inr (e, s, refl)
