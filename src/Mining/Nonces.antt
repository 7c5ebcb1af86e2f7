-- ===== src/Mining/Nonces.antt =====
-- The nonces of the accounts after the transactions of a block: each account has gone up by the
-- number of its transactions.
use the_block.Prelude.{
  ◌+◌, ◌^◌, ◌<◌, ◌≡◌, ◌≢◌, ap, ◌∙◌, List, [], ◌∷◌, none, Text, text_dec, arith, All, All_mono, inl,
  inr, if_pos, if_neg, Option-cases,
}
use the_block.Prelude.Word.{add64}
use the_block.Prelude.Map
use the_block.Prelude.Map.{HashMap}
use the_block.Transaction.{SignedTransaction}
use the_block.Ledger.{Account, new_account}
use the_block.Apply.{zero_address, debit, credit, pay, receive, apply_txs}
use the_block.Validate.Distinct.{nonces_of, count_up}
use the_block.Validate.Counts.{nonce_of, count_of, count_of_self, count_of_other}

pub nonce_of-insert_self :
    (a : Text) (acc : Account) (accounts : HashMap Text Account)
    → nonce_of (Map.insert text_dec a acc accounts) a ≡ acc.nonce
nonce_of-insert_self a acc accounts = ground (arith, Map.get-insert_self text_dec a acc accounts)

pub nonce_of-insert_ne :
    (a b : Text) (acc : Account) (accounts : HashMap Text Account)
    → a ≢ b
    → nonce_of (Map.insert text_dec b acc accounts) a ≡ nonce_of accounts a
nonce_of-insert_ne a b acc accounts ne =
    ground (arith, Map.get-insert_ne text_dec a b acc accounts ne)

-- An entry with the nonce that the account had, or 0 without one.
pub nonce_of-insert_same :
    (a b : Text) (acc : Account) (accounts : HashMap Text Account)
    → acc.nonce ≡ nonce_of accounts b
    → nonce_of (Map.insert text_dec b acc accounts) a ≡ nonce_of accounts a
nonce_of-insert_same a b acc accounts e = elim (text_dec a b) [
  | yes p ↦ rw p (nonce_of-insert_self b acc accounts ∙ e)
  | no n ↦ nonce_of-insert_ne a b acc accounts n
]

nonce_of-receive :
    (a : Text) (tx : SignedTransaction) (accounts : HashMap Text Account)
    → nonce_of (receive tx accounts) a ≡ nonce_of accounts a
unfolding receive Map.entry_or
nonce_of-receive a tx accounts =
    let b = tx.payload.to in
    nonce_of-insert_same a b (credit tx (Map.entry_or text_dec b (new_account b 0 0) accounts))
      accounts (ground arith)

nonce_of-pay_ne :
    (a : Text) (tx : SignedTransaction) (accounts : HashMap Text Account)
    → a ≢ tx.payload.from_
    → nonce_of (pay tx accounts) a ≡ nonce_of accounts a
unfolding pay
nonce_of-pay_ne a tx accounts ne =
    elim (Option-cases (Map.get text_dec tx.payload.from_ accounts)) [
      | inl missing ↦ ground arith
      | inr (acc, found) ↦
          ground (arith, nonce_of-insert_ne a tx.payload.from_ (debit tx acc) accounts ne)
    ]

nonce_of-pay_self :
    (tx : SignedTransaction) (accounts : HashMap Text Account)
    → tx.payload.from_ ≢ zero_address
    → Map.get text_dec tx.payload.from_ accounts ≢ none
    → nonce_of (pay tx accounts) tx.payload.from_ ≡ tx.payload.nonce
unfolding pay
nonce_of-pay_self tx accounts nz known =
    elim (Option-cases (Map.get text_dec tx.payload.from_ accounts)) [
      | inl missing ↦ absurd (known missing)
      | inr (acc, found) ↦
          ground (arith, nonce_of-insert_self tx.payload.from_ (debit tx acc) accounts)
    ]

stays_known :
    (a : Text) (tx : SignedTransaction) (accounts : HashMap Text Account)
    → Map.get text_dec a accounts ≢ none
    → Map.get text_dec a (receive tx (pay tx accounts)) ≢ none
unfolding pay receive
stays_known a tx accounts known =
    Map.get-insert-ne-none text_dec a tx.payload.to _ (pay tx accounts)
      (elim (Option-cases (Map.get text_dec tx.payload.from_ accounts)) [
        | inl missing ↦ ground arith
        | inr (acc, found) ↦ ground (
          arith,
          Map.get-insert-ne-none text_dec a tx.payload.from_ (debit tx acc) accounts known,
        )
      ])

-- An account whose transactions carry on from its nonce has gone up by their number.
pub nonce_of-apply_txs :
    (a : Text) (txs : List SignedTransaction) (accounts : HashMap Text Account)
    → a ≢ zero_address
    → All (λ tx. Map.get text_dec tx.payload.from_ accounts ≢ none) txs
    → nonces_of a txs ≡ count_up (count_of a txs) (nonce_of accounts a)
    → nonce_of accounts a + count_of a txs < 2 ^ 64
    → nonce_of (apply_txs txs accounts) a ≡ nonce_of accounts a + count_of a txs
unfolding apply_txs
nonce_of-apply_txs a [] accounts nz known steps fits = omega arith
nonce_of-apply_txs a (tx ∷ txs) accounts nz known steps fits =
    let next = receive tx (pay tx accounts) in
    let later =
      All_mono _ (λ t. Map.get text_dec t.payload.from_ next ≢ none) txs
        (λ t k. stays_known t.payload.from_ tx accounts k) known.1 in
    elim (text_dec a tx.payload.from_) [
      | yes p ↦
          let e = rw (if_pos (text_dec a tx.payload.from_) p) at steps in
          let now : tx.payload.nonce ≡ add64 (nonce_of accounts a) 1 = ground (arith, e) in
          let moved : nonce_of next a ≡ add64 (nonce_of accounts a) 1 =
            nonce_of-receive a tx (pay tx accounts)
            ∙ ap (nonce_of (pay tx accounts)) p
            ∙ nonce_of-pay_self tx accounts (λ z. nz (p ∙ z)) known.0
            ∙ now in
          let n = count_of_self a tx txs p in
          let rest =
            nonce_of-apply_txs a txs next nz later (rw moved (ground (arith, e)))
              (omega (arith, moved, n, fits)) in
          omega (arith, rest, moved, n, fits)
      | no m ↦
          let same : nonce_of next a ≡ nonce_of accounts a =
            nonce_of-receive a tx (pay tx accounts) ∙ nonce_of-pay_ne a tx accounts m in
          let n = count_of_other a tx txs m in
          let rest =
            nonce_of-apply_txs a txs next nz later
              (rw same (rw (if_neg (text_dec a tx.payload.from_) m) at steps))
              (omega (arith, same, n, fits)) in
          omega (arith, rest, same, n)
    ]
