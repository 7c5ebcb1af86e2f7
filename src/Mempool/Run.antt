-- ===== src/Mempool/Run.antt =====
-- The callers of the mempool: runs of `add_account`, `submit_transaction` and `drop_transaction`, in
-- any order, from a node that was just opened.
use the_block.Prelude.{
  ℕ, zero, suc, ◌+◌, ◌^◌, ◌≤◌, ◌<◌, ◌≡◌, ◌≢◌, ◌⊎◌, inl, inr, [], ◌∷◌, none, some, Text, text_dec,
  key_dec, if_pos, if_neg, arith, refl, sym, ◌∙◌, ap, Option-cases, length,
}
use the_block.Prelude.Map
use the_block.Prelude.Map.{values, total}
use the_block.Transaction.{Crypto, SignedTransaction}
use the_block.Ledger.{Blockchain, new_account}
use the_block.Ledger.Accounts.{add_account}
use the_block.Mempool.{key, submit_transaction, drop_transaction}
use the_block.Mempool.Reserve.{of_sender, one, total_c, total_i, IsConsistent}
use the_block.Mempool.Submit.{submit_outcome, submit-IsConsistent}
use the_block.Mempool.Drop.{drop_outcome, drop-IsConsistent}

module _ {K V : Type 0} (dec : Discrete K) where
  pub length-insert :
      (k : K) (v : V) (m : Map.HashMap K V) → length (Map.insert dec k v m) ≤ length m + 1
  unfolding Map.insert
  length-insert k v [] = omega arith
  length-insert k v (e ∷ m) = ground (arith, length-insert k v m)

  pub length-remove : (k : K) (m : Map.HashMap K V) → length (Map.remove dec k m) ≤ length m
  unfolding Map.remove
  length-remove k [] = omega arith
  length-remove k (e ∷ m) = ground (arith, length-remove k m)

-- No transaction of a sender without an account waits.
no_share :
    (f : SignedTransaction → ℕ) (a : Text) (m : Map.HashMap (Text × ℕ) SignedTransaction)
    → ((k : Text × ℕ) (tx : SignedTransaction)
        → Map.get key_dec k m ≡ some tx
        → a ≢ tx.payload.from_)
    → Map.IsUnique key_dec m
    → total (of_sender f a) (values m) ≡ 0
unfolding Map.get
no_share f a [] h u = refl
no_share f a (e ∷ m) h u =
    let head : a ≢ e.1.payload.from_ =
      h e.0 e.1 (if_pos (key_dec e.0 e.0) refl (some e.1) (Map.get key_dec e.0 m)) in
    let apart : (k : Text × ℕ) (tx : SignedTransaction) → Map.get key_dec k m ≡ some tx → k ≢ e.0 =
      λ k tx g p. cc (g, ap (λ q. Map.get key_dec q m) p, u.0) in
    let rest =
      no_share f a m
        (λ k tx g.
          h k tx (if_neg (key_dec k e.0) (apart k tx g) (some e.1) (Map.get key_dec k m) ∙ g))
        u.1 in
    ground (arith, rest)

module _ (address : Text) (consumer industrial : ℕ) (s : Blockchain) where
  abbrev pub added : Blockchain
  added = record s {
    accounts = Map.insert text_dec address (new_account address consumer industrial) s.accounts;
  }

  pub add_account-cases :
      ((add_account address consumer industrial s).1 ≡ s)
      ⊎ ((Map.get text_dec address s.accounts ≡ none)
          × ((add_account address consumer industrial s).1 ≡ added))
  unfolding add_account
  add_account-cases = elim (Option-cases (Map.get text_dec address s.accounts)) [
    | inr (acc, old) ↦ inl (ground arith)
    | inl new ↦ inr (new, ground arith)
  ]

  module _ (fits_c : consumer < 2 ^ 64) (fits_i : industrial < 2 ^ 64)
      (new : Map.get text_dec address s.accounts ≡ none) (h : IsConsistent s) where
    nothing_waits : (f : SignedTransaction → ℕ) → total (of_sender f address) (values s.mempool) ≡ 0
    nothing_waits f =
        no_share f address s.mempool
          (λ k tx g p.
            h.mempool.known k tx g (ap (λ q. Map.get text_dec q s.accounts) (sym p) ∙ new))
          h.mempool.unique

    added-IsConsistent : IsConsistent added
    added-IsConsistent = record {
      mempool = record {
        unique = h.mempool.unique;
        keyed = h.mempool.keyed;
        known = λ k tx g.
            Map.get-insert-ne-none text_dec tx.payload.from_ address _ s.accounts
              (h.mempool.known k tx g);
        decomposes = h.mempool.decomposes;
      };
      reserved = λ a acc g. elim (Map.get-insert_inv text_dec a address _ acc s.accounts g) [
        | inr (_, old) ↦ h.reserved a acc old
        | inl (p, q) ↦
            rw (p, ← q)
              (record {
                nonce = sym (nothing_waits one);
                consumer = sym (nothing_waits total_c);
                industrial = sym (nothing_waits total_i);
                covered_consumer = omega arith;
                covered_industrial = omega arith;
                range_consumer = fits_c;
                range_industrial = fits_i;
              })
      ];
    }

-- An account that is added with balances of 64 bits keeps the mempool and the reservations
-- consistent, whether the address is new or not.
pub add_account-IsConsistent :
    (address : Text) (consumer industrial : ℕ) (s : Blockchain)
    → consumer < 2 ^ 64
    → industrial < 2 ^ 64
    → IsConsistent s
    → IsConsistent (add_account address consumer industrial s).1
add_account-IsConsistent address consumer industrial s fits_c fits_i h =
    elim (add_account-cases address consumer industrial s) [
      | inl same ↦ rw same h
      | inr (new, after) ↦
          rw after (added-IsConsistent address consumer industrial s fits_c fits_i new h)
    ]

-- What a caller can do.
pub data Call : Type 0 where
  add : Text → ℕ → ℕ → Call
  submit : SignedTransaction → Call
  drop : Text → ℕ → Call

-- The balances of a call are of 64 bits.
unfoldable pub IsCall : Call → Type 0
IsCall (add a c i) = (c < 2 ^ 64) × (i < 2 ^ 64)
IsCall (submit tx) = Unit
IsCall (drop a n) = Unit

unfoldable pub call : Crypto → Call → Blockchain → Blockchain
call crypto (add a c i) s = (add_account a c i s).1
call crypto (submit tx) s = (submit_transaction crypto tx s).1
call crypto (drop a n) s = (drop_transaction a n s).1

-- The states that a number of calls leads to.
pub data Reaches (crypto : Crypto) (start : Blockchain) : ℕ → Blockchain → Type 0 where
  begin : Reaches crypto start 0 start
  next :
      (n : ℕ) (s : Blockchain) (c : Call)
      → IsCall c
      → Reaches crypto start n s
      → Reaches crypto start (suc n) (call crypto c s)

call_grows :
    (crypto : Crypto) (c : Call) (s : Blockchain)
    → length (call crypto c s).mempool ≤ length s.mempool + 1
unfolding call
call_grows crypto (add a c i) s = elim (add_account-cases a c i s) [
  | inl same ↦ rw same (omega arith)
  | inr (_, after) ↦ rw after (omega arith)
]
call_grows crypto (submit tx) s = elim (submit_outcome crypto tx s) [
  | inl (_, same) ↦ rw same (omega arith)
  | inr (_, adm) ↦ rw adm.after (length-insert key_dec (key tx) tx s.mempool)
]
call_grows crypto (drop a n) s = elim (drop_outcome a n s) [
  | inl (_, _, same) ↦ rw same (omega arith)
  | inr (tx, _, _, after) ↦ rw after (omega (arith, length-remove key_dec (a, n) s.mempool))
]

call-IsConsistent :
    (crypto : Crypto) (c : Call) (s : Blockchain)
    → IsCall c
    → length s.mempool + 1 < 2 ^ 64
    → IsConsistent s
    → IsConsistent (call crypto c s)
unfolding call IsCall
call-IsConsistent crypto (add a c i) s fits room h =
    add_account-IsConsistent a c i s fits.0 fits.1 h
call-IsConsistent crypto (submit tx) s fits room h = submit-IsConsistent crypto tx s room h
call-IsConsistent crypto (drop a n) s fits room h = drop-IsConsistent a n s h

-- Every state that calls of `add_account`, `submit_transaction` and `drop_transaction`, in any order
-- and with any outcome, reach from a consistent state is consistent, as long as the transactions
-- that wait at the start and the calls are together fewer than 2 ^ 64; and no more transactions wait
-- than there are of both.
pub Reaches-IsConsistent :
    (crypto : Crypto) (start : Blockchain) (n : ℕ) (s : Blockchain)
    → IsConsistent start
    → length start.mempool + n < 2 ^ 64
    → Reaches crypto start n s
    → IsConsistent s × (length s.mempool ≤ length start.mempool + n)
Reaches-IsConsistent crypto start zero s h room begin = (h, omega arith)
Reaches-IsConsistent crypto start (suc n) s h room (next _ t c fits before) =
    let (kept, few) = Reaches-IsConsistent crypto start n t h (omega arith) before in
    (call-IsConsistent crypto c t fits (omega arith) kept, omega (arith, call_grows crypto c t))
