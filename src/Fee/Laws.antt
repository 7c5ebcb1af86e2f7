-- ===== src/Fee/Laws.antt =====
-- What `fee::decompose` promises (CONSENSUS.md, ECONOMICS.md): the parts add up to the fee and stay
-- below 2 ^ 63, and it fails exactly on large fees and reserved selectors.
use the_block.Prelude.{ℕ, ◌+◌, ◌^◌, ◌≤◌, ◌<◌, ◌≡◌, ◌↔◌, arith}
use the_block.Prelude.Result.{ok, err}
use the_block.Fee.{invalid_selector, overflow, decompose}

-- If `decompose` succeeds, the two parts add up to the fee, and neither reaches 2 ^ 63.
pub decompose_conserves :
    (selector fee : ℕ) {c i : ℕ}
    → decompose selector fee ≡ ok (c, i)
    → (c + i ≡ fee) × (c < 2 ^ 63) × (i < 2 ^ 63)
unfolding decompose
decompose_conserves selector fee h = ground arith

-- `decompose` fails with an overflow exactly if the fee reaches 2 ^ 63, and with a bad selector
-- exactly if the fee is below that and the selector is above 2.
pub decompose_errors :
    (selector fee : ℕ)
    → ((decompose selector fee ≡ err overflow) ↔ (2 ^ 63 ≤ fee))
      × ((decompose selector fee ≡ err invalid_selector) ↔ ((fee < 2 ^ 63) × (2 < selector)))
unfolding decompose
decompose_errors selector fee = ground arith
