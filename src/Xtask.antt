-- ===== src/Xtask.antt =====
-- The `xtask` tool, xtask/src/main.rs: it reads a diff, notes whether it touches balances or pending
-- fields, and checks the title of the change. The repository and the diff come from the git2 crate:
-- here the diff is the list of the contents of its lines.
pub mod Laws
use the_block.Prelude.{
  ℕ, List, [], ◌∷◌, Option, none, some, Bool, true, false, ◌&&◌, ◌||◌, Text, Bytes, leb,
  if◌then◌else◌,
}
use the_block.Prelude.Strings.{codes, contains, starts_with}
use the_block.Prelude.Result.{Result, ok, err}

pub record Summary : Type 0 where
  pub balance_changed : Bool
  pub pending_changed : Bool
  pub title_ok : Bool

-- `bail!`.
pub data Failure : Type 0 where
  title_mismatch : Failure

-- The bytes that may follow a first byte in UTF-8: a range for each.
abbrev following : ℕ → Option (List (ℕ × ℕ))
following b =
    let tail : ℕ × ℕ = (128, 191) in
    if leb b 127
    then some []
    else if leb b 193
    then none
    else if leb b 223
    then some (tail ∷ [])
    else if leb b 224
    then some ((160, 191) ∷ tail ∷ [])
    else if leb b 236
    then some (tail ∷ tail ∷ [])
    else if leb b 237
    then some ((128, 159) ∷ tail ∷ [])
    else if leb b 239
    then some (tail ∷ tail ∷ [])
    else if leb b 240
    then some ((144, 191) ∷ tail ∷ tail ∷ [])
    else if leb b 243
    then some (tail ∷ tail ∷ tail ∷ [])
    else if leb b 244
    then some ((128, 143) ∷ tail ∷ tail ∷ [])
    else none

-- Bytes are UTF-8 from a place on where bytes in the given ranges are due.
unfoldable pub is_utf8 : List (ℕ × ℕ) → Bytes → Bool
is_utf8 [] [] = true
is_utf8 (r ∷ due) [] = false
is_utf8 [] (b ∷ bytes) = elim (following b) [ none ↦ false | some due ↦ is_utf8 due bytes ]
is_utf8 (r ∷ due) (b ∷ bytes) = leb r.0 b && leb b r.1 && is_utf8 due bytes

-- `std::str::from_utf8(..).ok()`.
unfoldable pub from_utf8 : Bytes → Option Text
unfolding is_utf8
from_utf8 bytes = if is_utf8 [] bytes then some bytes else none

abbrev pub default : Summary
default = record { balance_changed = false; pending_changed = false; title_ok = false }

-- What the closure of `diff.print` does with one line.
unfoldable pub note_line : Summary → Bytes → Summary
note_line summary line = elim (from_utf8 line) [
  | none ↦ summary
  | some content ↦ record summary {
    balance_changed = contains content (codes "balance") || summary.balance_changed;
    pending_changed = contains content (codes "pending_") || summary.pending_changed;
  }
]

unfoldable pub note_lines : Summary → List Bytes → Summary
note_lines summary [] = summary
note_lines summary (line ∷ lines) = note_lines (note_line summary line) lines

-- `if let Some(t) = args.title`.
unfoldable pub judge_title : Option Text → Summary → Summary
judge_title none summary = summary
judge_title (some title) summary =
    if summary.balance_changed || summary.pending_changed
    then record summary { title_ok = starts_with title (codes "[core]") }
    else record summary { title_ok = true }

-- `main` after the diff is made: the summary that is printed, and how the process ends.
unfoldable pub run : Option Text → List Bytes → Summary × Result Failure (Unit {0})
run title lines =
    let summary = judge_title title (note_lines default lines) in
    (summary, (if summary.title_ok then ok tt else err title_mismatch))
