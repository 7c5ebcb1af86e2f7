-- ===== src/Xtask/Laws.antt =====
-- What the tool accepts, against a description of the diff.
use the_block.Prelude.{
  ◌≡◌, ◌↔◌, ◌⊎◌, inl, inr, refl, List, [], ◌∷◌, ◌++◌, Option, none, some, Bool, true, false, ◌||◌,
  Text, Bytes, arith, subst, ◌∙◌, Option-cases, Bool-cases,
}
use the_block.Prelude.Strings.{
  codes, contains, starts_with, IsWithin, contains_iff, starts_with_iff,
}
use the_block.Prelude.Result.{ok}
use the_block.Xtask.{Summary, from_utf8, default, note_line, note_lines, judge_title, run}

-- Some line of the diff is text and contains a word.
abbrev pub Mentions : Text → List Bytes → Type 0
Mentions word [] = ⊥
Mentions word (line ∷ lines) =
    ((text : Text) × (from_utf8 line ≡ some text) × IsWithin word text) ⊎ Mentions word lines

line_mentions : Text → Bytes → Bool
line_mentions word line = elim (from_utf8 line) [ none ↦ false | some text ↦ contains text word ]

any_mentions : Text → List Bytes → Bool
any_mentions word [] = false
any_mentions word (line ∷ lines) = line_mentions word line || any_mentions word lines

line_mentions_iff :
    (word : Text) (line : Bytes)
    → (line_mentions word line ≡ true)
      ↔ ((text : Text) × (from_utf8 line ≡ some text) × IsWithin word text)
unfolding line_mentions
line_mentions_iff word line = elim (Option-cases (from_utf8 line)) [
  | inl bad ↦ ((λ h. absurd (ground arith)), (λ h. absurd (cc (bad, h.1))))
  | inr (text, good) ↦ (
    (λ h. (text, good, (contains_iff text word).0 (ground arith))),
    (λ h.
        let same : h.0 ≡ text = ground (arith, h.1) in
        let there = (contains_iff text word).1 (subst (IsWithin word) same h.2) in ground arith),
  )
]

any_mentions_iff :
    (word : Text) (lines : List Bytes) → (any_mentions word lines ≡ true) ↔ Mentions word lines
unfolding any_mentions
any_mentions_iff word [] = ((λ h. absurd (cc h)), (λ h. absurd h))
any_mentions_iff word (line ∷ lines) =
    let now = line_mentions_iff word line in
    let later = any_mentions_iff word lines in
    (
      (λ h. elim (Bool-cases (line_mentions word line)) [
        | inl here ↦ inl (now.0 here)
        | inr not_here ↦ inr (later.0 (ground arith))
      ]),
      (λ h. elim h [
        | inl here ↦ let k = now.1 here in ground arith
        | inr there ↦ let k = later.1 there in ground arith
      ]),
    )

note_lines-changes :
    (summary : Summary) (lines : List Bytes)
    → ((note_lines summary lines).balance_changed
        ≡ (any_mentions (codes "balance") lines || summary.balance_changed))
      × ((note_lines summary lines).pending_changed
          ≡ (any_mentions (codes "pending_") lines || summary.pending_changed))
      × ((note_lines summary lines).title_ok ≡ summary.title_ok)
unfolding note_lines note_line any_mentions line_mentions
note_lines-changes summary [] = (refl, refl, refl)
note_lines-changes summary (line ∷ lines) =
    ground (arith, note_lines-changes (note_line summary line) lines)

is_false : {b : Bool} → ((b ≡ true) → ⊥) → b ≡ false
is_false {b} h = elim (Bool-cases b) [ inl e ↦ absurd (h e) | inr e ↦ e ]

-- The tool succeeds exactly if a title is given, and that begins with "[core]" or no line of the
-- diff that is UTF-8 contains "balance" or "pending_".
pub run_accepts_iff :
    (title : Option Text) (lines : List Bytes)
    → ((run title lines).1 ≡ ok tt) ↔ (
        (t : Text) × (title ≡ some t)
        × (((rest : Text) × (t ≡ codes "[core]" ++ rest))
            ⊎ ((¬ Mentions (codes "balance") lines) × (¬ Mentions (codes "pending_") lines))))
unfolding run judge_title
run_accepts_iff none lines =
    let kept = note_lines-changes default lines in
    ((λ h. absurd (ground (arith, kept.2))), (λ h. absurd (cc h.1)))
run_accepts_iff (some t) lines =
    let (b, p, _) = note_lines-changes default lines in
    let bi = any_mentions_iff (codes "balance") lines in
    let pi = any_mentions_iff (codes "pending_") lines in
    let si = starts_with_iff t (codes "[core]") in
    (
      (λ h. (
        t,
        refl,
        (elim (Bool-cases (starts_with t (codes "[core]"))) [
          | inl core ↦ inl (si.0 core)
          | inr other ↦ inr (
            (λ m. let k = bi.1 m in absurd (ground (arith, b, p))),
            (λ m. let k = pi.1 m in absurd (ground (arith, b, p))),
          )
        ]),
      )),
      (λ h. elim h.2 [
        | inl (rest, e) ↦
            let same : t ≡ h.0 = ground (arith, h.1) in
            let core = si.1 (rest, same ∙ e) in ground (arith, core)
        | inr (no_b, no_p) ↦
            let nb : any_mentions (codes "balance") lines ≡ false = is_false (λ k. no_b (bi.0 k)) in
            let np : any_mentions (codes "pending_") lines ≡ false =
              is_false (λ k. no_p (pi.0 k)) in
            ground (arith, b, p)
      ]),
    )
