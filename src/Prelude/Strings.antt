-- ===== src/Prelude/Strings.antt =====
-- String literals as the bytes that Rust stores for them (ASCII only), and the searches of `str`.
use Prim.Native.Char.{code}
use Prim.Native.String.{String}
use mathlib.Core.Path.{◌≡◌, refl, ap}
use mathlib.Core.Bool.{Bool, true, false, ◌&&◌, ◌||◌}
use mathlib.Core.Logic.{◌↔◌, inl, inr}
use mathlib.Core.List.{[], ◌∷◌, ◌++◌}
use native.Mathlib.Omega.{arith}
use the_block.Prelude.Lists.{Text}
use the_block.Prelude.Tests.{◌==◌, Bool-cases}

-- The bytes of a literal.
abbrev pub codes : String → Text
codes String.[] = []
codes (String.◌∷◌ c s) = code c ∷ codes s

-- `text.starts_with(needle)`.
unfoldable pub starts_with : Text → Text → Bool
starts_with text [] = true
starts_with [] (n ∷ needle) = false
starts_with (b ∷ text) (n ∷ needle) = (b == n) && starts_with text needle

-- `text.contains(needle)`.
unfoldable pub contains : Text → Text → Bool
contains [] needle = starts_with [] needle
contains (b ∷ text) needle = starts_with (b ∷ text) needle || contains text needle

-- A text starts with another exactly if it is that one and a rest.
pub starts_with_iff :
    (text needle : Text)
    → (starts_with text needle ≡ true) ↔ ((rest : Text) × (text ≡ needle ++ rest))
unfolding starts_with
starts_with_iff text [] = ((λ h. (text, refl)), (λ h. refl))
starts_with_iff [] (n ∷ needle) = ((λ h. absurd (cc h)), (λ h. absurd (cc (h.1))))
starts_with_iff (b ∷ text) (n ∷ needle) =
    let ih = starts_with_iff text needle in
    (
      (λ h. let (rest, e) = ih.0 (ground arith) in (rest, ground arith)),
      (λ h. ground (arith, ih.1 (h.0, ground arith))),
    )

-- A text stands somewhere in another.
abbrev pub IsWithin : Text → Text → Type 0
IsWithin needle text = (before : Text) × (after : Text) × (text ≡ before ++ (needle ++ after))

contains-IsWithin : (text needle : Text) → contains text needle ≡ true → IsWithin needle text
unfolding contains
contains-IsWithin [] needle h = let (rest, e) = (starts_with_iff [] needle).0 h in ([], rest, e)
contains-IsWithin (b ∷ text) needle h = elim (Bool-cases (starts_with (b ∷ text) needle)) [
  | inl now ↦ let (rest, e) = (starts_with_iff (b ∷ text) needle).0 now in ([], rest, e)
  | inr not_now ↦
      let (before, after, e) = contains-IsWithin text needle (ground arith) in
      (b ∷ before, after, ap (λ t. b ∷ t) e)
]

IsWithin-contains :
    (text needle before after : Text)
    → text ≡ before ++ (needle ++ after)
    → contains text needle ≡ true
unfolding contains
IsWithin-contains [] needle [] after e = (starts_with_iff [] needle).1 (after, e)
IsWithin-contains [] needle (c ∷ before) after e = absurd (cc e)
IsWithin-contains (b ∷ text) needle [] after e =
    ground (arith, (starts_with_iff (b ∷ text) needle).1 (after, e))
IsWithin-contains (b ∷ text) needle (c ∷ before) after e =
    let later = IsWithin-contains text needle before after (ground arith) in ground (arith, later)

-- A text contains another exactly if that stands between two others.
pub contains_iff : (text needle : Text) → (contains text needle ≡ true) ↔ IsWithin needle text
contains_iff text needle =
    (contains-IsWithin text needle, (λ h. IsWithin-contains text needle h.0 h.1 h.2))
